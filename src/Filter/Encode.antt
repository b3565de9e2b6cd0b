-- ===== src/Filter/Encode.antt =====
-- What stripping and encoding do to one text.
use snuffleupagus.Base.{
  ℕ, ◌+◌, ◌-◌, ◌*◌, ◌/◌, ◌%◌, ◌<◌, ◌≡◌, ◌≢◌, true, false, [], ◌∷◌, refl, sym, ap, ◌∙◌, inl, inr,
  arith, ltb, ◌==◌, ==_iff, length, All, Bytes, Bool-cases, if◌then◌else◌,
}
use snuffleupagus.Filter.{sp_is_dangerous_char, hex_char, strip, extra, encode_from, encode}

abbrev pub IsHarmless : Bytes → Type 0
IsHarmless s = All (λ c. sp_is_dangerous_char c ≡ false) s

-- A stripped text keeps its length and holds no dangerous character.
pub strip-IsHarmless : (s : Bytes) → IsHarmless (strip s) × (length (strip s) ≡ length s)
unfolding strip sp_is_dangerous_char
strip-IsHarmless [] = (tt, refl)
strip-IsHarmless (c ∷ s) = ground (arith, strip-IsHarmless s)

strip_of_IsHarmless : (s : Bytes) → IsHarmless s → strip s ≡ s
unfolding strip
strip_of_IsHarmless [] h = refl
strip_of_IsHarmless (c ∷ s) (h, k) = ground (arith, strip_of_IsHarmless s k)

pub strip-strip : (s : Bytes) → strip (strip s) ≡ strip s
strip-strip s = strip_of_IsHarmless (strip s) (strip-IsHarmless s).0

hex_char-IsHarmless : (i : ℕ) → i < 16 → sp_is_dangerous_char (hex_char i) ≡ false
unfolding sp_is_dangerous_char hex_char
hex_char-IsHarmless i h = ground arith

percent-IsHarmless : sp_is_dangerous_char b'%' ≡ false
unfolding sp_is_dangerous_char
percent-IsHarmless = refl

dangerous-lt : (c : ℕ) → sp_is_dangerous_char c ≡ true → c < 256
unfolding sp_is_dangerous_char
dangerous-lt c h = ground arith

encode_from-IsHarmless : (s : Bytes) → IsHarmless (encode_from s)
unfolding encode_from
encode_from-IsHarmless [] = tt
encode_from-IsHarmless (c ∷ s) = elim (Bool-cases (sp_is_dangerous_char c)) [
  | inl bad ↦ rw bad (
    percent-IsHarmless,
    (
      hex_char-IsHarmless (c / 16) (omega (arith, dangerous-lt c bad)),
      (hex_char-IsHarmless (c % 16) (omega arith), encode_from-IsHarmless s),
    ),
  )
  | inr good ↦ rw good (good, encode_from-IsHarmless s)
]

-- The second loop writes just as many bytes as were allocated.
length-encode_from : (s : Bytes) → length (encode_from s) ≡ length s + extra s
unfolding encode_from extra
length-encode_from [] = refl
length-encode_from (c ∷ s) = ground (arith, length-encode_from s)

extra-IsHarmless : (s : Bytes) → extra s ≡ 0 → IsHarmless s
unfolding extra
extra-IsHarmless [] h = tt
extra-IsHarmless (c ∷ s) h = ground (arith, extra-IsHarmless s)

encode_from_of_IsHarmless : (s : Bytes) → IsHarmless s → encode_from s ≡ s
unfolding encode_from
encode_from_of_IsHarmless [] h = refl
encode_from_of_IsHarmless (c ∷ s) (h, k) = rw h (ap (◌∷◌ c) (encode_from_of_IsHarmless s k))

extra_of_IsHarmless : (s : Bytes) → IsHarmless s → extra s ≡ 0
unfolding extra
extra_of_IsHarmless [] h = refl
extra_of_IsHarmless (c ∷ s) (h, k) = ground (arith, extra_of_IsHarmless s k)

encode_of_IsHarmless : (s : Bytes) → IsHarmless s → encode s ≡ s
unfolding encode
encode_of_IsHarmless s h = ground (arith, extra_of_IsHarmless s h)

encode_lem : (s : Bytes) → encode s ≡ encode_from s
unfolding encode
encode_lem s = elim (Bool-cases (extra s == 0)) [
  | inl e ↦ rw e (sym (encode_from_of_IsHarmless s (extra-IsHarmless s ((==_iff (extra s) 0).0 e))))
  | inr e ↦ rw e refl
]

-- An encoded text holds no dangerous character, and is longer by what was allocated for it: the
-- second loop writes neither more nor less.
pub encode-IsHarmless :
    (s : Bytes) → IsHarmless (encode s) × (length (encode s) ≡ length s + extra s)
encode-IsHarmless s = rw encode_lem (encode_from-IsHarmless s, length-encode_from s)

pub encode-encode : (s : Bytes) → encode (encode s) ≡ encode s
encode-encode s = encode_of_IsHarmless (encode s) (encode-IsHarmless s).0

-- The value of a hexadecimal digit.
pub hex_value : ℕ → ℕ
hex_value c = if ltb c b'A' then c - b'0' else c - b'A' + 10

-- Percent decoding, as a reader of a URL does it.
pub decode : Bytes → Bytes
decode [] = []
decode (c ∷ []) = c ∷ []
decode (c ∷ d ∷ []) = c ∷ d ∷ []
decode (c ∷ hi ∷ lo ∷ s) =
    let coded = decode s in
    let plain = decode (hi ∷ lo ∷ s) in
    if c == b'%' then (hex_value hi * 16 + hex_value lo) ∷ coded else c ∷ plain

hex_value-hex_char : (i : ℕ) → i < 16 → hex_value (hex_char i) ≡ i
unfolding hex_value hex_char
hex_value-hex_char i h = ground arith

decode-coded :
    (c : ℕ) (s : Bytes)
    → c < 256
    → decode (b'%' ∷ hex_char (c / 16) ∷ hex_char (c % 16) ∷ s) ≡ c ∷ decode s
unfolding decode
decode-coded c s h =
    ap (λ x. x ∷ decode s)
      (omega (
        arith,
        hex_value-hex_char (c / 16) (omega arith),
        hex_value-hex_char (c % 16) (omega arith),
      ))

decode-plain : (c : ℕ) (s : Bytes) → c ≢ b'%' → decode (c ∷ s) ≡ c ∷ decode s
unfolding decode
decode-plain c [] h = refl
decode-plain c (d ∷ []) h = refl
decode-plain c (hi ∷ lo ∷ s) h = ground arith

decode-encode_from : (s : Bytes) → All (λ c. c ≢ b'%') s → decode (encode_from s) ≡ s
unfolding encode_from
decode-encode_from [] h = unfold decode in refl
decode-encode_from (c ∷ s) (p, k) = elim (Bool-cases (sp_is_dangerous_char c)) [
  | inl bad ↦
      rw bad
        (decode-coded c (encode_from s) (dangerous-lt c bad) ∙ ap (◌∷◌ c) (decode-encode_from s k))
  | inr good ↦ rw good (decode-plain c (encode_from s) p ∙ ap (◌∷◌ c) (decode-encode_from s k))
]

-- Percent decoding restores a text that held no percent sign.
pub decode-encode : (s : Bytes) → All (λ c. c ≢ b'%') s → decode (encode s) ≡ s
decode-encode s h = ap decode (encode_lem s) ∙ decode-encode_from s h
