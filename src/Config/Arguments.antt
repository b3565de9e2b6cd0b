-- ===== src/Config/Arguments.antt =====
-- Arguments of keywords: escapes, and the length of the text kept of a rule.
use snuffleupagus.Base.{
  ℕ, ◌+◌, ◌≡◌, ◌≢◌, ◌||◌, inl, inr, List, [], ◌∷◌, ◌++◌, Option, none, some, refl, ap, ◌∙◌, arith,
  ◌==◌, if◌then◌else◌, length, length-append, All, Bytes, Bool-cases,
}
use snuffleupagus.Config.{
  ArgType, SpParsedKeyword, unescape, representation_len, shown, representation_from,
  sp_get_textual_representation,
}

-- How a user writes a text inside double quotes.
pub escape : Bytes → Bytes
escape [] = []
escape (c ∷ s) =
    let rest = escape s in if c == b'"' || c == b'\\' then b'\\' ∷ c ∷ rest else c ∷ rest

unescape-plain : (c : ℕ) (s : Bytes) → c ≢ b'\\' → unescape (c ∷ s) ≡ c ∷ unescape s
unfolding unescape
unescape-plain c [] h = ground arith
unescape-plain c (d ∷ s) h = ground arith

unescape-special : (c : ℕ) (s : Bytes) → unescape (b'\\' ∷ c ∷ s) ≡ c ∷ unescape s
unfolding unescape
unescape-special c s = refl

-- Reading an argument gives back every text that was written with its quotes and backslashes
-- escaped.
pub unescape-escape : (s : Bytes) → unescape (escape s) ≡ s
unfolding escape
unescape-escape [] = unfold unescape in refl
unescape-escape (c ∷ s) = elim (Bool-cases (c == b'"' || c == b'\\')) [
  | inl special ↦ rw special (unescape-special c (escape s) ∙ ap (◌∷◌ c) (unescape-escape s))
  | inr plain ↦
      rw plain (unescape-plain c (escape s) (ground arith) ∙ ap (◌∷◌ c) (unescape-escape s))
]

-- An argument whose only backslash is its last byte is read with a NUL in place of it.
pub unescape_trailing :
    (s : Bytes) → All (λ c. c ≢ b'\\') s → unescape (s ++ b'\\' ∷ []) ≡ s ++ 0 ∷ []
unescape_trailing [] h = unfold unescape in refl
unescape_trailing (c ∷ s) (h, k) =
    unescape-plain c (s ++ b'\\' ∷ []) h ∙ ap (◌∷◌ c) (unescape_trailing s k)

-- As the scanner builds a keyword: a text in quotes with its argument, or empty or no parentheses.
abbrev pub IsScannedAs : ArgType → Option Bytes → Type 0
IsScannedAs ArgType.str (some a) = Unit
IsScannedAs ArgType.empty (some []) = Unit
IsScannedAs ArgType.no_parens none = Unit
IsScannedAs _ _ = ⊥

length-shown :
    (kw : Bytes) (t : ArgType) (arg : Option Bytes)
    → IsScannedAs t arg
    → length (shown (record { kw = kw; arg = arg; argtype = t }))
      ≡ representation_len (record { kw = kw; arg = arg; argtype = t } ∷ [])
unfolding representation_len
length-shown kw ArgType.str (some a) h = simp length-append (omega arith)
length-shown kw ArgType.empty (some []) h = simp length-append (omega arith)
length-shown kw ArgType.no_parens none h = simp length-append (omega arith)
length-shown kw ArgType.str none h = absurd h
length-shown kw t arg h = absurd h

-- Every keyword of a rule is as the scanner builds it.
abbrev pub IsScanned : List SpParsedKeyword → Type 0
IsScanned rule = All (λ k. IsScannedAs k.argtype k.arg) rule

length-representation_from :
    (rule : List SpParsedKeyword)
    → IsScanned rule
    → length (representation_from rule) ≡ representation_len rule
unfolding representation_from representation_len
length-representation_from [] h = refl
length-representation_from (k ∷ rule) (h, hs) =
    let one : length (shown k) ≡ representation_len (k ∷ []) =
      length-shown k.kw k.argtype k.arg h in
    length-append (shown k) (representation_from rule)
    ∙ omega (arith, one, length-representation_from rule hs)

-- The text kept of a rule fills the buffer computed for it exactly, three bytes more than what the
-- first loop adds up: nothing is written behind the buffer, and no byte of it is left unwritten.
pub length-sp_get_textual_representation :
    (rule : List SpParsedKeyword)
    → IsScanned rule
    → length (sp_get_textual_representation rule) ≡ 3 + representation_len rule
unfolding sp_get_textual_representation
length-sp_get_textual_representation rule h =
    simp length-append (omega (arith, length-representation_from rule h))
