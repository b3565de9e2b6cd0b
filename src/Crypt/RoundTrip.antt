-- ===== src/Crypt/RoundTrip.antt =====
-- What is decrypted: what was encrypted, or what the secret box has authenticated.
use snuffleupagus.Base.{
  ℕ, zero, suc, ◌+◌, ◌^◌, ◌%◌, ◌<◌, ◌≡◌, ◌≢◌, [], ◌∷◌, refl, sym, ◌∙◌, ap, arith, Bool, true, false,
  ◌++◌, Option, none, some, Bytes, take, drop, length, length-append, take-length-append,
  drop-length-append, ltb, if◌then◌else◌, inl, inr, Option-cases,
}
use snuffleupagus.Log.{Run, ◌>>=◌, bind_returns}
use snuffleupagus.Crypt.{
  Crypto, KeyConfig, IsCrypto, Apply, keep, zero_bytes, nonce_bytes, zeros, padded, opened, as_is,
  message_len, key_of, generate_key, encrypt_zval, decrypt_zval, decrypt_data,
}

length-zeros : (n : ℕ) → length (zeros n) ≡ n
unfolding zeros
length-zeros zero = refl
length-zeros (suc n) = ap suc (length-zeros n)

length-padded : (s : Bytes) → length (padded s) ≡ length s + 33
length-padded s = omega (
  arith,
  length-append (zeros zero_bytes) (s ++ zeros 1),
  length-append s (zeros 1),
  length-zeros zero_bytes,
  length-zeros 1,
)

take-front : (n : ℕ) (xs ys : Bytes) → length xs ≡ n → take n (xs ++ ys) ≡ xs
take-front n xs ys e = rw (← e) (take-length-append xs ys)

drop-front : (n : ℕ) (xs ys : Bytes) → length xs ≡ n → drop n (xs ++ ys) ≡ ys
drop-front n xs ys e = rw (← e) (drop-length-append xs ys)

body-padded : (s : Bytes) → take (length s) (drop zero_bytes (padded s)) ≡ s
body-padded s =
    ap (take (length s))
      (drop-front zero_bytes (zeros zero_bytes) (s ++ zeros 1) (length-zeros zero_bytes))
    ∙ take-length-append s (zeros 1)

generate_key-key :
    (lib : Crypto) (cfg : KeyConfig) → (generate_key lib cfg).1 ≡ some (key_of lib cfg)
unfolding generate_key
generate_key-key lib cfg = ground arith

opened-padded :
    (simulation : Bool) (value s : Bytes) (len : ℕ)
    → len ≡ length s + 57
    → len < 2 ^ 64
    → (opened simulation value len (some (padded s))).1 ≡ some (keep s)
opened-padded simulation value s len e h =
    let m : message_len len ≡ length s = omega arith in rw (m, body-padded s)

no_wrap : (n : ℕ) → n + zero_bytes < 2 ^ 64 → ltb ((n + zero_bytes) % 2 ^ 64) n ≡ false
no_wrap n h = ground arith

decrypt_data_boxed :
    (lib : Crypto) (cfg : KeyConfig) (simulation : Bool) (value nonce s c : Bytes)
    → IsCrypto lib
    → length nonce ≡ nonce_bytes
    → length s + 89 < 2 ^ 64
    → lib.secretbox (padded s) nonce (key_of lib cfg) ≡ some c
    → (decrypt_data lib cfg simulation value (some (nonce ++ c))).1 ≡ some (keep s)
unfolding decrypt_data
decrypt_data_boxed lib cfg simulation value nonce s c laws n bound e =
    let size : length (nonce ++ c) ≡ length s + 57 = omega (
      arith,
      length-append nonce c,
      laws.same_length (padded s) nonce (key_of lib cfg) c e,
      length-padded s,
    ) in
    let long : ltb (length (nonce ++ c)) nonce_bytes ≡ false = ground arith in
    let fits : ltb ((length (nonce ++ c) + zero_bytes) % 2 ^ 64) (length (nonce ++ c)) ≡ false =
      no_wrap (length (nonce ++ c)) (omega arith) in
    rw (long, fits)
      (rw (generate_key-key lib cfg, ◌>>=◌)
        (rw
          (
            take-front nonce_bytes nonce c n,
            drop-front nonce_bytes nonce c n,
            laws.opens (s ++ zeros 1) nonce (key_of lib cfg) c e,
          )
          (opened-padded simulation value s (length (nonce ++ c)) size (omega arith))))

encrypt_zval-boxed :
    (lib : Crypto) (cfg : KeyConfig) (nonce s c : Bytes)
    → lib.secretbox (padded s) nonce (key_of lib cfg) ≡ some c
    → (encrypt_zval lib cfg nonce s).1 ≡ some (lib.base64_encode (nonce ++ c))
unfolding encrypt_zval
encrypt_zval-boxed lib cfg nonce s c e = rw (generate_key-key lib cfg, ◌>>=◌) (rw e)

module _ (lib : Crypto) (cfg : KeyConfig) (laws : IsCrypto lib) where
  decrypt_zval-boxed :
      (simulation : Bool) (nonce s c : Bytes)
      → length nonce ≡ nonce_bytes
      → length s + 89 < 2 ^ 64
      → lib.secretbox (padded s) nonce (key_of lib cfg) ≡ some c
      → (decrypt_zval lib cfg simulation (lib.base64_encode (nonce ++ c))).1 ≡ some (keep s)
  unfolding decrypt_zval
  decrypt_zval-boxed simulation nonce s c n h e =
      rw (laws.decodes (nonce ++ c)) (
        decrypt_data_boxed lib cfg simulation (lib.base64_encode (nonce ++ c)) nonce s c laws n h e)

  secretbox_returns :
      (nonce s : Bytes) → (c : Bytes) × (lib.secretbox (padded s) nonce (key_of lib cfg) ≡ some c)
  secretbox_returns nonce s =
      elim (Option-cases (lib.secretbox (padded s) nonce (key_of lib cfg))) [
        | inr found ↦ found
        | inl e ↦
            absurd (
              cc (e, laws.boxes (padded s) nonce (key_of lib cfg) (omega (arith, length-padded s))))
      ]

  nonce_cons : (nonce c : Bytes) → length nonce ≡ nonce_bytes → lib.base64_encode (nonce ++ c) ≢ []
  nonce_cons [] c n = absurd (omega arith)
  nonce_cons (x ∷ nonce) c n = laws.encodes x (nonce ++ c)

  -- If the libraries keep their laws, the nonce has 24 bytes and a text is shorter than 2^64 - 89
  -- bytes, the encryption returns a text, not empty, that decrypts to the text that was encrypted,
  -- in simulation and in enforcement.
  pub decrypt_zval-encrypt_zval :
      (simulation : Bool) (nonce s : Bytes)
      → length nonce ≡ nonce_bytes
      → length s + 89 < 2 ^ 64
      → (z : Bytes) × ((encrypt_zval lib cfg nonce s).1 ≡ some z)
        × (z ≢ [])
        × ((decrypt_zval lib cfg simulation z).1 ≡ some (keep s))
  decrypt_zval-encrypt_zval simulation nonce s n h =
      let (c, e) = secretbox_returns nonce s in
      (
        lib.base64_encode (nonce ++ c),
        encrypt_zval-boxed lib cfg nonce s c e,
        nonce_cons nonce c n,
        decrypt_zval-boxed simulation nonce s c n h e,
      )

-- The value is a box under the key of the configuration, and `v` is the text in it.
abbrev pub IsAuthentic : Crypto → KeyConfig → Bytes → Bytes → Type 0
IsAuthentic lib cfg value v =
    (box : Bytes) × (m : Bytes) × (lib.base64_decode value ≡ some box)
    × (lib.secretbox_open (drop nonce_bytes box) (take nonce_bytes box) (key_of lib cfg) ≡ some m)
    × (v ≡ take (message_len (length box)) (drop zero_bytes m))

opened_authentic :
    (value v : Bytes) (len : ℕ) (o : Option Bytes)
    → (opened false value len o).1 ≡ some (keep v)
    → (m : Bytes) × (o ≡ some m) × (v ≡ take (message_len len) (drop zero_bytes m))
opened_authentic value v len none h = cc
opened_authentic value v len (some m) h = (m, refl, cc)

-- Behind the guards the value is that of the rest of the function.
guards_kept :
    (lib : Crypto) (cfg : KeyConfig) (short wraps : Bool) (value v : Bytes) (k : Bytes → Run Apply)
    → (if short
        then as_is false value
        else if wraps
        then as_is false value
        else (generate_key lib cfg >>= k)).1
      ≡ some (keep v)
    → (k (key_of lib cfg)).1 ≡ some (keep v)
guards_kept lib cfg true wraps value v k h = cc
guards_kept lib cfg false true value v k h = cc
guards_kept lib cfg false false value v k h =
    sym (bind_returns (generate_key lib cfg) k (key_of lib cfg) (generate_key-key lib cfg)) ∙ h

decrypt_data-IsAuthentic :
    (lib : Crypto) (cfg : KeyConfig) (value v : Bytes) (o : Option Bytes)
    → lib.base64_decode value ≡ o
    → (decrypt_data lib cfg false value o).1 ≡ some (keep v)
    → IsAuthentic lib cfg value v
unfolding decrypt_data
decrypt_data-IsAuthentic lib cfg value v none e h = cc
decrypt_data-IsAuthentic lib cfg value v (some box) e h =
    let open_with : Bytes → Option Bytes =
      λ key. lib.secretbox_open (drop nonce_bytes box) (take nonce_bytes box) key in
    let (m, om, vm) = opened_authentic value v (length box) (open_with (key_of lib cfg)) (
      guards_kept lib cfg (ltb (length box) nonce_bytes)
        (ltb ((length box + zero_bytes) % 2 ^ 64) (length box)) value v
        (λ key. opened false value (length box) (open_with key)) h) in
    (box, m, e, om, vm)

-- In enforcement a value is kept only as the text of a box that opens under the key of the
-- configuration.
pub decrypt_zval-IsAuthentic :
    (lib : Crypto) (cfg : KeyConfig) (value v : Bytes)
    → (decrypt_zval lib cfg false value).1 ≡ some (keep v)
    → IsAuthentic lib cfg value v
unfolding decrypt_zval
decrypt_zval-IsAuthentic lib cfg value v h =
    decrypt_data-IsAuthentic lib cfg value v (lib.base64_decode value) refl h

-- A value that is no base64 ends the request, in simulation too.
pub decrypt_zval_undecodable :
    (lib : Crypto) (cfg : KeyConfig) (simulation : Bool) (value : Bytes)
    → lib.base64_decode value ≡ none
    → (decrypt_zval lib cfg simulation value).1 ≡ none
unfolding decrypt_zval
decrypt_zval_undecodable lib cfg simulation value e = rw e
