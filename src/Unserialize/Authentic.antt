-- ===== src/Unserialize/Authentic.antt =====
-- What the HMAC lets through.
use snuffleupagus.Base.{
  ℕ, zero, suc, ◌+◌, ◌-◌, ◌%◌, ◌^◌, ◌<◌, ◌≡◌, ◌↔◌, refl, sym, ap, ◌∙◌, arith, true, false, [], ◌∷◌,
  ◌++◌, some, Bytes, take, drop, length, length-append, take-length-append, drop-length-append, ltb,
  ltb→lt, Bool-cases, inl, inr,
}
use snuffleupagus.Log.{pure}
use snuffleupagus.Unserialize.{
  HashOps, Hmac, hmac_of, sp_do_hash_hmac_sha256, UnserializeConfig, sp_serialize, Options, differ,
  check_hmac, sp_unserialize,
}

differ-equal :
    (n : ℕ) (a b : Bytes) → length a ≡ n → length b ≡ n → (differ n a b ≡ false) ↔ (a ≡ b)
unfolding differ
differ-equal zero [] [] h k = ground arith
differ-equal zero (x ∷ a) b h k = absurd (omega arith)
differ-equal zero [] (y ∷ b) h k = absurd (omega arith)
differ-equal (suc n) [] b h k = absurd (omega arith)
differ-equal (suc n) (x ∷ a) [] h k = absurd (omega arith)
differ-equal (suc n) (x ∷ a) (y ∷ b) h k =
    ground (arith, differ-equal n a b (omega arith) (omega arith))

take-drop : (n : ℕ) (s : Bytes) → take n s ++ drop n s ≡ s
take-drop zero s = refl
take-drop (suc n) [] = refl
take-drop (suc n) (x ∷ s) = ap (◌∷◌ x) (take-drop n s)

length-drop : (n : ℕ) (s : Bytes) → length (drop n s) ≡ length s - n
length-drop zero s = omega arith
length-drop (suc n) [] = omega arith
length-drop (suc n) (x ∷ s) = length-drop n s ∙ omega arith

-- PHP has a SHA-256 whose digests have 64 hexadecimal digits.
pub record HasSha256 (lib : Hmac) (ops : HashOps) : Type 0 where
  pub fetched : lib.ops ≡ some ops
  pub is_crypto : ops.is_crypto ≡ true
  pub digits : (s : Bytes) → length (ops.bin2hex (ops.hash s)) ≡ 64

-- In enforcement, without the classes ruled out.
pub record Enforces (cfg : UnserializeConfig) : Type 0 where
  pub enabled : cfg.unserialize.enable ≡ true
  pub enforced : cfg.unserialize.simulation ≡ false
  pub classes : cfg.unserialize_noclass.enable ≡ false

module _ (lib : Hmac) (ops : HashOps) (sha : HasSha256 lib ops) (cfg : UnserializeConfig) where
  -- The HMAC of a text under the key of the configuration.
  abbrev pub signature : Bytes → Bytes
  signature text = hmac_of lib.keys ops text cfg.encryption_key

  length-signature : (text : Bytes) → length (signature text) ≡ 64
  length-signature text = sha.digits _

  hmac_returns :
      (text : Bytes)
      → sp_do_hash_hmac_sha256 lib text cfg.encryption_key ≡ pure (some (signature text))
  unfolding sp_do_hash_hmac_sha256
  hmac_returns text = rw (sha.fetched, sha.is_crypto) refl

  check_hmac-signature :
      (text hmac given_text : Bytes)
      → Enforces cfg
      → length hmac ≡ 64
      → ((check_hmac lib cfg text hmac).1 ≡ some (given_text, Options.given))
        ↔ ((text ≡ given_text) × (hmac ≡ signature text))
  unfolding check_hmac
  check_hmac-signature text hmac given_text f h =
      let same = differ-equal 64 hmac (signature text) h (length-signature text) in
      rw (hmac_returns text) (elim (Bool-cases (differ 64 hmac (signature text))) [
        | inl e ↦ rw (e, f.enforced) ((λ x. cc x), (λ (p, q). cc (e, same.1 q)))
        | inr e ↦ rw e ((λ x. (cc x, same.0 e)), (λ (p, q). ap (λ t. some (t, Options.given)) p))
      ])

  signed_parts :
      (text buf : Bytes)
      → buf ≡ text ++ signature text
      → (take (length buf - 64) buf ≡ text) × (drop (length buf - 64) buf ≡ signature text)
  signed_parts text buf e =
      let size : length buf - 64 ≡ length text =
        omega
          (arith, ap (length {0}) e, length-append text (signature text), length-signature text) in
      rw (size, e)
        (take-length-append text (signature text), drop-length-append text (signature text))

  short_unsigned :
      (text buf : Bytes) → ltb (length buf) 64 ≡ true → buf ≡ text ++ signature text → ⊥
  short_unsigned text buf h e = omega (
    arith,
    ltb→lt (length buf) 64 h,
    ap (length {0}) e,
    length-append text (signature text),
    length-signature text,
  )

  signed_at :
      (body text hmac : Bytes)
      → body ≡ text
      → hmac ≡ signature body
      → body ++ hmac ≡ text ++ signature text
  signed_at body text hmac p q = rw q (ap (λ t. t ++ signature t) p)

  -- If PHP has SHA-256 and the configuration enforces the HMAC, `unserialize` calls PHP's function,
  -- on a text, exactly if what it is given is this text followed by its HMAC; else the request ends.
  pub sp_unserialize-signature :
      (buf text : Bytes)
      → Enforces cfg
      → ((sp_unserialize lib cfg buf).1 ≡ some (text, Options.given))
        ↔ (buf ≡ text ++ signature text)
  unfolding sp_unserialize
  sp_unserialize-signature buf text f =
      let body = take (length buf - 64) buf in
      let hmac = drop (length buf - 64) buf in
      elim (Bool-cases (ltb (length buf) 64)) [
        | inl e ↦
            rw (f.classes, e, f.enforced) ((λ x. cc x), (λ x. absurd (short_unsigned text buf e x)))
        | inr e ↦
            let check =
              check_hmac-signature body hmac text f
                (length-drop (length buf - 64) buf ∙ ground arith) in
            rw (f.classes, e)
              (
                (λ x.
                    let (p, q) = check.0 x in
                    sym (take-drop (length buf - 64) buf) ∙ signed_at body text hmac p q),
                (λ x.
                    let (p, q) = signed_parts text buf x in check.1 (p, q ∙ ap signature (sym p))),
              )
      ]

  sp_serialize-signature :
      (text : Bytes)
      → Enforces cfg
      → length text + 64 < 2 ^ 64
      → sp_serialize lib cfg text ≡ pure (text ++ signature text)
  unfolding sp_serialize
  sp_serialize-signature text f h =
      let fits : ltb ((length text + length (signature text)) % 2 ^ 64) (length text) ≡ false =
        rw (length-signature text) (ground arith) in
      rw f.enabled (rw (hmac_returns text) (rw fits refl))

  -- If PHP has SHA-256, the configuration enforces the HMAC and a text is shorter than 2^64 - 64
  -- bytes, what `serialize` makes of the text is a text on which `unserialize` calls PHP's function
  -- with what PHP's `serialize` gave.
  pub sp_unserialize-sp_serialize :
      (text : Bytes)
      → Enforces cfg
      → length text + 64 < 2 ^ 64
      → (z : Bytes) × ((sp_serialize lib cfg text).1 ≡ some z)
        × ((sp_unserialize lib cfg z).1 ≡ some (text, Options.given))
  sp_unserialize-sp_serialize text f h = (
    text ++ signature text,
    ap (λ r. r.1) (sp_serialize-signature text f h),
    (sp_unserialize-signature (text ++ signature text) text f).1 refl,
  )
