-- ===== src/Session/Stored.antt =====
-- What a session reads back.
use snuffleupagus.Base.{
  ℕ, ◌+◌, ◌^◌, ◌<◌, ◌≡◌, ◌≢◌, refl, ap, ◌∙◌, true, false, [], ◌∷◌, some, Bytes, length, Bool-cases,
  inl, inr,
}
use snuffleupagus.Crypt.{Crypto, KeyConfig, IsCrypto, keep, decrypt_zval, nonce_bytes}
use snuffleupagus.Crypt.RoundTrip.{decrypt_zval-encrypt_zval}
use snuffleupagus.Globals.{ConfigSession}
use snuffleupagus.Log.{◌>>=◌, pure, bind_returns}
use snuffleupagus.Session.{
  PsModule, check_sid_length, read_value, write_value, sp_hook_s_read, sp_hook_s_write,
}

module _ (lib : Crypto) (key : KeyConfig) (cfg : ConfigSession) (laws : IsCrypto lib) where
  read_decrypted :
      (c : ℕ) (s val : Bytes)
      → cfg.encrypt ≡ true
      → (decrypt_zval lib key cfg.simulation (c ∷ s)).1 ≡ some (keep val)
      → (read_value lib key cfg (true, some (c ∷ s))).1 ≡ some (true, some val)
  unfolding read_value
  read_decrypted c s val e h = rw e (rw (h, ◌>>=◌) refl)

  read_encrypted :
      (z val : Bytes)
      → cfg.encrypt ≡ true
      → z ≢ []
      → (decrypt_zval lib key cfg.simulation z).1 ≡ some (keep val)
      → (read_value lib key cfg (true, some z)).1 ≡ some (true, some val)
  read_encrypted [] val e filled h = absurd (filled refl)
  read_encrypted (c ∷ s) val e filled h = read_decrypted c s val e h

  plain_read :
      (c : ℕ) (s : Bytes)
      → cfg.encrypt ≡ false
      → (read_value lib key cfg (true, some (c ∷ s))).1 ≡ some (true, some (c ∷ s))
  unfolding read_value
  plain_read c s e = rw e

  -- The value that is stored is one that reads as the value that is written.
  write_value-read_value :
      (nonce val : Bytes)
      → length nonce ≡ nonce_bytes
      → length val + 89 < 2 ^ 64
      → (z : Bytes) × ((write_value lib key cfg nonce val).1 ≡ some z)
        × ((read_value lib key cfg (true, some z)).1 ≡ some (true, some val))
  unfolding read_value write_value
  write_value-read_value nonce [] n h = ([], refl, refl)
  write_value-read_value nonce (c ∷ val) n h = elim (Bool-cases cfg.encrypt) [
    | inl e ↦
        let (z, w, filled, d) =
          decrypt_zval-encrypt_zval lib key laws cfg.simulation nonce (c ∷ val) n h in
        (z, rw e w, read_encrypted z (c ∷ val) e filled d)
    | inr e ↦ (c ∷ val, rw e refl, plain_read c val e)
  ]

  -- If the libraries keep their laws, the check of the id returns, the module stores whatever it is
  -- given and gives it back, the nonce has 24 bytes and the value is shorter than 2^64 - 89 bytes,
  -- then the write succeeds, and a read behind it gives the value, encrypted or not.
  pub sp_hook_s_read-sp_hook_s_write :
      {S : Type 0} (old : PsModule S) (nonce sid val : Bytes) (store : S)
      → (check_sid_length cfg (some sid)).1 ≡ some tt
      → ((v : Bytes) → (old.s_write store sid v).1 ≡ true)
      → ((v : Bytes) → old.s_read (old.s_write store sid v).0 sid ≡ (true, some v))
      → length nonce ≡ nonce_bytes
      → length val + 89 < 2 ^ 64
      → (t : S) × ((sp_hook_s_write old lib key cfg nonce store sid val).1 ≡ some (t, true))
        × ((sp_hook_s_read old lib key cfg t sid).1 ≡ some (true, some val))
  unfolding sp_hook_s_read sp_hook_s_write
  sp_hook_s_read-sp_hook_s_write {S} old nonce sid val store passes stores gives n h =
      let (z, w, r) = write_value-read_value nonce val n h in
      let checked = check_sid_length cfg (some sid) in
      let t = (old.s_write store sid z).0 in
      (
        t,
        bind_returns checked
              (λ _. write_value lib key cfg nonce val >>= λ v. pure (old.s_write store sid v)) tt
              passes
            ∙ bind_returns (write_value lib key cfg nonce val) (λ v. pure (old.s_write store sid v))
                z w
            ∙ ap (λ ok. some (t, ok)) (stores z),
        bind_returns checked (λ _. read_value lib key cfg (old.s_read t sid)) tt passes
            ∙ rw (gives z) r,
      )
