-- ===== src/Crypt.antt =====
-- src/sp_crypt.c: the encryption of cookies and of sessions. SHA-256 and base64 are PHP's, the secret
-- box is that of src/tweetnacl.c: parameters, with their documented laws in `IsCrypto`. Memory is
-- the bytes it holds. A text is bytes before a terminating NUL, which is left out.
pub mod RoundTrip
use snuffleupagus.Base.{
  ℕ, zero, suc, ◌+◌, ◌-◌, ◌%◌, ◌^◌, ◌≤◌, ◌≡◌, ◌≢◌, Bool, true, false, List, [], ◌∷◌, ◌++◌, Option,
  none, some, Bytes, codes, c_string, take, drop, length, ltb, ◌==◌, is_set, if◌then◌else◌,
}
use snuffleupagus.Log.{
  Run, ◌>>=◌, ◌>>◌, pure, sp_log_drop, sp_log_simulation, sp_log_warn, sp_log_err,
}

-- `getenv`, SHA-256 of a text, base64, the secret box: message, nonce, key; and whether errors are
-- fatal.
pub record Crypto : Type 0 where
  pub fatal_errors : Bool
  pub getenv : Bytes → Option Bytes
  pub sha256 : Bytes → Bytes
  pub base64_encode : Bytes → Bytes
  pub base64_decode : Bytes → Option Bytes
  pub secretbox : Bytes → Bytes → Bytes → Option Bytes
  pub secretbox_open : Bytes → Bytes → Bytes → Option Bytes

-- `SPCFG(cookies_env_var)` and `SPCFG(encryption_key)`.
pub record KeyConfig : Type 0 where
  pub cookies_env_var : Option Bytes
  pub encryption_key : Option Bytes

abbrev pub zero_bytes : ℕ
zero_bytes = 32

abbrev pub nonce_bytes : ℕ
nonce_bytes = 24

-- `ecalloc`.
unfoldable pub zeros : ℕ → Bytes
zeros zero = []
zeros (suc n) = 0 ∷ zeros n

abbrev env_of : Crypto → Option Bytes → Option Bytes
env_of lib none = none
env_of lib (some name) = lib.getenv (c_string name)

abbrev bytes_of : Option Bytes → Bytes
bytes_of none = []
bytes_of (some s) = c_string s

-- The three updates of the hash, one behind the other.
unfoldable pub key_of : Crypto → KeyConfig → Bytes
key_of lib cfg = lib.sha256 (
    bytes_of (lib.getenv (codes "HTTP_USER_AGENT"))
    ++ (bytes_of (env_of lib cfg.cookies_env_var) ++ bytes_of cfg.encryption_key))

unfoldable pub generate_key : Crypto → KeyConfig → Run Bytes
unfolding key_of
generate_key lib cfg = do
  if is_set (env_of lib cfg.cookies_env_var) then pure tt else sp_log_warn "cookie_encryption"
  pure (key_of lib cfg)

-- `ZEND_HASH_APPLY_KEEP` with the value that stands in the zval behind the call, or
-- `ZEND_HASH_APPLY_REMOVE`.
pub data Apply : Type 0 where
  keep : Bytes → Apply
  remove : Apply

-- In simulation the value stays as it is.
abbrev as_is : Bool → Bytes → Run Apply
as_is true value = sp_log_simulation "cookie_encryption" >> pure (keep value)
as_is false value = sp_log_drop "cookie_encryption" >> pure remove

-- The length of the message, in a `size_t`.
abbrev message_len : ℕ → ℕ
message_len len = (len + 2 ^ 64 - nonce_bytes - 1 - zero_bytes) % 2 ^ 64

abbrev opened : Bool → Bytes → ℕ → Option Bytes → Run Apply
opened simulation value len (some decrypted) =
    pure (keep (take (message_len len) (drop zero_bytes decrypted)))
opened true value len none = sp_log_simulation "cookie_encryption" >> pure (keep value)
opened false value len none = sp_log_warn "cookie_encryption" >> pure remove

abbrev decrypt_data : Crypto → KeyConfig → Bool → Bytes → Option Bytes → Run Apply
unfolding generate_key
decrypt_data lib cfg simulation value none = sp_log_drop "cookie_encryption" >> pure remove
decrypt_data lib cfg simulation value (some data_) =
    if ltb (length data_) nonce_bytes
    then as_is simulation value
    else if ltb ((length data_ + zero_bytes) % 2 ^ 64) (length data_)
    then as_is simulation value
    else (do
      key ← generate_key lib cfg
      opened simulation value (length data_)
          (lib.secretbox_open (drop nonce_bytes data_) (take nonce_bytes data_) key))

unfoldable pub decrypt_zval : Crypto → KeyConfig → Bool → Bytes → Run Apply
unfolding decrypt_data
decrypt_zval lib cfg simulation value =
    decrypt_data lib cfg simulation value (lib.base64_decode value)

abbrev pub padded : Bytes → Bytes
padded s = zeros zero_bytes ++ (s ++ zeros 1)

abbrev boxed : Crypto → Bytes → Option Bytes → Run Bytes
boxed lib nonce none =
    sp_log_err lib.fatal_errors "cookie_encryption" >> pure (codes "<sp_encryption_error>")
boxed lib nonce (some encrypted) = pure (lib.base64_encode (nonce ++ encrypted))

-- `nonce` is what `php_random_bytes` gives.
unfoldable pub encrypt_zval : Crypto → KeyConfig → Bytes → Bytes → Run Bytes
unfolding generate_key zeros
encrypt_zval lib cfg nonce s = do
  key ← generate_key lib cfg
  boxed lib nonce (lib.secretbox (padded s) nonce key)

-- What the documentation of the libraries says.
pub record IsCrypto (lib : Crypto) : Type 0 where
  pub decodes : (s : Bytes) → lib.base64_decode (lib.base64_encode s) ≡ some s
  pub encodes : (c : ℕ) (s : Bytes) → lib.base64_encode (c ∷ s) ≢ []
  pub boxes : (m n k : Bytes) → zero_bytes ≤ length m → is_set (lib.secretbox m n k) ≡ true
  pub same_length : (m n k c : Bytes) → lib.secretbox m n k ≡ some c → length c ≡ length m
  pub opens :
      (s n k c : Bytes)
      → lib.secretbox (zeros zero_bytes ++ s) n k ≡ some c
      → lib.secretbox_open c n k ≡ some (zeros zero_bytes ++ s)
