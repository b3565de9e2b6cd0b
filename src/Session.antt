-- ===== src/Session.antt =====
-- src/sp_session.c: the length of session ids, the encryption of what a session stores, and the hook
-- on the module that stores it. The functions of that module are parameters.
pub mod Module
pub mod Stored
use snuffleupagus.Base.{
  ℕ, ◌≡◌, ◌≤◌, Bool, true, false, ◌&&◌, not, List, [], ◌∷◌, Option, none, some, Bytes, length, ltb,
  ◌==◌, if◌then◌else◌, arith, ◌⊎◌, ◌↔◌,
}
use snuffleupagus.Crypt.{Crypto, KeyConfig, Apply, keep, remove, decrypt_zval, encrypt_zval}
use snuffleupagus.Globals.{ConfigSession}
use snuffleupagus.Log.{Run, ◌>>=◌, ◌>>◌, pure, sp_log_auto}

abbrev too_short : ConfigSession → ℕ → Bool
too_short cfg len = ltb 0 cfg.sid_min_length && ltb len cfg.sid_min_length

abbrev too_long : ConfigSession → ℕ → Bool
too_long cfg len = ltb 0 cfg.sid_max_length && ltb cfg.sid_max_length len

unfoldable pub check_sid_length : ConfigSession → Option Bytes → Run (Unit {0})
check_sid_length cfg none = pure tt
check_sid_length cfg (some sid) = do
  if too_short cfg (length sid) then sp_log_auto "session" cfg.simulation else pure tt
  if too_long cfg (length sid) then sp_log_auto "session" cfg.simulation else pure tt

-- Within the bounds of the configuration; 0 is no bound.
abbrev pub IsWithin : ConfigSession → ℕ → Type 0
IsWithin cfg len =
    ((cfg.sid_min_length ≡ 0) ⊎ (cfg.sid_min_length ≤ len))
    × ((cfg.sid_max_length ≡ 0) ⊎ (len ≤ cfg.sid_max_length))

-- In enforcement the check returns exactly if the length of the id is within the bounds, and then
-- without a message; with no id it returns.
pub check_sid_length-IsWithin :
    (cfg : ConfigSession) (sid : Bytes)
    → cfg.simulation ≡ false
    → (check_sid_length cfg (some sid) ≡ pure tt) ↔ IsWithin cfg (length sid)
unfolding check_sid_length
check_sid_length-IsWithin cfg sid h = ground arith

-- `s_read` and `s_write` of the module that stores sessions: what `S` holds, an id, and the value.
-- The Boolean is SUCCESS; the value that is read may be NULL.
pub record PsModule (S : Type 0) : Type 0 where
  pub s_read : S → Bytes → Bool × Option Bytes
  pub s_write : S → Bytes → Bytes → S × Bool

-- A value of a zval that is removed ends the request.
abbrev kept : Apply → Run Bytes
kept (keep v) = pure v
kept remove = ([], none)

abbrev read_value :
    Crypto → KeyConfig → ConfigSession → Bool × Option Bytes → Run (Bool × Option Bytes)
unfolding decrypt_zval
read_value lib key cfg (r, none) = pure (r, none)
read_value lib key cfg (r, some []) = pure (r, some [])
read_value lib key cfg (r, some (c ∷ s)) =
    if r && cfg.encrypt
    then (do ret ← decrypt_zval lib key cfg.simulation (c ∷ s); v ← kept ret; pure (r, some v))
    else pure (r, some (c ∷ s))

abbrev write_value : Crypto → KeyConfig → ConfigSession → Bytes → Bytes → Run Bytes
unfolding encrypt_zval
write_value lib key cfg nonce [] = pure []
write_value lib key cfg nonce (c ∷ val) =
    if cfg.encrypt then encrypt_zval lib key nonce (c ∷ val) else pure (c ∷ val)

module _ {S : Type 0} (old : PsModule S) (lib : Crypto) (key : KeyConfig)
    (cfg : ConfigSession) where
  unfoldable pub sp_hook_s_read : S → Bytes → Run (Bool × Option Bytes)
  unfolding check_sid_length read_value
  sp_hook_s_read store sid =
      check_sid_length cfg (some sid) >> read_value lib key cfg (old.s_read store sid)

  -- `nonce` is what the encryption takes from `php_random_bytes`.
  unfoldable pub sp_hook_s_write : Bytes → S → Bytes → Bytes → Run (S × Bool)
  unfolding check_sid_length write_value
  sp_hook_s_write nonce store sid val = do
    check_sid_length cfg (some sid)
    new_val ← write_value lib key cfg nonce val
    pure (old.s_write store sid new_val)
