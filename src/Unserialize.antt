-- ===== src/Unserialize.antt =====
-- src/sp_unserialize.c, from PHP 8.3: `serialize` appends an HMAC, and `unserialize` asks for it. The
-- hash is a parameter; the text of it is 64 characters if it is SHA-256.
pub mod Authentic
use snuffleupagus.Base.{
  ℕ, zero, suc, ◌+◌, ◌-◌, ◌%◌, ◌^◌, ◌≡◌, Bool, true, false, not, ◌&&◌, List, [], ◌∷◌, ◌++◌, Option,
  none, some, Bytes, codes, take, drop, length, ltb, ◌==◌, equals, is_set, if◌then◌else◌,
}
use snuffleupagus.Globals.{ConfigUnserialize, ConfigUnserializeNoclass}
use snuffleupagus.Hooks.{Hooked, hook_function}
use snuffleupagus.Log.{Run, ◌>>=◌, ◌>>◌, pure, sp_log_drop, sp_log_simulation, sp_log_err}

-- `php_hash_ops` of "sha256" with its block size, the hash of one text behind another, and the
-- text of a digest in hexadecimal digits.
pub record HashOps : Type 0 where
  pub is_crypto : Bool
  pub block_size : ℕ
  pub hash : Bytes → Bytes
  pub bin2hex : Bytes → Bytes

-- `php_hash_hmac_prep_key` and `php_hash_string_xor_char`: the key padded to the block and changed
-- by 0x36 for the inner round; then by 0x6A, which makes it 0x5C in all, for the outer round.
pub record HmacKeys : Type 0 where
  pub prep_key : HashOps → Bytes → Bytes
  pub xor_char : Bytes → ℕ → ℕ → Bytes

-- `php_hash_hmac_round`: the hash of the key followed by the text.
abbrev hmac_round : HashOps → Bytes → Bytes → Bytes
hmac_round ops k text = ops.hash (k ++ text)

abbrev hmac_of : HmacKeys → HashOps → Bytes → Bytes → Bytes
hmac_of keys ops text key =
    let k = keys.prep_key ops key in
    let inner = hmac_round ops k text in
    let k' = keys.xor_char k 0x6a ops.block_size in ops.bin2hex (hmac_round ops k' inner)

abbrev hmac_with : Bool → HmacKeys → Option HashOps → Bytes → Bytes → Run (Option Bytes)
hmac_with fatal_errors keys none text key = sp_log_err fatal_errors "hmac" >> pure none
hmac_with fatal_errors keys (some ops) text key =
    if not ops.is_crypto
    then sp_log_err fatal_errors "hmac" >> pure none
    else pure (some (hmac_of keys ops text key))

-- What the module takes of PHP: the operations of the hash, as `php_hash_fetch_ops` finds
-- them, and whether errors are fatal.
pub record Hmac : Type 0 where
  pub fatal_errors : Bool
  pub keys : HmacKeys
  pub ops : Option HashOps

unfoldable pub sp_do_hash_hmac_sha256 : Hmac → Bytes → Bytes → Run (Option Bytes)
sp_do_hash_hmac_sha256 lib text key = hmac_with lib.fatal_errors lib.keys lib.ops text key

pub record UnserializeConfig : Type 0 where
  pub unserialize : ConfigUnserialize
  pub unserialize_noclass : ConfigUnserializeNoclass
  pub encryption_key : Bytes

-- The text with the HMAC behind it; no HMAC is `zend_bailout`.
abbrev append_hmac : Bool → Bytes → Option Bytes → Run Bytes
append_hmac fatal_errors text none = ([], none)
append_hmac fatal_errors text (some hmac) =
    if ltb ((length text + length hmac) % 2 ^ 64) (length text)
    then (do sp_log_err fatal_errors "overflow_error"; ([], none))
    else pure (text ++ hmac)

-- `text` is what the function of PHP returns.
unfoldable pub sp_serialize : Hmac → UnserializeConfig → Bytes → Run Bytes
unfolding sp_do_hash_hmac_sha256
sp_serialize lib cfg text = if not cfg.unserialize.enable then pure text else (do
  hmac ← sp_do_hash_hmac_sha256 lib text cfg.encryption_key
  append_hmac lib.fatal_errors text hmac)

-- How `php_unserialize_with_options` is called: with the options of the call, or without classes.
pub data Options : Type 0 where
  given no_classes : Options

abbrev pub Call : Type 0
Call = Bytes × Options

-- The loop over the 64 characters: whether some differ. What is read behind an end is 0.
unfoldable pub differ : ℕ → Bytes → Bytes → Bool
differ zero a b = false
differ (suc n) (x ∷ a) (y ∷ b) = let rest = differ n a b in if x == y then rest else true
differ (suc n) [] (y ∷ b) = let rest = differ n [] b in if 0 == y then rest else true
differ (suc n) (x ∷ a) [] = let rest = differ n a [] in if x == 0 then rest else true
differ (suc n) [] [] = differ n [] []

abbrev status : Bytes → Option Bytes → Bool
status hmac none = true
status hmac (some expected) = differ 64 hmac expected

-- The texts behind the mismatch. (The dump of the request is left out.)
abbrev mismatch : ConfigUnserialize → Bytes → Run Call
mismatch cfg text =
    if cfg.simulation
    then sp_log_simulation "unserialize" >> pure (text, Options.given)
    else sp_log_drop "unserialize" >> pure (text, Options.given)

abbrev check_hmac : Hmac → UnserializeConfig → Bytes → Bytes → Run Call
unfolding sp_do_hash_hmac_sha256 differ
check_hmac lib cfg text hmac = do
  expected ← sp_do_hash_hmac_sha256 lib text cfg.encryption_key
  if status hmac expected then mismatch cfg.unserialize text else pure (text, Options.given)

-- The call of PHP's function that is made.
unfoldable pub sp_unserialize : Hmac → UnserializeConfig → Bytes → Run Call
unfolding check_hmac
sp_unserialize lib cfg buf =
    if cfg.unserialize_noclass.enable
    then pure (buf, Options.no_classes)
    else if ltb (length buf) 64
    then (if cfg.unserialize.simulation
        then sp_log_simulation "unserialize" >> pure (buf, Options.given)
        else sp_log_drop "unserialize" >> pure (buf, Options.given))
    else check_hmac lib cfg (take (length buf - 64) buf) (drop (length buf - 64) buf)

unfoldable pub hook_serialize : Bool → ℕ → ℕ → Hooked → Hooked
unfolding hook_function
hook_serialize multibyte serialize unserialize s =
    (hook_function multibyte (codes "unserialize") unserialize
      (hook_function multibyte (codes "serialize") serialize s).0).0
