-- ===== src/Ini.antt =====
-- src/sp_ini.c: protection of ini settings. The table of entries is an association list, a pointer to
-- an entry is the entry; `sp_regexp` and `strtol` are parameters.
pub mod Check
pub mod Hooks
use snuffleupagus.Base.{
  ℕ, Bool, true, false, not, ◌&&◌, ◌||◌, List, [], ◌∷◌, Option, none, some, Bytes, ℤ, ltb_ℤ, equals,
  is_set, leb, ◌==◌, if◌then◌else◌,
}
use snuffleupagus.Log.{Level, LogType, Run, ◌>>=◌, ◌>>◌, pure, log_msg, sp_log_warn}

pub data Permission : Type 0 where
  unset readonly readwrite : Permission

-- The compiled pattern is found from its text.
pub record SpRegexp : Type 0 where
  pub pattern : Bytes

-- An `on_modify` handler: ours, none, or another's by its address.
pub data Handler : Type 0 where
  null : Handler
  sp_ini_onmodify : Handler
  other : ℕ → Handler

pub record IniEntry : Type 0 where
  pub key : Bytes
  pub access : Permission
  pub min : Option Bytes
  pub max : Option Bytes
  pub regexp : Option SpRegexp
  pub msg : Option Bytes
  pub set : Option Bytes
  pub allow_null : Bool
  pub simulation : Bool
  pub drop : Bool
  pub orig_onmodify : Handler

pub record ConfigIni : Type 0 where
  pub enable : Bool
  pub simulation : Bool
  pub policy_readonly : Bool
  pub policy_silent_ro : Bool
  pub policy_silent_fail : Bool
  pub policy_drop : Bool
  pub entries : List (Bytes × IniEntry)

-- `zend_hash_find_ptr`.
unfoldable pub find {ℓ} : {V : Type ℓ} → Bytes → List (Bytes × V) → Option V
find key [] = none
find key ((k, v) ∷ ht) = if equals k key then some v else find key ht

abbrev pub has_checks : IniEntry → Bool
has_checks e = is_set e.min || is_set e.max || is_set e.regexp

abbrev pub is_readonly : Permission → Bool → Bool
is_readonly Permission.readonly policy = true
is_readonly Permission.unset policy = policy
is_readonly Permission.readwrite policy = false

-- SP_INI_ACCESS_READONLY_COND.
abbrev pub access_readonly : IniEntry → ConfigIni → Bool
access_readonly e cfg = is_readonly e.access cfg.policy_readonly

abbrev pub entry_simulation : Option IniEntry → Bool
entry_simulation none = false
entry_simulation (some e) = e.simulation

abbrev pub entry_drop : Option IniEntry → Bool
entry_drop none = false
entry_drop (some e) = e.drop

-- `cfg->simulation || (entry && entry->simulation)`.
abbrev pub simulates : ConfigIni → Option IniEntry → Bool
simulates cfg entry = cfg.simulation || entry_simulation entry

abbrev pub drops : ConfigIni → Option IniEntry → Bool
drops cfg entry = cfg.policy_drop || entry_drop entry

-- `sp_log_auto2`.
abbrev pub sp_log_auto2 : Bool → Bool → Run (Unit {0})
sp_log_auto2 is_simulation drop =
    log_msg "ini_protection" (if is_simulation || not drop then Level.warning else Level.error)
      (if is_simulation then LogType.simulation else if drop then LogType.drop else LogType.log)

-- `sp_log_ini_check_violation`.
unfoldable pub log_violation : ConfigIni → Option IniEntry → Run (Unit {0})
log_violation cfg entry =
    if simulates cfg entry || drops cfg entry || not cfg.policy_silent_fail
    then sp_log_auto2 (simulates cfg entry) (drops cfg entry)
    else pure tt

-- `NULL` or the empty string.
abbrev pub is_empty : Option Bytes → Bool
is_empty none = true
is_empty (some []) = true
is_empty (some (_ ∷ _)) = false

abbrev pub text_of : Option Bytes → Bytes
text_of none = []
text_of (some s) = s

-- `strtol` (`zend_atol` before PHP 8.2), and the regular expressions.
module _ (strtol : Bytes → ℤ) (matching : SpRegexp → Bytes → Bool) where
  abbrev pub below_min : Option Bytes → Bytes → Bool
  below_min none v = false
  below_min (some lo) v = ltb_ℤ (strtol v) (strtol lo)

  abbrev pub above_max : Option Bytes → Bytes → Bool
  above_max none v = false
  above_max (some hi) v = ltb_ℤ (strtol hi) (strtol v)

  abbrev pub mismatches : Option SpRegexp → Bytes → Bool
  mismatches none v = false
  mismatches (some r) v = not (matching r v)

  -- The checks of a value that is not empty.
  check_value : ConfigIni → IniEntry → Bytes → Run Bool
  unfolding log_violation
  check_value cfg e v =
      if (is_set e.min || is_set e.max) && (below_min e.min v || above_max e.max v)
      then (do log_violation cfg (some e); pure (simulates cfg (some e)))
      else if mismatches e.regexp v
      then (do log_violation cfg (some e); pure (simulates cfg (some e)))
      else pure true

  -- From the comment "we have an entry".
  check_entry : ConfigIni → IniEntry → Option Bytes → Run Bool
  unfolding check_value log_violation
  check_entry cfg e new_value =
      if access_readonly e cfg
      then (do
        if cfg.policy_silent_ro then pure tt else log_violation cfg (some e)
        pure (simulates cfg (some e)))
      else if is_empty new_value
      then (if e.allow_null
          then pure true
          else if has_checks e
          then (do log_violation cfg (some e); pure (simulates cfg (some e)))
          else pure true)
      else check_value cfg e (text_of new_value)

  -- The entry is the one that `sp_entry_p` gets.
  check_found : ConfigIni → Option IniEntry → Option Bytes → Run Bool
  unfolding check_entry log_violation
  check_found cfg none new_value =
      if cfg.policy_readonly
      then (do
        if cfg.policy_silent_ro then pure tt else log_violation cfg none
        pure (simulates cfg none))
      else pure true
  check_found cfg (some e) new_value = check_entry cfg e new_value

  unfoldable pub sp_ini_check : ConfigIni → Option Bytes → Option Bytes → Run Bool
  unfolding check_found find
  sp_ini_check cfg varname new_value =
      if is_empty varname
      then pure false
      else check_found cfg (find (text_of varname) cfg.entries) new_value
