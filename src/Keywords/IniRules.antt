-- ===== src/Keywords/IniRules.antt =====
-- `parse_ini_protection` and `parse_ini_entry`.
pub mod Distinct
use snuffleupagus.Base.{
  Bool, true, false, ◌&&◌, ◌||◌, List, [], ◌∷◌, ◌++◌, Option, none, some, is_set, if◌then◌else◌,
  Bytes, codes,
}
use snuffleupagus.Config.{
  Status, ZendResult, Handler, Table, sp_process_rule, parse_empty, parse_str, parse_regexp,
}
use snuffleupagus.Globals.{SpGlobals, Libs}
use snuffleupagus.Ini.{ConfigIni, Handler as IniHandler, IniEntry, Permission, find}
use snuffleupagus.Keywords.Enable.{
  Rule, new_rule, processed, set_enable_disable, leave, enable_keywords,
}

-- `ro` and `rw`, with what the rule fills.
pub record Access (C : Type 0) : Type 0 where
  pub ro : Bool
  pub rw : Bool
  pub cfg : C

abbrev pub new_access : {C : Type 0} → C → Access C
new_access cfg = record { ro = false; rw = false; cfg = cfg }

abbrev on_ini : (ConfigIni → ConfigIni) → Access (Rule ConfigIni) → Access (Rule ConfigIni)
on_ini f a = record a { cfg = record (a.cfg) { cfg = f a.cfg.cfg } }

abbrev pub ini_keywords : Table (Access (Rule ConfigIni))
ini_keywords =
    (codes "enable", parse_empty (λ a. record a { cfg = record (a.cfg) { enable = true } }))
    ∷ (codes "disable", parse_empty (λ a. record a { cfg = record (a.cfg) { disable = true } }))
    ∷ (codes "simulation", parse_empty (on_ini (λ c. record c { simulation = true })))
    ∷ (codes "sim", parse_empty (on_ini (λ c. record c { simulation = true })))
    ∷ (codes "policy_readonly", parse_empty (λ a. record a { ro = true }))
    ∷ (codes "policy_ro", parse_empty (λ a. record a { ro = true }))
    ∷ (codes "policy_readwrite", parse_empty (λ a. record a { rw = true }))
    ∷ (codes "policy_rw", parse_empty (λ a. record a { rw = true }))
    ∷ (codes "policy_silent_ro", parse_empty (on_ini (λ c. record c { policy_silent_ro = true })))
    ∷ (
      codes "policy_silent_fail",
      parse_empty (on_ini (λ c. record c { policy_silent_fail = true })),
    )
    ∷ (codes "policy_no_log", parse_empty (on_ini (λ c. record c { policy_silent_fail = true })))
    ∷ (codes "policy_drop", parse_empty (on_ini (λ c. record c { policy_drop = true })))
    ∷ []

-- The checks behind SP_SET_ENABLE_DISABLE. The policy is written between the two.
abbrev pub check_policy : Access (Rule ConfigIni) → Status × Access (Rule ConfigIni)
check_policy a = if a.ro && a.rw then (Status.error, a) else (
  if a.cfg.cfg.policy_silent_fail && a.cfg.cfg.policy_drop then Status.error else Status.stop,
  on_ini (λ c. record c { policy_readonly = a.ro }) a,
)

unfoldable pub parse_ini_protection : Handler SpGlobals
unfolding processed set_enable_disable
parse_ini_protection k rule s =
    leave (λ a. record s { ini = a.cfg.cfg })
      (processed (sp_process_rule ini_keywords rule (new_access (new_rule s.ini))) (λ a.
        set_enable_disable a.cfg.enable a.cfg.disable (λ b. on_ini (λ c. record c { enable = b })) a
          check_policy))

-- The entry being built, whose key may still be missing.
pub record EntryRule : Type 0 where
  pub key : Option Bytes
  pub entry : IniEntry

abbrev pub new_entry : EntryRule
new_entry = record {
  key = none;
  entry = record {
    key = [];
    access = Permission.unset;
    min = none;
    max = none;
    regexp = none;
    msg = none;
    set = none;
    allow_null = false;
    simulation = false;
    drop = false;
    orig_onmodify = IniHandler.null;
  };
}

abbrev on_entry : (IniEntry → IniEntry) → Access EntryRule → Access EntryRule
on_entry f a = record a { cfg = record (a.cfg) { entry = f a.cfg.entry } }

abbrev pub entry_keywords : Libs → Table (Access EntryRule)
entry_keywords libs =
    (codes "simulation", parse_empty (on_entry (λ e. record e { simulation = true })))
    ∷ (codes "sim", parse_empty (on_entry (λ e. record e { simulation = true })))
    ∷ (
      codes "key",
      parse_str (λ a. a.cfg.key) (λ v a. record a { cfg = record (a.cfg) { key = v } }),
    )
    ∷ (codes "msg", parse_str (λ a. a.cfg.entry.msg) (λ v. on_entry (λ e. record e { msg = v })))
    ∷ (codes "set", parse_str (λ a. a.cfg.entry.set) (λ v. on_entry (λ e. record e { set = v })))
    ∷ (codes "min", parse_str (λ a. a.cfg.entry.min) (λ v. on_entry (λ e. record e { min = v })))
    ∷ (codes "max", parse_str (λ a. a.cfg.entry.max) (λ v. on_entry (λ e. record e { max = v })))
    ∷ (
      codes "regexp",
      parse_regexp libs.compiles (λ a. a.cfg.entry.regexp)
          (λ v. on_entry (λ e. record e { regexp = v })),
    )
    ∷ (codes "readonly", parse_empty (λ a. record a { ro = true }))
    ∷ (codes "ro", parse_empty (λ a. record a { ro = true }))
    ∷ (codes "readwrite", parse_empty (λ a. record a { rw = true }))
    ∷ (codes "rw", parse_empty (λ a. record a { rw = true }))
    ∷ (codes "drop", parse_empty (on_entry (λ e. record e { drop = true })))
    ∷ (codes "allow_null", parse_empty (on_entry (λ e. record e { allow_null = true })))
    ∷ []

-- `ro - rw`.
abbrev pub access_of : Bool → Bool → Permission
access_of true false = Permission.readonly
access_of false true = Permission.readwrite
access_of _ _ = Permission.unset

-- The checks behind the keywords, and the insertion; `none` is an error.
unfoldable pub add_entry : Option Bytes → Access EntryRule → ConfigIni → Option ConfigIni
unfolding find
add_entry none a ini = none
add_entry (some key) a ini =
    if is_set (find key ini.entries) || a.ro && a.rw
    then none
    else some (record ini {
      entries =
          ini.entries
          ++ (key, record (a.cfg.entry) { key = key; access = access_of a.ro a.rw }) ∷ [];
    })

abbrev pub with_ini : Option ConfigIni → SpGlobals → Status × SpGlobals
with_ini none s = (Status.error, s)
with_ini (some ini) s = (Status.stop, record s { ini = ini })

unfoldable pub finish_entry : Access EntryRule → SpGlobals → Status × SpGlobals
unfolding add_entry
finish_entry a s = with_ini (add_entry a.cfg.key a s.ini) s

unfoldable pub read_entry : ZendResult × Access EntryRule → SpGlobals → Status × SpGlobals
unfolding finish_entry
read_entry (ZendResult.failed, a) s = (Status.error, s)
read_entry (ZendResult.succeeded, a) s = finish_entry a s

unfoldable pub parse_ini_entry : Libs → Handler SpGlobals
unfolding read_entry
parse_ini_entry libs k rule s =
    read_entry (sp_process_rule (entry_keywords libs) rule (new_access new_entry)) s
