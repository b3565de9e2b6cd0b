-- ===== src/Ini/Hooks.antt =====
-- src/sp_ini.c: `sp_ini_onmodify`, and the setting and removal of it as the handler of ini settings. The
-- warnings of `sp_hook_ini` are left out.
pub mod Restored
use snuffleupagus.Base.{
  ℕ, Bool, true, false, not, ◌&&◌, ◌||◌, List, [], ◌∷◌, Option, none, some, Bytes, ℤ, if◌then◌else◌,
}
use snuffleupagus.HashTable.{put}
use snuffleupagus.Ini.{
  Handler, IniEntry, ConfigIni, SpRegexp, find, has_checks, access_readonly, text_of, sp_ini_check,
}
use snuffleupagus.Log.{Run, ◌>>=◌, pure}

-- `zend_ini_entry`, by the name of its setting.
pub record ZendIniEntry : Type 0 where
  pub on_modify : Handler
  pub value : Option Bytes

-- `EG(ini_directives)`, and the entries of a configuration.
abbrev pub Directives : Type 0
Directives = List (Bytes × ZendIniEntry)

abbrev pub Entries : Type 0
Entries = List (Bytes × IniEntry)

-- `accepts` says whether the handler of a setting takes a value: one of PHP's by its address, or
-- `sp_ini_onmodify`, which is called here only where the hooks are set twice.
module _ (accepts : Handler → Bytes → Option Bytes → Bool) where
  abbrev orig_accepts : Handler → Bytes → Option Bytes → Bool
  orig_accepts Handler.null name v = true
  orig_accepts h name v = accepts h name v

  abbrev modified : Option IniEntry → Bytes → Option Bytes → Bool → Bool
  modified entry name v false = false
  modified none name v true = true
  modified (some e) name v true = orig_accepts e.orig_onmodify name v

  -- The result is SUCCESS.
  unfoldable pub sp_ini_onmodify :
      (Bytes → ℤ) → (SpRegexp → Bytes → Bool) → ConfigIni → Bytes → Option Bytes → Run Bool
  unfolding sp_ini_check find
  sp_ini_onmodify strtol matching cfg name new_value = do
    checked ← sp_ini_check strtol matching cfg (some name) new_value
    pure (modified (find name cfg.entries) name new_value checked)

  -- The check that decides whether a setting gets the handler.
  abbrev pub needs_hook : ConfigIni → IniEntry → Bool
  needs_hook cfg e = has_checks e || access_readonly e cfg

  abbrev pub saves : ConfigIni → IniEntry → ZendIniEntry → IniEntry
  saves cfg e d = if needs_hook cfg e then record e { orig_onmodify = d.on_modify } else e

  abbrev pub with_handler : ConfigIni → IniEntry → ZendIniEntry → ZendIniEntry
  with_handler cfg e d =
      if needs_hook cfg e then record d { on_modify = Handler.sp_ini_onmodify } else d

  -- `orig` is the handler before; a value that it refuses is not set.
  abbrev pub with_value : Option Bytes → Handler → Bytes → ZendIniEntry → ZendIniEntry
  with_value none orig key d = d
  with_value (some v) orig key d =
      if orig_accepts orig key (some v) then record d { value = some v } else d

  abbrev pub hook_found :
      ConfigIni → IniEntry → Directives → Option ZendIniEntry → IniEntry × Directives
  unfolding put
  hook_found cfg e directives none = (e, directives)
  hook_found cfg e directives (some d) = (
    saves cfg e d,
    put e.key (with_value e.set d.on_modify e.key (with_handler cfg e d)) directives,
  )

  -- The loop; the entries change in their place.
  unfoldable pub hook_entries : ConfigIni → Entries → Directives → Entries × Directives
  unfolding hook_found find
  hook_entries cfg [] directives = ([], directives)
  hook_entries cfg ((k, e) ∷ entries) directives =
      let (e', directives') = hook_found cfg e directives (find e.key directives) in
      let (entries', directives'') = hook_entries cfg entries directives' in
      ((k, e') ∷ entries', directives'')

  unfoldable pub sp_hook_ini : ConfigIni → Directives → ConfigIni × Directives
  unfolding hook_entries
  sp_hook_ini cfg directives =
      let (entries, directives') = hook_entries cfg cfg.entries directives in
      (record cfg { entries = entries }, directives')

abbrev pub is_ours : Handler → Bool
is_ours Handler.sp_ini_onmodify = true
is_ours _ = false

abbrev pub unhooked : IniEntry → ZendIniEntry → ZendIniEntry
unhooked e d = if is_ours d.on_modify then record d { on_modify = e.orig_onmodify } else d

-- An entry whose setting is missing keeps its handler.
abbrev pub unhook_found : IniEntry → Directives → Option ZendIniEntry → IniEntry × Directives
unfolding put
unhook_found e directives none = (e, directives)
unhook_found e directives (some d) =
    (record e { orig_onmodify = Handler.null }, put e.key (unhooked e d) directives)

unfoldable pub unhook_entries : Entries → Directives → Entries × Directives
unfolding unhook_found find
unhook_entries [] directives = ([], directives)
unhook_entries ((k, e) ∷ entries) directives =
    let (e', directives') = unhook_found e directives (find e.key directives) in
    let (entries', directives'') = unhook_entries entries directives' in
    ((k, e') ∷ entries', directives'')

unfoldable pub sp_unhook_ini : ConfigIni × Directives → ConfigIni × Directives
unfolding unhook_entries
sp_unhook_ini (cfg, directives) =
    let (entries, directives') = unhook_entries cfg.entries directives in
    (record cfg { entries = entries }, directives')
