-- ===== src/Tests/Rules.antt =====
-- The rules of the configuration.
use snuffleupagus.Base.{
  ◌≡◌, refl, ◌↔◌, Bool, true, false, List, [], ◌∷◌, none, some, Bytes, codes, equals, ℤ, pos,
  length,
}
use snuffleupagus.Config.{
  SpParsedKeyword, sp_process_rule, sp_get_arg_string, find_handler, unescape, after, parse_str,
  parse_empty,
}
use snuffleupagus.Ini.{SpRegexp, ConfigIni, IniEntry, Permission, Handler, sp_ini_check, find}
use snuffleupagus.Ini.Check.{allowed, sp_ini_check-enforces}
use snuffleupagus.Keywords.Functions.{parse_disabled_functions}
use snuffleupagus.Keywords.Functions.Stored.{IsIndexed, parse_disabled_functions-IsIndexed}
use snuffleupagus.Keywords.Global.{parse_global}
use snuffleupagus.Keywords.Global.Keys.{IsStrong, parse_global-IsStrong}
use snuffleupagus.Keywords.Enable.{parse_enable}
use snuffleupagus.Keywords.Root.{sp_process_config_root}
use snuffleupagus.Keywords.Root.Sound.{sp_process_config_root-IsSound}
use snuffleupagus.Keywords.Root.Sound.Handlers.{IsSound}
use snuffleupagus.Tests.Samples.{libs, start, tree_of, with_text, plain}

start-IsIndexed : IsIndexed start
start-IsIndexed = record { calls = tt; returns = tt; call_patterns = tt; return_patterns = tt }

abbrev function_rule : List SpParsedKeyword
function_rule = with_text (codes "function") (codes "main>system") ∷ plain (codes "drop") ∷ []

parse_disabled_functions-IsIndexed_example :
    IsIndexed
      (parse_disabled_functions tree_of libs
        (plain (codes "disable_function"))
        function_rule
        start).1
parse_disabled_functions-IsIndexed_example =
    parse_disabled_functions-IsIndexed tree_of libs (plain (codes "disable_function")) function_rule
      start start-IsIndexed

sp_process_config_root-IsSound_example :
    IsSound
      (sp_process_config_root tree_of libs
        (plain (codes "disable_function") ∷ function_rule)
        start).1
sp_process_config_root-IsSound_example =
    sp_process_config_root-IsSound tree_of libs (plain (codes "disable_function") ∷ function_rule)
      start ((tt, (tt, (tt, tt))), (tt, tt))

abbrev cookie_rule : List SpParsedKeyword
cookie_rule =
    with_text (codes "name") (codes "id") ∷ with_text (codes "samesite") (codes "lax") ∷ []

abbrev entry_rule : List SpParsedKeyword
entry_rule = with_text (codes "key") (codes "memory_limit") ∷ plain (codes "ro") ∷ []

abbrev key : Bytes
key = codes "a long secret"

abbrev key_rule : List SpParsedKeyword
key_rule = with_text (codes "secret_key") key ∷ []

parse_global-IsStrong_example : IsStrong key
unfolding parse_global sp_process_rule find_handler after equals unescape sp_get_arg_string
    parse_str
parse_global-IsStrong_example =
    parse_global-IsStrong libs (plain (codes "global")) key_rule start
      (record start { encryption_key = some key }) key refl refl

abbrev log_rule : SpParsedKeyword
log_rule = with_text (codes "log_media") (codes "syslog")

-- One setting with an upper bound, in enforcement or in simulation.
abbrev limit : Bool → IniEntry
limit simulation = record {
  key = codes "limit";
  access = Permission.unset;
  min = none;
  max = some (codes "12345");
  regexp = none;
  msg = none;
  set = none;
  allow_null = false;
  simulation = simulation;
  drop = false;
  orig_onmodify = Handler.null;
}

abbrev limited : Bool → ConfigIni
limited simulation = record {
  enable = true;
  simulation = false;
  policy_readonly = false;
  policy_silent_ro = false;
  policy_silent_fail = false;
  policy_drop = false;
  entries = (codes "limit", limit simulation) ∷ [];
}

abbrev by_length : Bytes → ℤ
by_length s = pos (length s)

abbrev same_text : SpRegexp → Bytes → Bool
same_text rx s = equals rx.pattern s

sp_ini_check-enforces_example :
    ((sp_ini_check by_length same_text
        (limited false)
        (some (codes "limit"))
        (some (codes "123456"))).1
      ≡ some true)
    ↔ (allowed by_length same_text
          (limited false)
          (find (codes "limit") (limited false).entries)
          (some (codes "123456"))
        ≡ true)
unfolding find equals
sp_ini_check-enforces_example =
    sp_ini_check-enforces by_length same_text (limited false) b'l' (codes "imit")
      (some (codes "123456")) refl

-- A rule of the whole configuration.
random :
    (sp_process_config_root tree_of libs
      (plain (codes "harden_random") ∷ plain (codes "enable") ∷ [])
      start).1.random_enable
    ≡ true
unfolding sp_process_config_root sp_process_rule equals parse_enable parse_empty
random = refl
