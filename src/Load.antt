-- ===== src/Load.antt =====
-- The load of a configuration: `sp_load_config`, `sp_config_failed` and `sp_free_config` of
-- src/snuffleupagus.c with `sp_parse_config` of src/sp_config.c. The state is the configuration and
-- the hooks on functions; the other hooks and the messages of the parsing are left out. What `glob`
-- and the reading of a file give is a parameter.
pub mod Reload
use snuffleupagus.Base.{
  ℕ, Bool, true, false, ◌&&◌, ◌||◌, List, [], ◌∷◌, ◌++◌, Option, none, some, ℤ, Bytes, ltb, ◌==◌,
  if◌then◌else◌,
}
use snuffleupagus.Config.{ZendResult}
use snuffleupagus.Globals.{SpGlobals, Libs, DisabledTable}
use snuffleupagus.Hooks.{Functions}
use snuffleupagus.Hooks.Features.{Addresses, Php, HookTables, hook_all, unhook_all}
use snuffleupagus.Keywords.Root.{sp_process_config_root}
use snuffleupagus.Log.{MediaType}
use snuffleupagus.Scanner.{Outcome, sp_config_scan}
use snuffleupagus.SpTree.{SpTree}

-- Every option at its default; the tables are emptied.
unfoldable pub sp_free_config : SpGlobals → SpGlobals
sp_free_config g = record g {
  random_enable = false;
  sloppy_enable = false;
  unserialize = record {
    enable = false;
    simulation = false;
    dump = none;
    textual_representation = none;
  };
  unserialize_noclass = record { enable = false; textual_representation = none };
  readonly_exec = record {
    enable = false;
    simulation = false;
    extended_checks = false;
    dump = none;
    textual_representation = none;
  };
  upload_validation = record { script = none; simulation = false; enable = false };
  cookies = [];
  auto_cookie_secure_enable = false;
  global_strict_enable = false;
  xxe_protection_enable = false;
  eval = record {
    blacklist = [];
    whitelist = [];
    simulation = false;
    dump = none;
    textual_representation = none;
  };
  wrapper = record { whitelist = []; php_stream_allowlist = []; enabled = false; num_wrapper = 0 };
  session = record { encrypt = false; simulation = false; sid_min_length = 0; sid_max_length = 0 };
  ini = record {
    enable = false;
    simulation = false;
    policy_readonly = false;
    policy_silent_ro = false;
    policy_silent_fail = false;
    policy_drop = false;
    entries = [];
  };
  log_media = record { type = MediaType.log_zend; path = none };
  log_max_len = 255;
  max_execution_depth = 0;
  server_encode = false;
  server_strip = false;
  encryption_key = none;
  cookies_env_var = none;
  disabled_functions = [];
  disabled_functions_ret = [];
  disabled_functions_reg = [];
  disabled_functions_reg_ret = [];
}

-- SP_CONFIG_NONE, SP_CONFIG_VALID and SP_CONFIG_INVALID.
pub data Validity : Type 0 where
  none_loaded valid invalid : Validity

-- The configuration, the hooks on functions, and `SPG(hook_execute)`.
pub record Extension : Type 0 where
  pub globals : SpGlobals
  pub is_config_valid : Validity
  pub tables : HookTables
  pub hook_execute : Bool

-- `glob` of a pattern, where `none` is a failure; the bytes of a file, with `none` for one that cannot
-- be opened, and what stands in memory behind them and their NUL; what a read behind that leads to;
-- `atoi`, whether PHP has an extension, and PHP_VERSION_ID in digits; and whether the configuration is
-- dumped instead of being put in force.
pub record Files : Type 0 where
  pub glob : Bytes → Option (List Bytes)
  pub read : Bytes → Option Bytes
  pub behind : Bytes
  pub overrun : SpGlobals → Bool × SpGlobals
  pub atoi : Bytes → ℤ
  pub extension_loaded : Bytes → Bool
  pub version : Bytes
  pub dumps : Bool

-- The parts between commas, as `strsep` gives them: the first part, and the others.
abbrev push_char : ℕ → List Bytes → List Bytes
push_char c [] = (c ∷ []) ∷ []
push_char c (part ∷ parts) = (c ∷ part) ∷ parts

unfoldable pub split_commas : Bytes → List Bytes
split_commas [] = [] ∷ []
split_commas (c ∷ s) =
    let rest = split_commas s in if c == b',' then [] ∷ rest else push_char c rest

-- `sp_parse_var`, the libraries, the files, PHP and the addresses of the extension's functions.
module _ (parse_var : Bytes → SpTree) (libs : Libs) (files : Files) (php : Php)
    (at : Addresses) where
  -- The memory that the scanner reads: the text of the file, its NUL, and what stands behind.
  abbrev of_outcome : SpGlobals → Outcome SpGlobals → Bool × SpGlobals
  of_outcome g (Outcome.returned ZendResult.succeeded g') = (true, g')
  of_outcome g (Outcome.returned ZendResult.failed g') = (false, g')
  of_outcome g Outcome.overrun = files.overrun g
  of_outcome g Outcome.out_of_fuel = (false, g)

  abbrev parse_text : Option Bytes → SpGlobals → Bool × SpGlobals
  unfolding sp_config_scan sp_process_config_root
  parse_text none g = (false, g)
  parse_text (some text) g = of_outcome g (
      sp_config_scan files.atoi files.extension_loaded (sp_process_config_root parse_var libs)
        files.version (text ++ 0 ∷ files.behind) g)

  unfoldable pub sp_parse_config : Bytes → SpGlobals → Bool × SpGlobals
  unfolding parse_text
  sp_parse_config filename g = parse_text (files.read filename) g

  abbrev and_then : (SpGlobals → Bool × SpGlobals) → Bool × SpGlobals → Bool × SpGlobals
  and_then rest (true, g) = rest g
  and_then rest (false, g) = (false, g)

  -- The loop over the files of a pattern, and the loop over the patterns.
  unfoldable pub parse_all : List Bytes → SpGlobals → Bool × SpGlobals
  unfolding sp_parse_config
  parse_all [] g = (true, g)
  parse_all (filename ∷ names) g = and_then (parse_all names) (sp_parse_config filename g)

  abbrev parse_globbed : Option (List Bytes) → SpGlobals → Bool × SpGlobals
  unfolding parse_all
  parse_globbed none g = (false, g)
  parse_globbed (some names) g = parse_all names g

  unfoldable pub parse_patterns : List Bytes → SpGlobals → Bool × SpGlobals
  unfolding parse_globbed
  parse_patterns [] g = (true, g)
  parse_patterns (config_file ∷ rest) g =
      and_then (parse_patterns rest) (parse_globbed (files.glob config_file) g)

  -- The hook tables with nothing in them, and the rules of the configuration to be hooked.
  abbrev empty_tables : Functions → SpGlobals → HookTables
  empty_tables functions g = record {
    functions = functions;
    internal = [];
    disabled = [];
    eval = [];
    messages = [];
    to_hook = g.disabled_functions;
    hooked = [];
    ret_to_hook = g.disabled_functions_ret;
    ret_hooked = [];
  }

  unfoldable pub sp_config_failed : Functions → SpGlobals → Extension
  unfolding sp_free_config
  sp_config_failed functions g = record {
    globals = sp_free_config g;
    is_config_valid = Validity.invalid;
    tables = empty_tables functions (sp_free_config g);
    hook_execute = false;
  }

  abbrev is_filled : DisabledTable → Bool
  is_filled [] = false
  is_filled (_ ∷ _) = true

  abbrev is_listed {ℓ} : {A : Type ℓ} → List A → Bool
  is_listed [] = false
  is_listed (_ ∷ _) = true

  abbrev executes : SpGlobals → Bool
  executes g =
      ltb 0 g.max_execution_depth
      || is_listed g.disabled_functions_reg
      || is_listed g.disabled_functions_reg_ret
      || is_filled g.disabled_functions
      || is_filled g.disabled_functions_ret

  -- From the comment "start hooks"; the rules that are hooked leave the tables of the configuration.
  abbrev put_in_force : Functions → SpGlobals → Extension
  unfolding hook_all
  put_in_force functions g =
      let tables = hook_all php at g (empty_tables functions g) in
      let g' = record g {
        disabled_functions = tables.to_hook;
        disabled_functions_ret = tables.ret_to_hook;
      } in
      record {
        globals = g';
        is_config_valid = Validity.valid;
        tables = tables;
        hook_execute = executes g';
      }

  abbrev loaded : Functions → Bool × SpGlobals → Extension
  unfolding sp_config_failed put_in_force
  loaded functions (false, g) = sp_config_failed functions g
  loaded functions (true, g) =
      if files.dumps
      then record {
        globals = g;
        is_config_valid = Validity.valid;
        tables = empty_tables functions g;
        hook_execute = false;
      }
      else put_in_force functions g

  -- With the functions and the configuration of which nothing is left.
  abbrev load_from : Bytes → Functions → SpGlobals → Extension
  unfolding loaded parse_patterns split_commas
  load_from value functions g = loaded functions (
      parse_patterns (split_commas value)
        (record g { readonly_exec = record g.readonly_exec { extended_checks = true } }))

  abbrev load_over : Bytes → Extension → Validity → Extension
  unfolding load_from unhook_all sp_free_config
  load_over value e Validity.none_loaded = load_from value e.tables.functions e.globals
  load_over value e _ = load_from value (unhook_all e.tables) (sp_free_config e.globals)

  unfoldable pub sp_load_config : Bytes → Extension → Extension
  unfolding load_over
  sp_load_config value e = load_over value e e.is_config_valid
