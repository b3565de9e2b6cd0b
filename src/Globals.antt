-- ===== src/Globals.antt =====
-- The configuration of the extension, `SPCFG(…)`: src/php_snuffleupagus.h and src/sp_config.h. A hash
-- table is an association list in the order of insertion, `NULL` is none or the empty list, and
-- `SPCFG(disabled_functions_reg).disabled_functions` is `disabled_functions_reg`.
use snuffleupagus.Base.{ℕ, Bool, false, List, [], Option, none, ℤ, negsuc, Bytes}
use snuffleupagus.Ini.{SpRegexp, ConfigIni}
use snuffleupagus.Log.{LogMedia}
use snuffleupagus.Network.{Inet, SpCidr}
use snuffleupagus.SpTree.{SpTree, null}
use snuffleupagus.Zval.{SpPhpType}

pub record ConfigReadonlyExec : Type 0 where
  pub enable : Bool
  pub simulation : Bool
  pub extended_checks : Bool
  pub dump : Option Bytes
  pub textual_representation : Option Bytes

pub record ConfigUnserialize : Type 0 where
  pub enable : Bool
  pub simulation : Bool
  pub dump : Option Bytes
  pub textual_representation : Option Bytes

pub record ConfigUnserializeNoclass : Type 0 where
  pub enable : Bool
  pub textual_representation : Option Bytes

pub record ConfigSession : Type 0 where
  pub encrypt : Bool
  pub simulation : Bool
  pub sid_min_length : ℕ
  pub sid_max_length : ℕ

pub record ConfigEval : Type 0 where
  pub blacklist : List Bytes
  pub whitelist : List Bytes
  pub simulation : Bool
  pub dump : Option Bytes
  pub textual_representation : Option Bytes

pub record ConfigWrapper : Type 0 where
  pub whitelist : List Bytes
  pub php_stream_allowlist : List Bytes
  pub enabled : Bool
  pub num_wrapper : ℕ

pub record ConfigUploadValidation : Type 0 where
  pub script : Option Bytes
  pub simulation : Bool
  pub enable : Bool

pub data SameSite : Type 0 where
  strict lax : SameSite

pub record SpCookie : Type 0 where
  pub samesite : Option SameSite
  pub encrypt : Bool
  pub name : Option Bytes
  pub name_r : Option SpRegexp
  pub simulation : Bool

-- A rule of `sp.disable_function`. (`param_is_array` and `var_is_array` are never set.)
pub record SpDisabledFunction : Type 0 where
  pub textual_representation : Option Bytes
  pub filename : Option Bytes
  pub r_filename : Option SpRegexp
  pub function : Option Bytes
  pub r_function : Option SpRegexp
  pub functions_list : List Bytes
  pub hash : Option Bytes
  pub simulation : Bool
  pub param : SpTree
  pub r_param : Option SpRegexp
  pub param_type : SpPhpType
  pub position : ℤ
  pub line : ℕ
  pub r_ret : Option SpRegexp
  pub ret : Option Bytes
  pub ret_type : SpPhpType
  pub r_value : Option SpRegexp
  pub value : Option Bytes
  pub r_key : Option SpRegexp
  pub key : Option Bytes
  pub dump : Option Bytes
  pub alias : Option Bytes
  pub allow : Bool
  pub var : SpTree
  pub cidr : Option SpCidr

-- `pecalloc`, and the position -1 that is set behind it.
abbrev pub new_disabled_function : SpDisabledFunction
new_disabled_function = record {
  textual_representation = none;
  filename = none;
  r_filename = none;
  function = none;
  r_function = none;
  functions_list = [];
  hash = none;
  simulation = false;
  param = null;
  r_param = none;
  param_type = SpPhpType.undef;
  position = negsuc 0;
  line = 0;
  r_ret = none;
  ret = none;
  ret_type = SpPhpType.undef;
  r_value = none;
  value = none;
  r_key = none;
  key = none;
  dump = none;
  alias = none;
  allow = false;
  var = null;
  cidr = none;
}

abbrev pub DisabledTable : Type 0
DisabledTable = List (Bytes × List SpDisabledFunction)

pub record SpGlobals : Type 0 where
  pub random_enable : Bool
  pub sloppy_enable : Bool
  pub unserialize : ConfigUnserialize
  pub unserialize_noclass : ConfigUnserializeNoclass
  pub readonly_exec : ConfigReadonlyExec
  pub upload_validation : ConfigUploadValidation
  pub cookies : List SpCookie
  pub auto_cookie_secure_enable : Bool
  pub global_strict_enable : Bool
  pub xxe_protection_enable : Bool
  pub eval : ConfigEval
  pub wrapper : ConfigWrapper
  pub session : ConfigSession
  pub ini : ConfigIni
  pub log_media : LogMedia
  pub log_max_len : ℕ
  pub max_execution_depth : ℕ
  pub server_encode : Bool
  pub server_strip : Bool
  pub encryption_key : Option Bytes
  pub cookies_env_var : Option Bytes
  pub disabled_functions : DisabledTable
  pub disabled_functions_ret : DisabledTable
  pub disabled_functions_reg : List SpDisabledFunction
  pub disabled_functions_reg_ret : List SpDisabledFunction

-- What the configuration reads of the C library, of PCRE and of the file system.
pub record Libs : Type 0 where
  pub strtoimax : Bytes → ℤ × Bool
  pub strtoul : Bytes → ℕ × Bool
  pub compiles : Bytes → Bool
  pub inet : Inet
  pub exists : Bytes → Bool
