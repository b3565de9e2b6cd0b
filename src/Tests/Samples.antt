-- ===== src/Tests/Samples.antt =====
-- A configuration, a stack and the libraries of the tests.
use snuffleupagus.Base.{
  true, false, List, [], ◌∷◌, none, some, pos, Bytes, codes, equals, if◌then◌else◌, length, arith,
}
use snuffleupagus.Config.{SpParsedKeyword, ArgType}
use snuffleupagus.Disabled.{Request}
use snuffleupagus.Frames.{Frame, FuncType}
use snuffleupagus.Globals.{SpGlobals, Libs, SpDisabledFunction, new_disabled_function}
use snuffleupagus.Hooks.Features.{Addresses, Php}
use snuffleupagus.Hooks.Features.Reload.{AreSet}
use snuffleupagus.Log.{MediaType}
use snuffleupagus.Match.{Texts}
use snuffleupagus.Network.{Inet}
use snuffleupagus.Network.Cidr.{IsInet}
use snuffleupagus.SpTree.{SpTree, node, ElemType}
use snuffleupagus.Zval.{Zval}

-- 10.0.0.1 and ::1 are the only addresses.
abbrev pub one_inet : Inet
one_inet = record {
  pton4 = λ s. if equals s (codes "10.0.0.1") then some 0x0a000001 else none;
  pton6 = λ s. if equals s (codes "::1") then some (0 ∷ 0 ∷ 0 ∷ 1 ∷ []) else none;
}

pub one_inet-IsInet : IsInet one_inet
one_inet-IsInet = record {
  word = λ ip a e. ground arith;
  words = λ ip a e. ground arith;
  four = λ ip a e. ground arith;
}

abbrev pub libs : Libs
libs = record {
  strtoimax = λ s. (pos (length s), true);
  strtoul = λ s. (length s, true);
  compiles = λ s. true;
  inet = one_inet;
  exists = λ s. false;
}

abbrev pub tree_of : Bytes → SpTree
tree_of s = node ElemType.var s SpTree.null SpTree.null

abbrev pub start : SpGlobals
start = record {
  random_enable = false;
  sloppy_enable = false;
  unserialize = record {
    enable = false;
    simulation = false;
    dump = none;
    textual_representation = none;
  };
  unserialize_noclass = record { enable = false; textual_representation = none };
  readonly_exec = record {
    enable = false;
    simulation = false;
    extended_checks = false;
    dump = none;
    textual_representation = none;
  };
  upload_validation = record { script = none; simulation = false; enable = false };
  cookies = [];
  auto_cookie_secure_enable = false;
  global_strict_enable = false;
  xxe_protection_enable = false;
  eval = record {
    blacklist = [];
    whitelist = [];
    simulation = false;
    dump = none;
    textual_representation = none;
  };
  wrapper = record { whitelist = []; php_stream_allowlist = []; enabled = false; num_wrapper = 0 };
  session = record { encrypt = false; simulation = false; sid_min_length = 0; sid_max_length = 0 };
  ini = record {
    enable = false;
    simulation = false;
    policy_readonly = false;
    policy_silent_ro = false;
    policy_silent_fail = false;
    policy_drop = false;
    entries = [];
  };
  log_media = record { type = MediaType.log_zend; path = none };
  log_max_len = 255;
  max_execution_depth = 0;
  server_encode = false;
  server_strip = false;
  encryption_key = none;
  cookies_env_var = none;
  disabled_functions = [];
  disabled_functions_ret = [];
  disabled_functions_reg = [];
  disabled_functions_reg_ret = [];
}

-- `.kw("arg")` and `.kw()`.
abbrev pub with_text : Bytes → Bytes → SpParsedKeyword
with_text kw arg = record { kw = kw; arg = some arg; argtype = ArgType.str }

abbrev pub plain : Bytes → SpParsedKeyword
plain kw = record { kw = kw; arg = some []; argtype = ArgType.empty }

abbrev pub texts : Texts
texts = record {
  matches = λ rx s. equals rx s;
  long_text = λ n. codes "1";
  double_text = λ d. codes "1.000000";
  ulong_text = λ n. codes "0";
}

abbrev pub request : Request
request = record {
  texts = texts;
  inet = one_inet;
  get_var = λ frames tree is_param. none;
  line = 12;
  sapi_addr = some (codes "10.0.0.1");
  remote_addr = none;
  forwarded = none;
  file_hash = λ file. some (codes "00");
  fatal_errors = true;
}

abbrev pub named : Bytes → Frame
named name = record {
  func = some (record {
    type = FuncType.internal;
    name = some name;
    scope = none;
    num_args = 1;
    arg_name = λ i. codes "command";
    variadic = false;
    filename = [];
  });
  args = Zval.string (codes "ls") ∷ [];
}

abbrev pub stack : List Frame
stack = named (codes "system") ∷ named (codes "run") ∷ named (codes "main") ∷ []

-- `system` with the first argument `ls`, dropped.
abbrev pub drop_ls : SpDisabledFunction
drop_ls = record new_disabled_function {
  function = some (codes "system");
  position = pos 0;
  value = some (codes "ls");
}

-- `system` in a chain, allowed.
abbrev pub allow_chain : SpDisabledFunction
allow_chain = record new_disabled_function {
  function = some (codes "run>system");
  functions_list = codes "system" ∷ codes "run" ∷ [];
  allow = true;
}

abbrev pub drop_return : SpDisabledFunction
drop_return = record new_disabled_function {
  function = some (codes "system");
  ret = some (codes "x");
}

abbrev pub at : Addresses
at = record {
  replacement = λ name. 100;
  check_disabled_function = 200;
  eval_blacklist_callback = 300;
}

pub at-AreSet : AreSet at
at-AreSet = record {
  replacement = λ name. omega arith;
  check_disabled_function = omega arith;
  eval_blacklist_callback = omega arith;
}

abbrev pub php : Php
php = record { multibyte = false; has_xml = true; matching = λ rx s. equals rx.pattern s }
