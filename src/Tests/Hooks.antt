-- ===== src/Tests/Hooks.antt =====
-- The hooks, the wrappers and the execution at concrete inputs.
use snuffleupagus.Base.{
  ◌⊎◌, inl, inr, ℕ, ℤ, pos, ◌≤ℤ◌, ◌+◌, ◌≡◌, ◌≢◌, ◌↔◌, refl, arith, true, false, List, [], ◌∷◌,
  Option, none, some, Bytes, codes, equals,
}
use snuffleupagus.Execute.{
  FileSystem, WriteAccess, Counters, Caller, Running, ExecConfig, terminate_if_writable,
  get_eval_filename,
}
use snuffleupagus.Execute.Depth.{
  Activation, Activations, activation, call, execute, height, execute-counters,
}
use snuffleupagus.Execute.Depth.Levels.{Allows}
use snuffleupagus.Execute.EvalName.{eval_name, get_eval_filename-eval_name}
use snuffleupagus.Execute.Files.{IsExposed, IsUnknown, terminate_if_writable-IsExposed}
use snuffleupagus.Frames.{FuncType}
use snuffleupagus.Globals.{SpGlobals, ConfigWrapper}
use snuffleupagus.HardenRand.{IsRandomInt, Gives, sp_rand, sp_mt_rand, sp_rand-InRange}
use snuffleupagus.HashTable.{put}
use snuffleupagus.Hooks.{Fn, Functions}
use snuffleupagus.Hooks.Features.{HookTables, hook_all, unhook_all, unhook_shutdown}
use snuffleupagus.Hooks.Features.Reload.{unhook_all-hook_all}
use snuffleupagus.Hooks.Features.Shutdown.{Entry, unhook_shutdown_stale}
use snuffleupagus.Ini.{find}
use snuffleupagus.Sloppy.{Opcode, ZendOp, sp_sloppy_modify_opcode}
use snuffleupagus.Sloppy.Strict.{results, sp_sloppy_modify_opcode-strict}
use snuffleupagus.Tests.Samples.{at, at-AreSet, php, request, start, named}
use snuffleupagus.Wrapper.{StreamWrapper, Wrappers, sp_php_stream_url_wrap_php}
use snuffleupagus.Wrapper.Allowed.{MayOpen, sp_php_stream_url_wrap_php-MayOpen}
use snuffleupagus.Zval.{Zval}

abbrev function : ℕ → Fn
function handler = record { type = FuncType.internal; handler = handler }

-- `in_array` and `system`.
abbrev functions : Functions
functions = (codes "in_array", function 7) ∷ (codes "system", function 8) ∷ []

functions_set : (name : Bytes) (f : Fn) → find name functions ≡ some f → f.handler ≢ 0
unfolding find
functions_set name f h = ground arith

abbrev clean : HookTables
clean = record {
  functions = functions;
  internal = [];
  disabled = [];
  eval = [];
  messages = [];
  to_hook = [];
  hooked = [];
  ret_to_hook = [];
  ret_hooked = [];
}

abbrev strict : SpGlobals
strict = record start { sloppy_enable = true }

unhook_all-hook_all_example : unhook_all (hook_all php at strict clean) ≡ functions
unhook_all-hook_all_example =
    unhook_all-hook_all php at at-AreSet strict clean
      (record { internal = refl; disabled = refl; eval = refl; handlers = functions_set })

abbrev twice : HookTables
twice = record clean {
  functions = put (codes "in_array") (function 200) functions;
  internal = (codes "in_array", 7) ∷ (codes "array_keys", 9) ∷ [];
  disabled = (codes "system", 8) ∷ (codes "in_array", 100) ∷ [];
}

twice_found : find (codes "in_array") twice.functions ≡ some (function 200)
unfolding find put equals
twice_found = refl

twice_internal : Entry (codes "in_array") 7 twice.internal
unfolding find equals
twice_internal = inl (refl, refl, refl)

twice_disabled : Entry (codes "in_array") 100 twice.disabled
unfolding find equals
twice_disabled = inr (refl, inl (refl, refl, refl))

unhook_shutdown_stale_example :
    (find (codes "in_array") (unhook_shutdown twice) ≡ some (function 100))
    × (find (codes "in_array") (unhook_all twice) ≡ some (function 7))
unfolding find
unhook_shutdown_stale_example =
    unhook_shutdown_stale twice (codes "in_array") (function 200) 7 100 (omega arith) (omega arith)
      twice_found refl twice_internal twice_disabled refl

abbrev equal_op : ZendOp
equal_op = record { opcode = Opcode.is_equal; handler = Opcode.is_equal; operands = 0 }

sp_sloppy_modify_opcode-strict_example :
    (changed : List ZendOp) × (sp_sloppy_modify_opcode (some (equal_op ∷ [])) ≡ some changed)
    × (results (λ v w. true) (λ v w. false) (λ n v w. true) Zval.null Zval.false changed
        ≡ results
            (λ v w. false)
            (λ v w. false)
            (λ n v w. true)
            Zval.null
            Zval.false
            (equal_op ∷ []))
sp_sloppy_modify_opcode-strict_example =
    sp_sloppy_modify_opcode-strict (λ v w. true) (λ v w. false) (λ n v w. true) Zval.null Zval.false
      (equal_op ∷ []) (refl, tt)

least : ℤ → ℤ → Option ℤ
least min max = some min

ℤ_refl : (a : ℤ) → a ≤ℤ a
ℤ_refl (pos n) = omega arith
ℤ_refl (ℤ.negsuc n) = omega arith

least-IsRandomInt : IsRandomInt least
unfolding least
least-IsRandomInt = record { gives = λ min max h. (min, refl, ℤ_refl min, h) }

sp_rand-InRange_example :
    Gives
      (some (pos 0))
      (some (pos 9) ∷ some (pos 3) ∷ [])
      (sp_rand least (λ args. some (pos 0)) (some (pos 9) ∷ some (pos 3) ∷ []))
    × Gives
        (some (pos 0))
        (some (pos 9) ∷ some (pos 3) ∷ [])
        (sp_mt_rand least (λ args. some (pos 0)) (some (pos 9) ∷ some (pos 3) ∷ []))
sp_rand-InRange_example =
    sp_rand-InRange least least-IsRandomInt (λ args. some (pos 0))
      (some (pos 9) ∷ some (pos 3) ∷ [])

abbrev wrapping : ConfigWrapper
wrapping = record {
  whitelist = codes "FILE" ∷ [];
  php_stream_allowlist = codes "Memory" ∷ [];
  enabled = true;
  num_wrapper = 0;
}

sp_php_stream_url_wrap_php-MayOpen_example :
    ((sp_php_stream_url_wrap_php wrapping (codes "php://MEMORY")).1 ≡ some (some (codes "MEMORY")))
    ↔ MayOpen wrapping.php_stream_allowlist (codes "php://MEMORY") (codes "MEMORY")
sp_php_stream_url_wrap_php-MayOpen_example =
    sp_php_stream_url_wrap_php-MayOpen wrapping (codes "php://MEMORY") (codes "MEMORY")

abbrev wrappers : Wrappers
wrappers = (codes "http", StreamWrapper.original 1) ∷ (codes "file", StreamWrapper.original 2) ∷ []

abbrev fs : FileSystem
fs = record {
  access = λ path. WriteAccess.refused;
  owner = λ path. some 1000;
  geteuid = 33;
  dirname = λ path. codes "/var";
}

terminate_if_writable-IsExposed_example :
    ((terminate_if_writable true fs start.readonly_exec (codes "/var/a.php")).1 ≡ none) ↔ (
      IsExposed fs start.readonly_exec.extended_checks (codes "/var/a.php")
      ⊎ ((true ≡ true) × IsUnknown fs start.readonly_exec.extended_checks (codes "/var/a.php")))
terminate_if_writable-IsExposed_example =
    terminate_if_writable-IsExposed true fs start.readonly_exec (codes "/var/a.php") refl

get_eval_filename-eval_name_example :
    get_eval_filename (eval_name (codes "/a(1).php") (codes "12")) ≡ codes "/a(1).php"
get_eval_filename-eval_name_example =
    get_eval_filename-eval_name (codes "/a(1).php") (codes "12") (omega arith)

abbrev running : Running
running = record {
  frame = record (named (codes "f")) { func = none };
  internal = false;
  caller = Caller.call_opcode;
  eval_source = [];
  executed = codes "/a.php";
  returned = none;
}

abbrev exec : ExecConfig
exec = record {
  globals = record start { max_execution_depth = 3 };
  disabled_functions_hook = [];
  hook_execute = true;
}

-- A function that calls another one.
abbrev nested : Activation
nested = activation running (call (activation running Activations.nil) Activations.nil)

abbrev idle : Counters
idle = record { execution_depth = 0; in_eval = 0 }

nested_returns : (execute request fs exec nested [] idle).1 ≡ some idle
unfolding execute
nested_returns = refl

execute-counters_example : (idle ≡ idle) × Allows 3 (0 + height nested)
execute-counters_example =
    execute-counters request fs exec nested [] idle idle (omega arith)
      (record { depth_width = omega arith; eval_width = omega arith; allowed = omega arith })
      nested_returns
