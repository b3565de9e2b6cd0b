-- ===== src/Execute.antt =====
-- src/sp_execute.c, from PHP 8.1: what is checked when a file is opened and when a function runs, and
-- the counters of `eval` and of the depth. The file system is a parameter.
pub mod Files
pub mod Depth
pub mod EvalName
pub mod Handlers
use snuffleupagus.Base.{
  ℕ, zero, suc, ◌+◌, ◌-◌, ◌%◌, ◌^◌, Bool, true, false, not, ◌&&◌, ◌||◌, List, [], ◌∷◌, ◌++◌, Option,
  none, some, Bytes, codes, drop, equals, starts_with, is_set, ltb, ◌==◌, if◌then◌else◌,
}
use mathlib.Core.List.{reverse}
use snuffleupagus.Disabled.{Request}
use snuffleupagus.Disabled.Eval.{is_in_eval_and_whitelisted}
use snuffleupagus.Disabled.Rules.{should_disable_ht, should_drop_on_ret_ht}
use snuffleupagus.Frames.{Frame, Func, FuncType, get_complete_function_path}
use snuffleupagus.Globals.{SpGlobals, ConfigReadonlyExec, DisabledTable}
use snuffleupagus.Hooks.{Saved}
use snuffleupagus.Ini.{find}
use snuffleupagus.Log.{Run, ◌>>=◌, ◌>>◌, pure, sp_log_drop, sp_log_simulation, sp_log_err}
use snuffleupagus.Zval.{Zval}

-- `access(…, W_OK)`: 0, or -1 with one of EACCES, EROFS and EPERM, or with another error.
pub data WriteAccess : Type 0 where
  writable refused failed : WriteAccess

-- `stat` gives the owner. `dirname` is `php_dirname`.
pub record FileSystem : Type 0 where
  pub access : Bytes → WriteAccess
  pub owner : Bytes → Option ℕ
  pub geteuid : ℕ
  pub dirname : Bytes → Bytes

-- The labels `violation` and `err`; `fatal_errors` says whether `sp_log_err` ends the request. (The dump of the request is left out.)
abbrev violation : ConfigReadonlyExec → Run (Unit {0})
violation cfg =
    if cfg.simulation then sp_log_simulation "readonly_exec" else sp_log_drop "readonly_exec"

abbrev err : Bool → Run (Unit {0})
err fatal_errors = sp_log_err fatal_errors "readonly_exec"

-- `access` with what follows it if the file is not writable.
abbrev unless_writable : Bool → ConfigReadonlyExec → WriteAccess → Run (Unit {0}) → Run (Unit {0})
unless_writable fatal_errors cfg WriteAccess.writable rest = violation cfg
unless_writable fatal_errors cfg WriteAccess.failed rest = err fatal_errors
unless_writable fatal_errors cfg WriteAccess.refused rest = rest

-- `stat` with what follows it if the file is another's.
abbrev unless_owned : Bool → ConfigReadonlyExec → ℕ → Option ℕ → Run (Unit {0}) → Run (Unit {0})
unless_owned fatal_errors cfg euid none rest = err fatal_errors
unless_owned fatal_errors cfg euid (some uid) rest = if uid == euid then violation cfg else rest

unfoldable pub terminate_if_writable :
    Bool → FileSystem → ConfigReadonlyExec → Bytes → Run (Unit {0})
terminate_if_writable fatal_errors fs cfg filename =
    let dirname = fs.dirname filename in
    unless_writable fatal_errors cfg (fs.access filename) (
      if not cfg.extended_checks
      then pure tt
      else unless_owned fatal_errors cfg fs.geteuid (fs.owner filename) (
          unless_writable fatal_errors cfg (fs.access dirname)
            (unless_owned fatal_errors cfg fs.geteuid (fs.owner dirname) (pure tt))))

-- The loop of `get_eval_filename`, from the end: what stands before the second opening parenthesis.
unfoldable pub cut_from_end : ℕ → Bytes → Option Bytes
cut_from_end count [] = none
cut_from_end count (c ∷ before) =
    let rest = cut_from_end count before in
    let next = cut_from_end (count + 1) before in
    if c == b'(' then (if count == 1 then some before else next) else rest

abbrev clean_filename : Bytes → Option Bytes → Bytes
clean_filename filename none = filename
clean_filename filename (some before) = reverse before

unfoldable pub get_eval_filename : Bytes → Bytes
unfolding cut_from_end
get_eval_filename filename = clean_filename filename (cut_from_end 0 (reverse filename))

-- `SPG(execution_depth)` and `SPG(in_eval)`, of 64 bits.
pub record Counters : Type 0 where
  pub execution_depth : ℕ
  pub in_eval : ℕ

abbrev pub increment : ℕ → ℕ
increment n = (n + 1) % 2 ^ 64

abbrev pub decrement : ℕ → ℕ
decrement n = (n + 2 ^ 64 - 1) % 2 ^ 64

abbrev pub is_too_deep : ℕ → ℕ → Bool
is_too_deep max_execution_depth depth = ltb 0 max_execution_depth && ltb max_execution_depth depth

-- `body` is what the original function does with the counters.
unfoldable pub sp_orig_execute : ℕ → (Counters → Run Counters) → Counters → Run Counters
sp_orig_execute max_execution_depth body c = do
  let depth = increment c.execution_depth
  if is_too_deep max_execution_depth depth then sp_log_drop "execute" else pure tt
  c' ← body (record c { execution_depth = depth })
  pure (record c' { execution_depth = decrement c'.execution_depth })

unfoldable pub sp_call_orig_execute : ℕ → Bool → (Counters → Run Counters) → Counters → Run Counters
unfolding sp_orig_execute
sp_call_orig_execute max_execution_depth internal body c =
    if internal then body c else sp_orig_execute max_execution_depth body c

-- How the function was called: from PHP code, by an opcode for calls or by another one, or not.
pub data Caller : Type 0 where
  not_user_code call_opcode other_opcode : Caller

abbrev checks_call : Caller → Bool
checks_call Caller.other_opcode = false
checks_call _ = true

-- The running of a function: its frame, the handler that is called, the caller, the source text of
-- the last `eval`, the name of the running file, and what is returned.
pub record Running : Type 0 where
  pub frame : Frame
  pub internal : Bool
  pub caller : Caller
  pub eval_source : Bytes
  pub executed : Bytes
  pub returned : Option Zval

-- The configuration as the execution reads it: the table of hooked functions and `SPG(hook_execute)`
-- come from the load of the configuration.
pub record ExecConfig : Type 0 where
  pub globals : SpGlobals
  pub disabled_functions_hook : Saved
  pub hook_execute : Bool

abbrev is_eval_type : FuncType → Bool
is_eval_type FuncType.eval_code = true
is_eval_type _ = false

-- `EX(func)` is there for PHP code.
abbrev is_eval : Option Func → Bool
is_eval none = false
is_eval (some f) = is_eval_type f.type

module _ (req : Request) (fs : FileSystem) (cfg : ExecConfig) where
  -- `is_builtin_matching` of a rule that is there.
  abbrev matching_builtin :
      List Frame → Bytes → Bytes → DisabledTable → Bytes → Bool → Run (Unit {0})
  unfolding should_disable_ht get_eval_filename
  matching_builtin frames name value ht executed true =
      should_disable_ht req get_eval_filename frames name (some value)
        cfg.globals.disabled_functions_reg ht executed
  matching_builtin frames name value ht executed false = pure tt

  unfoldable pub is_builtin_matching :
      List Frame → Bytes → Bytes → DisabledTable → Bytes → Run (Unit {0})
  unfolding matching_builtin find
  is_builtin_matching frames name value ht executed =
      matching_builtin frames name value ht executed (is_set (find name ht))

  abbrev check_file : Option Func → Run (Unit {0})
  unfolding terminate_if_writable
  check_file none = pure tt
  check_file (some f) =
      if cfg.globals.readonly_exec.enable
      then terminate_if_writable req.fatal_errors fs cfg.globals.readonly_exec f.filename
      else pure tt

  unfoldable pub sp_check_writable : List Frame → Run (Unit {0})
  unfolding check_file
  sp_check_writable [] = pure tt
  sp_check_writable (ex ∷ prev) = check_file ex.func

  -- The check of a call, by the opcode of the caller, and that of what is returned.
  abbrev check_call : Running → List Frame → Bytes → Run (Unit {0})
  unfolding should_disable_ht get_eval_filename
  check_call r frames name =
      if checks_call r.caller
      then should_disable_ht req get_eval_filename frames name none
          cfg.globals.disabled_functions_reg cfg.globals.disabled_functions r.executed
      else pure tt

  abbrev check_return : Running → List Frame → Bytes → Run (Unit {0})
  unfolding should_drop_on_ret_ht
  check_return r frames name =
      should_drop_on_ret_ht req r.returned name cfg.globals.disabled_functions_reg_ret
        cfg.globals.disabled_functions_ret frames r.executed

  -- From `get_complete_function_path` on, with what it gave.
  abbrev call_checked :
      Running → List Frame → (Counters → Run Counters) → Counters → Option Bytes → Run Counters
  unfolding sp_call_orig_execute check_call check_return find
  call_checked r frames body c none =
      sp_call_orig_execute cfg.globals.max_execution_depth r.internal body c
  call_checked r frames body c (some name) =
      if is_set (find name cfg.disabled_functions_hook)
      then sp_call_orig_execute cfg.globals.max_execution_depth r.internal body c
      else (do
        check_call r frames name
        c' ← sp_call_orig_execute cfg.globals.max_execution_depth r.internal body c
        check_return r frames name
        pure c')

  abbrev run_original : Running → List Frame → (Counters → Run Counters) → Counters → Run Counters
  unfolding call_checked get_complete_function_path
  run_original r frames body c =
      if not cfg.hook_execute
      then sp_call_orig_execute cfg.globals.max_execution_depth r.internal body c
      else call_checked r frames body c (get_complete_function_path frames)

  abbrev run_eval : Running → List Frame → (Counters → Run Counters) → Counters → Run Counters
  unfolding is_builtin_matching sp_orig_execute
  run_eval r frames body c = do
    is_builtin_matching frames (codes "eval") r.eval_source cfg.globals.disabled_functions
        r.executed
    c' ←
        sp_orig_execute cfg.globals.max_execution_depth body
          (record c { in_eval = increment c.in_eval })
    pure (record c' { in_eval = decrement c'.in_eval })

  -- Behind the whitelist of `eval`: by whether the function is internal, and whether it is `eval`.
  abbrev run_function :
      Bool → Bool → Running → List Frame → (Counters → Run Counters) → Counters → Run Counters
  unfolding run_eval sp_check_writable run_original
  run_function true evaluated r frames body c = run_original r frames body c
  run_function false true r frames body c = run_eval r frames body c
  run_function false false r frames body c =
      sp_check_writable frames >> run_original r frames body c

  -- `frames` is the stack with the frame of `r` on top.
  unfoldable pub sp_execute_handler :
      Running → List Frame → (Counters → Run Counters) → Counters → Run Counters
  unfolding is_in_eval_and_whitelisted run_function
  sp_execute_handler r frames body c = do
    is_in_eval_and_whitelisted cfg.globals.eval c.in_eval frames
    run_function r.internal (is_eval r.frame.func) r frames body c
