-- ===== src/Disabled/Hooked.antt =====
-- What the hooks of src/sp_disabled_functions.c do in the place of a function: `check_disabled_function`
-- and `hook_echo`. The original function is a parameter.
use snuffleupagus.Base.{List, Option, none, some, Bytes, codes}
use snuffleupagus.Disabled.{Request}
use snuffleupagus.Disabled.Rules.{should_disable_ht, should_drop_on_ret_ht}
use snuffleupagus.Frames.{Frame}
use snuffleupagus.Globals.{SpDisabledFunction, DisabledTable}
use snuffleupagus.Log.{Run, ◌>>=◌, ◌>>◌, pure}
use snuffleupagus.Zval.{Zval}

-- The rules that the hooks look at: those with expressions, and the tables `disabled_functions_hooked`
-- and `disabled_functions_ret_hooked`.
pub record HookedRules : Type 0 where
  pub patterns : List SpDisabledFunction
  pub patterns_ret : List SpDisabledFunction
  pub hooked : DisabledTable
  pub ret_hooked : DisabledTable

module _ (req : Request) (get_eval_filename : Bytes → Bytes) (rules : HookedRules) where
  -- `executed` is the name of the running file; `orig_handler` runs the function and gives its value.
  unfoldable pub check_disabled_function :
      List Frame → Bytes → Bytes → Run (Option Zval) → Run (Option Zval)
  unfolding should_disable_ht should_drop_on_ret_ht
  check_disabled_function frames name executed orig_handler = do
    should_disable_ht req get_eval_filename frames name none rules.patterns rules.hooked executed
    return_value ← orig_handler
    should_drop_on_ret_ht req return_value name rules.patterns_ret rules.ret_hooked frames executed
    pure return_value

  -- `zend_write_default` gets what `echo` writes.
  unfoldable pub hook_echo : List Frame → Bytes → Bytes → Run Bytes
  unfolding should_disable_ht
  hook_echo frames executed str = do
    should_disable_ht req get_eval_filename frames (codes "echo") (some str) rules.patterns
        rules.hooked executed
    pure str
