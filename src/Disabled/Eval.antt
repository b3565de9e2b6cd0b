-- ===== src/Disabled/Eval.antt =====
-- `eval_blacklist_callback`, and `check_is_in_eval_whitelist` of src/sp_utils.c.
use snuffleupagus.Base.{
  ℕ, ◌≡◌, ◌↔◌, ◌<◌, arith, Bool, true, false, ◌||◌, ◌==◌, List, [], ◌∷◌, Option, none, some,
  if◌then◌else◌, ltb, Bytes, equals,
}
use snuffleupagus.Frames.{Frame, get_complete_function_path}
use snuffleupagus.Globals.{ConfigEval}
use snuffleupagus.Log.{Run, ◌>>◌, pure, sp_log_drop, sp_log_simulation}

-- The loop over the list, whose names are compared in their whole length.
unfoldable pub in_whitelist : List Bytes → Bytes → Bool
in_whitelist [] name = false
in_whitelist (it ∷ list) name = if equals name it then true else in_whitelist list name

unfoldable pub check_is_in_eval_whitelist : ConfigEval → Bytes → Bool
unfolding in_whitelist
check_is_in_eval_whitelist cfg name = in_whitelist cfg.whitelist name

-- What stands in front of the label `whitelisted`. (The dump of the request is left out.)
unfoldable pub eval_check : ConfigEval → ℕ → Run (Unit {0})
eval_check cfg in_eval =
    if ltb 0 in_eval
    then (if cfg.simulation then sp_log_simulation "eval" else sp_log_drop "eval")
    else pure tt

abbrev pub call_original : ConfigEval → ℕ → Option Bytes → Run Bool
unfolding check_is_in_eval_whitelist eval_check
call_original cfg in_eval none = pure false
call_original cfg in_eval (some name) =
    if check_is_in_eval_whitelist cfg name then pure true else eval_check cfg in_eval >> pure true

-- The result says whether the original function is called.
unfoldable pub eval_blacklist_callback : ConfigEval → ℕ → List Frame → Run Bool
unfolding call_original get_complete_function_path
eval_blacklist_callback cfg in_eval frames =
    call_original cfg in_eval (get_complete_function_path frames)

-- `is_in_eval_and_whitelisted` of src/sp_execute.c, behind the safeguard on the running frame.
abbrev pub whitelist_check : ConfigEval → Option Bytes → Run (Unit {0})
unfolding check_is_in_eval_whitelist
whitelist_check cfg none = pure tt
whitelist_check cfg (some name) =
    if check_is_in_eval_whitelist cfg name
    then pure tt
    else if cfg.simulation
    then sp_log_simulation "Eval_whitelist"
    else sp_log_drop "Eval_whitelist"

abbrev pub is_empty_list : List Bytes → Bool
is_empty_list [] = true
is_empty_list (_ ∷ _) = false

unfoldable pub is_in_eval_and_whitelisted : ConfigEval → ℕ → List Frame → Run (Unit {0})
unfolding whitelist_check get_complete_function_path
is_in_eval_and_whitelisted cfg in_eval frames =
    if in_eval == 0 || is_empty_list cfg.whitelist
    then pure tt
    else whitelist_check cfg (get_complete_function_path frames)

-- A function of this name may not run in `eval`.
abbrev pub IsRefused : ConfigEval → Option Bytes → Type 0
IsRefused cfg none = ⊥
IsRefused cfg (some name) = (check_is_in_eval_whitelist cfg name ≡ false) × (cfg.simulation ≡ false)

call_original-IsRefused :
    (cfg : ConfigEval) (in_eval : ℕ) (name : Option Bytes)
    → ((call_original cfg in_eval name).1 ≡ none) ↔ ((0 < in_eval) × IsRefused cfg name)
unfolding eval_check call_original
call_original-IsRefused cfg in_eval none = ground arith
call_original-IsRefused cfg in_eval (some name) = ground arith

-- The callback of a function on the blacklist ends the request exactly if the code runs in `eval`,
-- the function has a name that is not on the whitelist, and `eval` is not in simulation.
pub eval_blacklist_callback-IsRefused :
    (cfg : ConfigEval) (in_eval : ℕ) (frames : List Frame)
    → ((eval_blacklist_callback cfg in_eval frames).1 ≡ none)
      ↔ ((0 < in_eval) × IsRefused cfg (get_complete_function_path frames))
unfolding eval_blacklist_callback
eval_blacklist_callback-IsRefused cfg in_eval frames =
    call_original-IsRefused cfg in_eval (get_complete_function_path frames)

whitelist_check-IsRefused :
    (cfg : ConfigEval) (name : Option Bytes)
    → ((whitelist_check cfg name).1 ≡ none) ↔ IsRefused cfg name
unfolding whitelist_check
whitelist_check-IsRefused cfg none = ground arith
whitelist_check-IsRefused cfg (some name) = ground arith

-- The check of a whitelist ends the request exactly if the code runs in `eval`, the whitelist is not
-- empty, the function has a name that is not on it, and `eval` is not in simulation.
pub is_in_eval_and_whitelisted-IsRefused :
    (cfg : ConfigEval) (in_eval : ℕ) (frames : List Frame)
    → ((is_in_eval_and_whitelisted cfg in_eval frames).1 ≡ none) ↔ (
        (0 < in_eval)
        × (is_empty_list cfg.whitelist ≡ false)
        × IsRefused cfg (get_complete_function_path frames))
unfolding is_in_eval_and_whitelisted
is_in_eval_and_whitelisted-IsRefused cfg in_eval frames =
    ground (arith, whitelist_check-IsRefused cfg (get_complete_function_path frames))
