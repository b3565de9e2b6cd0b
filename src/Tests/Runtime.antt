-- ===== src/Tests/Runtime.antt =====
-- The rules at run time.
use snuffleupagus.Disabled.Eval.{
  IsRefused, eval_blacklist_callback, eval_blacklist_callback-IsRefused,
}
use snuffleupagus.Globals.{ConfigEval}
use snuffleupagus.Base.{◌<◌, ◌≡◌, refl, ◌↔◌, true, false, [], ◌∷◌, none, some, codes, equals}
use snuffleupagus.Disabled.Rules.{should_disable}
use snuffleupagus.Frames.{get_complete_function_path, is_functions_list_matching}
use snuffleupagus.Frames.Chain.{Occur, is_functions_list_matching-Occur}
use snuffleupagus.Match.{sp_match_value, sp_zval_to_zend_string}
use snuffleupagus.Tests.Samples.{request, stack, named, drop_ls, allow_chain}
use snuffleupagus.Zval.{Zval, Items, Key}

-- The rule for `ls` ends the request, unless an `allow` rule that applies stands in front of it.
dropped :
    (should_disable request stack (codes "system") none (drop_ls ∷ []) (codes "/a.php")).1 ≡ none
unfolding should_disable equals sp_match_value sp_zval_to_zend_string
dropped = refl

allowed_first :
    (should_disable request stack
      (codes "system")
      none
      (allow_chain ∷ drop_ls ∷ [])
      (codes "/a.php")).1
    ≡ some tt
unfolding should_disable is_functions_list_matching equals
allowed_first = refl

-- The outermost frame alone completes no chain.
outermost :
    is_functions_list_matching stack (codes "system" ∷ codes "run" ∷ codes "main" ∷ []) ≡ false
unfolding is_functions_list_matching equals
outermost = refl

is_functions_list_matching-Occur_example :
    (is_functions_list_matching stack (codes "run" ∷ []) ≡ true)
    ↔ Occur (codes "run" ∷ []) (named (codes "system") ∷ named (codes "run") ∷ [])
is_functions_list_matching-Occur_example =
    is_functions_list_matching-Occur (named (codes "system") ∷ named (codes "run") ∷ [])
      (named (codes "main")) (codes "run" ∷ []) (refl, (refl, tt))

-- An array in an array.
abbrev nested : Items
nested = Items.item (Key.idx 0) Zval.null (
    Items.item (Key.str (codes "k"))
      (Zval.array (Items.item (Key.idx 0) (Zval.string (codes "ls")) Items.nil)) Items.nil)

abbrev strlen_only : ConfigEval
strlen_only = record {
  blacklist = codes "system" ∷ [];
  whitelist = codes "strlen" ∷ [];
  simulation = false;
  dump = none;
  textual_representation = none;
}

eval_blacklist_callback-IsRefused_example :
    ((eval_blacklist_callback strlen_only 1 stack).1 ≡ none)
    ↔ ((0 < 1) × IsRefused strlen_only (get_complete_function_path stack))
eval_blacklist_callback-IsRefused_example = eval_blacklist_callback-IsRefused strlen_only 1 stack

refused : (eval_blacklist_callback strlen_only 1 stack).1 ≡ none
unfolding eval_blacklist_callback equals
refused = refl
