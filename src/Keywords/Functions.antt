-- ===== src/Keywords/Functions.antt =====
-- `parse_disabled_functions`, `add_df_to_hashtable`, and `parse_functions_list` of
-- src/sp_config_utils.c. `sp_parse_var` is the argument `parse_var`.
pub mod Stored
use snuffleupagus.Base.{
  c_string, ℕ, Bool, true, false, not, ◌&&◌, ◌||◌, List, [], ◌∷◌, ◌++◌, Option, none, some, is_set,
  if◌then◌else◌, ℤ, pos, negsuc, Bytes, codes, equals, starts_with, ◌==◌,
}
use snuffleupagus.Config.{
  Status, ZendResult, Handler, Table, SpParsedKeyword, sp_process_rule, parse_empty, parse_str,
  parse_regexp, parse_php_type, parse_cidr, parse_int, parse_uint, sp_get_textual_representation,
  list_head,
}
use snuffleupagus.Globals.{
  SpGlobals, Libs, SpDisabledFunction, new_disabled_function, DisabledTable,
}
use snuffleupagus.Keywords.Enable.{processed, leave}
use snuffleupagus.Keywords.FunctionTable.{FunctionRule, new_function_rule, function_keywords}
use snuffleupagus.SpList.{sp_list_insert, sp_list_prepend}
use snuffleupagus.SpTree.{SpTree, null, node}
use snuffleupagus.Zval.{SpPhpType}

-- The token that was read, if it is one: `strtok_r` skips empty ones.
abbrev pub add_token : Bytes → List Bytes → List Bytes
unfolding sp_list_prepend
add_token [] list = list
add_token (c ∷ token) list = sp_list_prepend list (c ∷ token)

-- The loop over `strtok_r`; `token` is what was read of the current token.
split_from : Bytes → List Bytes → Bytes → List Bytes
split_from token list [] = add_token token list
split_from token list (c ∷ s) =
    let ended = split_from [] (add_token token list) s in
    let more = split_from (token ++ c ∷ []) list s in if c == b'>' then ended else more

-- `strchr(value, c) != NULL`.
has_char : ℕ → Bytes → Bool
has_char c [] = false
has_char c (d ∷ s) = d == c || has_char c s

unfoldable pub parse_functions_list : Bytes → List Bytes
unfolding split_from has_char
parse_functions_list value = if has_char b'>' value then split_from [] [] value else []

-- A type other than `undef`, which is 0.
abbrev pub has_type : SpPhpType → Bool
has_type SpPhpType.undef = false
has_type _ = true

abbrev pub has_position : ℤ → Bool
has_position (pos _) = true
has_position (negsuc _) = false

-- A rule for the value that a function returns.
abbrev pub on_return : SpDisabledFunction → Bool
on_return df = is_set df.r_ret || is_set df.ret || has_type df.ret_type

-- No pair of MUTUALLY_EXCLUSIVE is there: the first nine, and the last three.
unfoldable pub is_exclusive : FunctionRule → Bool
is_exclusive r =
    let df = r.df in
    not (is_set df.value && is_set df.r_value)
    && not (is_set df.r_function && is_set df.function)
    && not (is_set df.filename && is_set df.r_filename)
    && not (is_set df.ret && is_set df.r_ret)
    && not (is_set df.key && is_set df.r_key)
    && not (has_position df.position && is_set r.param)
    && not (has_position df.position && is_set df.r_param)
    && not (is_set r.param && is_set df.r_param)
    && not ((is_set df.r_key || is_set df.key) && (is_set df.r_value || is_set df.value))

unfoldable pub is_call_or_return : FunctionRule → Bool
is_call_or_return r =
    let df = r.df in
    not (on_return df && (is_set df.r_param || is_set r.param))
    && not (on_return df && is_set r.var)
    && not (on_return df && (is_set df.value || is_set df.r_value))

abbrev pub first_is : ℕ → Bytes → Bool
first_is c [] = false
first_is c (d ∷ _) = d == c

abbrev pub is_full_path : Option Bytes → Bool
is_full_path none = true
is_full_path (some name) = first_is b'/' name || starts_with (codes "phar://") name

-- The other checks in front of the parsing of variables.
unfoldable pub is_complete : FunctionRule → Bool
is_complete r =
    (is_set r.df.r_function || is_set r.df.function)
    && is_full_path r.df.filename
    && (r.allow || r.drop)
    && not (r.allow && r.drop)

abbrev pub non_null : SpTree → Option SpTree
non_null null = none
non_null (node type value idx next) = some (node type value idx next)

abbrev pub functions_of : Option Bytes → List Bytes
functions_of none = []
functions_of (some name) = parse_functions_list (c_string name)

abbrev pub with_echo : Option Bytes → Option Bytes
with_echo none = none
with_echo (some name) = if equals name (codes "print") then some (codes "echo") else some name

-- The name that `add_df_to_hashtable` files a rule under, none for one with an expression only.
abbrev pub target : List Bytes → Option Bytes → Option Bytes
target [] function = function
target (name ∷ _) _ = some name

unfoldable pub add_df_to_hashtable : DisabledTable → Bytes → SpDisabledFunction → DisabledTable
add_df_to_hashtable [] key df = (key, sp_list_insert [] df) ∷ []
add_df_to_hashtable ((name, list) ∷ ht) key df =
    let rest = add_df_to_hashtable ht key df in
    if equals name key then (name, sp_list_insert list df) ∷ ht else (name, list) ∷ rest

abbrev pub file_under : Option Bytes → SpDisabledFunction → SpGlobals → SpGlobals
file_under (some key) df s =
    if on_return df
    then record s { disabled_functions_ret = add_df_to_hashtable s.disabled_functions_ret key df }
    else record s { disabled_functions = add_df_to_hashtable s.disabled_functions key df }
file_under none df s =
    if on_return df
    then record s { disabled_functions_reg_ret = sp_list_insert s.disabled_functions_reg_ret df }
    else record s { disabled_functions_reg = sp_list_insert s.disabled_functions_reg df }

module _ (parse_var : Bytes → SpTree) where
  -- `none` is an invalid text; no text is no tree.
  abbrev param_tree : Option Bytes → Option SpTree
  param_tree none = some null
  param_tree (some []) = non_null (parse_var [])
  param_tree (some (c ∷ s)) =
      non_null (parse_var (c_string (if c == b'$' then c ∷ s else b'$' ∷ c ∷ s)))

  abbrev var_tree : Option Bytes → Option SpTree
  var_tree none = some null
  var_tree (some []) = none
  var_tree (some (c ∷ s)) = non_null (parse_var (c_string (c ∷ s)))

  -- The rule behind the checks.
  unfoldable pub build :
      List SpParsedKeyword
      → FunctionRule
      → Option SpTree
      → Option SpTree
      → Option SpDisabledFunction
  build text r (some param) (some var) = some (record (r.df) {
    allow = r.allow;
    textual_representation = some (sp_get_textual_representation text);
    functions_list = functions_of r.df.function;
    param = param;
    var = var;
    function = with_echo r.df.function;
  })
  build text r _ _ = none

  unfoldable pub checked_rule : List SpParsedKeyword → FunctionRule → Option SpDisabledFunction
  unfolding build is_exclusive is_call_or_return is_complete
  checked_rule text r =
      if is_exclusive r && is_call_or_return r && is_complete r
      then build text r (param_tree r.param) (var_tree r.var)
      else none

  unfoldable pub file : Option SpDisabledFunction → SpGlobals → Status × SpGlobals
  file none s = (Status.error, s)
  file (some df) s = (Status.stop, file_under (target df.functions_list df.function) df s)

  -- What follows the keywords. A rule with `disable` is dropped.
  unfoldable pub finish_function :
      List SpParsedKeyword → ZendResult × FunctionRule → SpGlobals → Status × SpGlobals
  unfolding checked_rule file
  finish_function text (ZendResult.failed, r) s = (Status.error, s)
  finish_function text (ZendResult.succeeded, r) s =
      if r.enable && r.disable
      then (Status.error, s)
      else if r.disable
      then (Status.stop, s)
      else file (checked_rule text r) s

  unfoldable pub parse_disabled_functions : Libs → Handler SpGlobals
  unfolding finish_function
  parse_disabled_functions libs k rule s =
      finish_function (k ∷ rule) (sp_process_rule (function_keywords libs) rule new_function_rule) s
