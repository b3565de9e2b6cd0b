-- ===== src/Disabled/Rules.antt =====
-- src/sp_disabled_functions.c: the loops over the rules, for a call and for a returned value.
use snuffleupagus.Base.{
  c_string, zero, Bool, true, false, not, ◌&&◌, ◌||◌, List, [], ◌∷◌, Option, none, some, is_set,
  if◌then◌else◌, ℤ, negsuc, ◌==◌, Bytes, codes, equals,
}
use snuffleupagus.Config.{}
use snuffleupagus.Disabled.{
  Request, type_number, is_tree, caller_file, holds, same_hash, is_false, get_ipaddr,
  regexp_matches, is_local_var_matching, is_param_matching, user_file,
}
use snuffleupagus.Frames.{Frame, Func, is_functions_list_matching}
use snuffleupagus.Globals.{SpDisabledFunction, DisabledTable}
use snuffleupagus.Ini.{SpRegexp, find}
use snuffleupagus.Keywords.Functions.{has_type}
use snuffleupagus.Log.{Run, pure, ◌>>=◌, ◌>>◌, sp_log_auto, sp_log_warn, sp_log_err}
use snuffleupagus.Match.{sp_zval_to_zend_string, sp_match_value}
use snuffleupagus.Network.{cidr_match, SpCidr}
use snuffleupagus.Zval.{Zval, SpPhpType, type_of}

-- One turn of the loop; `rest` is what is left of it. `sp_log_disable` is its message.
unfoldable pub apply_rule : Bool → Bool → Run (Unit {0}) → Bool → Run (Unit {0})
apply_rule allow simulation rest false = rest
apply_rule true simulation rest true = pure tt
apply_rule false simulation rest true = sp_log_auto "disabled_function" simulation >> rest

module _ (req : Request) where
  abbrev file_test : List Frame → (Bytes → Bool) → Bytes → Bool
  unfolding user_file
  file_test frames test current = test current || holds test (caller_file frames)

  -- Whether `is_file_matching` finds a frame.
  unfoldable pub is_file_matching : List Frame → Option Bytes → Option SpRegexp → Bytes → Bool
  unfolding user_file
  is_file_matching frames (some filename) rx current =
      file_test frames (λ file. equals file filename) current
  is_file_matching frames none (some rx) current = file_test frames (regexp_matches req rx) current
  is_file_matching frames none none current = false

  abbrev one_function : Option Bytes → Option SpRegexp → Bytes → Bool
  one_function (some name) rx path = equals name path
  one_function none (some rx) path = regexp_matches req rx path
  one_function none none path = true

  -- The first test of a rule: its chain, its function or its expression.
  unfoldable pub function_matches : List Frame → Bytes → SpDisabledFunction → Bool
  function_matches frames path df = elim (df.functions_list) [
    | [] ↦ one_function df.function df.r_function path
    | ◌∷◌ name list ↦ is_functions_list_matching frames (name ∷ list)
  ]

  -- An address that is none is an error, which returns false if errors are not fatal.
  unfoldable pub client_matches : Option SpCidr → Run Bool
  unfolding cidr_match
  client_matches none = pure true
  client_matches (some cidr) = do
    found ←
        cidr_match req.inet req.fatal_errors
          (get_ipaddr req.sapi_addr req.remote_addr req.forwarded) cidr
    pure (not (is_false found))

  -- `compute_hash`. If it fails and returns, the text of the hash is left empty.
  abbrev compute_hash : Option Bytes → Run Bytes
  compute_hash none = sp_log_err req.fatal_errors "hash_computation" >> pure []
  compute_hash (some digits) = pure digits

  -- (The hash is computed once for all rules in the source, if that succeeds.)
  unfoldable pub hash_matches : Option Bytes → Bytes → Run Bool
  hash_matches none current = pure true
  hash_matches (some hash) current = do
    file_hash ← compute_hash (req.file_hash current)
    pure (same_hash file_hash hash)

  -- The tests of a rule for which nothing but the call is asked, up to the one of the network.
  unfoldable pub place_matches : List Frame → Bytes → Bytes → SpDisabledFunction → Bool
  unfolding function_matches is_file_matching
  place_matches frames path current df =
      function_matches frames path df
      && (df.line == 0 || df.line == req.line)
      && (not (is_set df.filename || is_set df.r_filename)
          || is_file_matching frames df.filename df.r_filename current)

  abbrev pub var_matches : List Frame → SpDisabledFunction → Bool
  unfolding is_local_var_matching
  var_matches frames df = not (is_tree df.var) || is_local_var_matching req frames df

  -- The tests in front of the one of the parameter.
  unfoldable pub context_matches : List Frame → Bytes → Bytes → SpDisabledFunction → Run Bool
  unfolding place_matches var_matches client_matches hash_matches
  context_matches frames path current df =
      if place_matches frames path current df
      then (do
        client ← client_matches df.cidr
        if client && var_matches frames df then hash_matches df.hash current else pure false)
      else pure false

  abbrev is_unset_position : ℤ → Bool
  is_unset_position (negsuc zero) = true
  is_unset_position _ = false

  -- Does a rule look at a parameter?
  unfoldable pub filters_param : SpDisabledFunction → Bool
  filters_param df =
      is_tree df.param
      || is_set df.r_param
      || not (is_unset_position df.position)
      || (is_set df.r_value || is_set df.value) && not (is_tree df.var)

  abbrev pub func_variadic : Option Func → Bool
  func_variadic none = false
  func_variadic (some f) = f.variadic

  -- The first argument of the running function is variadic. (The source reads it without a check;
  -- no frame and no function are no such function here.)
  abbrev pub is_variadic : List Frame → Option Bytes → Bool
  is_variadic frames (some builtin) = false
  is_variadic [] none = false
  is_variadic (ex ∷ prev) none = func_variadic ex.func

  -- The test of the parameter. A variadic function gets a warning and matches.
  unfoldable pub param_stage : List Frame → Option Bytes → SpDisabledFunction → Run Bool
  unfolding filters_param is_param_matching
  param_stage frames builtin df =
      if filters_param df
      then (if is_variadic frames builtin
          then sp_log_warn "disable_function" >> pure true
          else pure (is_param_matching req frames df builtin))
      else pure true

  unfoldable pub should_disable :
      List Frame → Bytes → Option Bytes → List SpDisabledFunction → Bytes → Run (Unit {0})
  unfolding context_matches param_stage apply_rule
  should_disable frames path builtin [] current = pure tt
  should_disable frames path builtin (df ∷ config) current =
      let rest = should_disable frames path builtin config current in
      (do
        fits ← context_matches frames path current df
        if fits
            then param_stage frames builtin df >>= apply_rule df.allow df.simulation rest
            else rest)

  -- The rules that `should_disable_ht` takes: those of the name, or else those with expressions.
  abbrev pub rules_of :
      Option (List SpDisabledFunction) → List SpDisabledFunction → List SpDisabledFunction
  rules_of none config = config
  rules_of (some list) config = list

  -- `executed` is the name of the running file; `get_eval_filename` is a parameter.
  unfoldable pub should_disable_ht :
      (Bytes → Bytes)
      → List Frame
      → Bytes
      → Option Bytes
      → List SpDisabledFunction
      → DisabledTable
      → Bytes
      → Run (Unit {0})
  unfolding should_disable find
  should_disable_ht get_eval_filename [] name builtin config ht executed = pure tt
  should_disable_ht get_eval_filename (ex ∷ prev) name builtin config ht executed =
      should_disable (ex ∷ prev) name builtin (rules_of (find name ht) config) (
        if is_set builtin && equals name (codes "eval")
        then get_eval_filename executed
        else executed)

  abbrev ret_type_of : Option Zval → SpPhpType
  ret_type_of none = SpPhpType.null
  ret_type_of (some value) = type_of value

  abbrev ret_value_matches : SpDisabledFunction → Option Zval → Bool
  ret_value_matches df none = false
  ret_value_matches df (some value) =
      (is_set df.ret || is_set df.r_ret)
      && sp_match_value req.texts (sp_zval_to_zend_string req.texts value) df.ret df.r_ret

  abbrev own_file : Option Bytes → Option SpRegexp → Bytes → Bool
  own_file (some filename) rx current = equals current (c_string filename)
  own_file none (some rx) current = regexp_matches req rx current
  own_file none none current = true

  unfoldable pub own_place : List Frame → Bytes → Bytes → SpDisabledFunction → Bool
  unfolding function_matches
  own_place frames path current df =
      function_matches frames path df && own_file df.filename df.r_filename current

  -- `match_type` or `match_value`.
  unfoldable pub result_matches : SpDisabledFunction → Option Zval → Bool
  result_matches df ret =
      has_type df.ret_type && type_number df.ret_type == type_number (ret_type_of ret)
      || ret_value_matches df ret

  -- Whether a rule applies to a returned value.
  unfoldable pub return_matches :
      List Frame → Bytes → Bytes → Option Zval → SpDisabledFunction → Run Bool
  unfolding own_place result_matches hash_matches
  return_matches frames path current ret df =
      if own_place frames path current df
      then (do same ← hash_matches df.hash current; pure (same && result_matches df ret))
      else pure false

  unfoldable pub should_drop_on_ret :
      Option Zval → List SpDisabledFunction → Bytes → List Frame → Bytes → Run (Unit {0})
  unfolding return_matches apply_rule
  should_drop_on_ret ret [] path frames current = pure tt
  should_drop_on_ret ret (df ∷ config) path frames current =
      let rest = should_drop_on_ret ret config path frames current in
      return_matches frames path current ret df >>= apply_rule df.allow df.simulation rest

  unfoldable pub should_drop_on_ret_ht :
      Option Zval
      → Bytes
      → List SpDisabledFunction
      → DisabledTable
      → List Frame
      → Bytes
      → Run (Unit {0})
  unfolding should_drop_on_ret find
  should_drop_on_ret_ht ret name config ht frames current =
      should_drop_on_ret ret (rules_of (find name ht) config) name frames current
