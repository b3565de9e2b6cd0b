-- ===== src/Disabled.antt =====
-- src/sp_disabled_functions.c: which rules apply to a call, and what follows. A rule's `simulation`,
-- `allow` and order decide; the text of a message and the dump of a request are left out.
pub mod Rules
pub mod Hooked
pub mod Eval
pub mod Verdict
pub mod Failing
use snuffleupagus.Base.{
  c_string, ℕ, zero, suc, ◌+◌, ◌-◌, Bool, true, false, not, ◌&&◌, ◌||◌, List, [], ◌∷◌, Option, none,
  some, is_set, if◌then◌else◌, ℤ, pos, negsuc, ltb, leb, ◌==◌, length, take, get_elem?, Bytes,
  codes, equals,
}
use snuffleupagus.Config.{}
use snuffleupagus.Frames.{Frame, Func, FuncType, is_functions_list_matching}
use snuffleupagus.Globals.{SpDisabledFunction, DisabledTable}
use snuffleupagus.Ini.{SpRegexp, find}
use snuffleupagus.Keywords.Functions.{has_type}
use snuffleupagus.Match.{
  Texts, sp_zval_to_zend_string, sp_match_value, sp_match_array_key, sp_match_array_value,
}
use snuffleupagus.Network.{Inet, cidr_match, SpCidr}
use snuffleupagus.SpTree.{SpTree, null, node}
use snuffleupagus.Zval.{Zval, Items, SpPhpType, type_of}

-- What the runtime reads of a request. `get_var` is `sp_get_var_value` on a stack,
-- `fatal_errors` says whether `sp_log_err` ends the request,
-- `file_hash` gives the digits that `compute_hash` writes, none if the file cannot be opened; `sapi_addr`, `remote_addr` and
-- `forwarded` are REMOTE_ADDR of the SAPI, and REMOTE_ADDR and HTTP_X_FORWARDED_FOR of the process.
pub record Request : Type 0 where
  pub texts : Texts
  pub inet : Inet
  pub get_var : List Frame → SpTree → Bool → Option Zval
  pub line : ℕ
  pub sapi_addr : Option Bytes
  pub remote_addr : Option Bytes
  pub forwarded : Option Bytes
  pub file_hash : Bytes → Option Bytes
  pub fatal_errors : Bool

abbrev pub type_number : SpPhpType → ℕ
type_number SpPhpType.undef = 0
type_number SpPhpType.null = 1
type_number SpPhpType.false = 2
type_number SpPhpType.true = 3
type_number SpPhpType.long = 4
type_number SpPhpType.double = 5
type_number SpPhpType.string = 6
type_number SpPhpType.array = 7
type_number SpPhpType.object = 8
type_number SpPhpType.resource = 9
type_number SpPhpType.reference = 10

abbrev pub is_tree : SpTree → Bool
is_tree null = false
is_tree (node _ _ _ _) = true

-- ZEND_USER_CODE.
abbrev user_code : Option Func → Bool
user_code none = false
user_code (some f) = elim (f.type) [ FuncType.internal ↦ false | _ ↦ true ]

abbrev file_of : Option Func → Option Bytes
file_of none = none
file_of (some f) = some f.filename

-- ITERATE: the file of the next frame with user code, none at the end of the stack.
pub user_file : List Frame → Option Bytes
user_file [] = none
user_file (ex ∷ prev) = if user_code ex.func then file_of ex.func else user_file prev

abbrev pub caller_file : List Frame → Option Bytes
unfolding user_file
caller_file [] = none
caller_file (ex ∷ prev) = user_file prev

abbrev pub holds : (Bytes → Bool) → Option Bytes → Bool
holds test none = false
holds test (some file) = test file

-- `strncmp(a, b, SHA256_SIZE) == 0`.
abbrev pub same_hash : Bytes → Bytes → Bool
same_hash a b = equals (take 32 (c_string a)) (take 32 (c_string b))

abbrev pub is_false : Option Bool → Bool
is_false (some false) = true
is_false _ = false

abbrev pub first_set : Option Bytes → Bytes → Bytes
first_set none default = default
first_set (some s) default = s

-- `get_ipaddr` of src/sp_utils.c. An address of the SAPI counts if it fits into 64 bytes.
unfoldable pub get_ipaddr : Option Bytes → Option Bytes → Option Bytes → Bytes
get_ipaddr (some sapi) remote forwarded =
    if ltb 0 (length sapi) && ltb (length sapi) 64
    then sapi
    else first_set remote (first_set forwarded (codes "0.0.0.0"))
get_ipaddr none remote forwarded = first_set remote (first_set forwarded (codes "0.0.0.0"))

module _ (req : Request) where
  abbrev pub regexp_matches : SpRegexp → Bytes → Bool
  regexp_matches rx s = req.texts.matches rx.pattern s

  -- The tests of a value against the key or the value of a rule.
  unfoldable pub content_matches : SpDisabledFunction → Zval → Bool
  content_matches df (Zval.array items) =
      if is_set df.key || is_set df.r_key
      then sp_match_array_key req.texts df.key df.r_key items
      else sp_match_array_value req.texts df.value df.r_value items
  content_matches df value =
      sp_match_value req.texts (sp_zval_to_zend_string req.texts value) df.value df.r_value

  abbrev value_matches : SpDisabledFunction → Option Zval → Bool
  unfolding content_matches
  value_matches df none = false
  value_matches df (some value) = content_matches df value

  unfoldable pub is_local_var_matching : List Frame → SpDisabledFunction → Bool
  unfolding content_matches
  is_local_var_matching frames df = value_matches df (req.get_var frames df.var false)

  -- The loop over the arguments: the last one whose name fits.
  last_named : SpRegexp → Func → ℕ → List Zval → Option Zval → Option Zval
  last_named rx f i [] found = found
  last_named rx f i (arg ∷ args) found =
      last_named rx f (i + 1) args (if regexp_matches rx (f.arg_name i) then some arg else found)

  abbrev named_argument : Func → List Zval → Option SpRegexp → Option Zval
  unfolding last_named
  named_argument f args none = none
  named_argument f args (some rx) = last_named rx f 0 args none

  -- The argument that a rule is about.
  unfoldable pub argument : List Frame → Func → List Zval → SpDisabledFunction → Option Zval
  unfolding last_named
  argument frames f args df = elim (df.position) [
    | pos n ↦ get_elem? args n
    | negsuc _ ↦
        if is_tree df.param
        then req.get_var frames df.param true
        else named_argument f args df.r_param
  ]

  -- `pos > call_num_args - 1 || pos > fn_num_args`.
  abbrev beyond : ℤ → ℕ → ℕ → Bool
  beyond (negsuc _) given declared = false
  beyond (pos n) given declared = leb given n || ltb declared n

  abbrev typed : SpDisabledFunction → Zval → Bool
  unfolding content_matches
  typed df value =
      if has_type df.param_type
      then (if type_number df.param_type == type_number (type_of value)
          then not (is_set df.key || is_set df.r_key || is_set df.value || is_set df.r_value)
            || content_matches df value
          else false)
      else content_matches df value

  abbrev argument_matches : SpDisabledFunction → Option Zval → Bool
  unfolding content_matches
  argument_matches df none = false
  argument_matches df (some value) = typed df value

  abbrev call_matches : List Frame → Option Func → List Zval → SpDisabledFunction → Bool
  unfolding argument content_matches
  call_matches frames none args df = false
  call_matches frames (some f) args df =
      not (length args == 0)
      && not (beyond df.position (length args) f.num_args)
      && argument_matches df (argument frames f args df)

  unfoldable pub is_param_matching : List Frame → SpDisabledFunction → Option Bytes → Bool
  unfolding argument content_matches
  is_param_matching frames df (some param) = sp_match_value req.texts param df.value df.r_value
  is_param_matching [] df none = false
  is_param_matching (ex ∷ prev) df none = call_matches (ex ∷ prev) ex.func ex.args df
