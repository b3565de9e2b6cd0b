-- ===== src/VarValue.antt =====
-- src/sp_var_value.c: the value of a variable of a rule, on the stack of PHP. PHP's tables are
-- parameters, and hold values, not the IS_INDIRECT or IS_PTR that leads to one. Warnings are left out.
pub mod Paths
use snuffleupagus.Base.{
  ℕ, zero, suc, ◌+◌, Bool, true, false, not, List, [], ◌∷◌, ◌++◌, Option, none, some, ◌==◌,
  if◌then◌else◌, get_elem?, Bytes, codes, equals, c_string,
}
use snuffleupagus.Frames.{Frame, Func, FuncType}
use snuffleupagus.Match.{Texts, sp_zval_to_zend_string}
use snuffleupagus.SpTree.{ElemType, SpTree, null, node}
use snuffleupagus.Zval.{Zval, Items, Key}

-- `zend_get_constant_ex`, the symbol table of a frame, the class and the properties of an object, and
-- the classes with their constants, each by its number; `atol` as an unsigned number;
-- and `beyond`, what is found in the memory behind the arguments of an internal function.
pub record Php : Type 0 where
  pub constant : Bytes → Option Zval
  pub symbol_table : Frame → Option (List (Bytes × Zval))
  pub class_name : ℕ → Bytes
  pub properties : ℕ → Items
  pub lookup_class : Bytes → Option ℕ
  pub constants_table : ℕ → Items
  pub atol : Bytes → ℕ
  pub beyond : List Zval → ℕ → Zval

abbrev or_else : Option Zval → Option Zval → Option Zval
or_else none b = b
or_else (some a) b = some a

abbrev pub is_key : Key → Bytes → Bool
unfolding equals
is_key (Key.str s) name = equals s name
is_key (Key.idx i) name = false

abbrev is_index : Key → ℕ → Bool
is_index (Key.str s) n = false
is_index (Key.idx i) n = i == n

-- `zend_hash_str_find` and `zend_hash_index_find`.
unfoldable pub str_find : Items → Bytes → Option Zval
unfolding is_key
str_find Items.nil name = none
str_find (Items.item k v rest) name = if is_key k name then some v else str_find rest name

unfoldable pub index_find : Items → ℕ → Option Zval
index_find Items.nil n = none
index_find (Items.item k v rest) n = if is_index k n then some v else index_find rest n

abbrev first_named : Bytes → List (Bytes × Zval) → Option Zval
unfolding equals
first_named name [] = none
first_named name ((k, v) ∷ table) = if equals name k then some v else first_named name table

-- `ZEND_CALL_VAR_NUM` has no check. A function in PHP code has a slot for each parameter, which is
-- undefined without an argument; an internal function has slots for its arguments only.
abbrev no_argument : Php → FuncType → List Zval → ℕ → Zval
no_argument php FuncType.internal args i = php.beyond args i
no_argument php _ args i = Zval.undef

abbrev pub argument_at : Php → Func → List Zval → ℕ → Zval
argument_at php f args i = elim (get_elem? args i) [
  | none ↦ no_argument php f.type args i
  | some v ↦ v
]

-- The loop of `get_param_var`, with the rounds that are left.
unfoldable pub param_from : Php → Func → List Zval → Bytes → ℕ → ℕ → Option Zval
unfolding equals
param_from php f args name i zero = none
param_from php f args name i (suc rounds) =
    if equals (f.arg_name i) name
    then some (argument_at php f args i)
    else param_from php f args name (i + 1) rounds

abbrev param_of : Php → Option Func → List Zval → Bytes → Option Zval
unfolding param_from
param_of php none args name = none
param_of php (some f) args name = param_from php f args name 0 f.num_args

unfoldable pub get_param_var : Php → List Frame → Bytes → Option Zval
unfolding param_of
get_param_var php [] name = none
get_param_var php (ed ∷ _) name = param_of php ed.func ed.args name

module _ (texts : Texts) (php : Php) where
  -- The frames outwards; one without a symbol table ends the search.
  abbrev in_table : Option Zval → Option (List (Bytes × Zval)) → Bytes → Option Zval
  unfolding first_named
  in_table outer none name = none
  in_table outer (some table) name = or_else (first_named name table) outer

  unfoldable pub get_local_var : List Frame → Bytes → Option Zval
  unfolding in_table
  get_local_var [] name = none
  get_local_var (current ∷ prev) name =
      in_table (get_local_var prev name) (php.symbol_table current) name

  -- The `$` tells variables from constants.
  unfoldable pub get_var_value : List Frame → Bytes → Bool → Option Zval
  unfolding get_param_var get_local_var
  get_var_value ed [] is_param = php.constant []
  get_var_value ed (c ∷ name) is_param =
      if not (c == b'$')
      then php.constant (c ∷ name)
      else if is_param
      then get_param_var php ed name
      else get_local_var ed name

  unfoldable pub get_entry_hashtable : Items → Bytes → Option Zval
  unfolding str_find index_find c_string
  get_entry_hashtable ht entry =
      or_else (str_find ht entry) (index_find ht (php.atol (c_string entry)))

  -- The value of the index is NULL for one that has no value.
  unfoldable pub get_array_value : Option Zval → Option Zval → Option Zval
  unfolding get_entry_hashtable sp_zval_to_zend_string
  get_array_value (some (Zval.array items)) (some idx_value) =
      get_entry_hashtable items (sp_zval_to_zend_string texts idx_value)
  get_array_value _ _ = none

  -- A property under its name, and as a protected or a private one.
  unfoldable pub property_of : ℕ → Bytes → Option Zval
  unfolding get_entry_hashtable
  property_of object property = or_else (get_entry_hashtable (php.properties object) property) (
      or_else (get_entry_hashtable (php.properties object) (0 ∷ b'*' ∷ 0 ∷ property))
        (get_entry_hashtable (php.properties object) (0 ∷ (php.class_name object ++ 0 ∷ property))))

  -- `property_val`: a variable for the name of the property has to hold a string.
  abbrev named_property : ℕ → Bytes → Option Zval → Option Zval
  unfolding property_of
  named_property object property none = property_of object property
  named_property object property (some (Zval.string s)) = property_of object (c_string s)
  named_property object property (some _) = none

  unfoldable pub get_object_property : List Frame → ℕ → Bytes → Bool → Option Zval
  unfolding named_property get_var_value c_string
  get_object_property ed object property is_param =
      named_property object property (get_var_value ed property is_param)

  -- `zvalue` and `ce` behind a node; none is a `return NULL`.
  abbrev Found : Type 0
  Found = Option (Option Zval × Option ℕ)

  abbrev is_constant : ElemType → Bool
  is_constant ElemType.constant = true
  is_constant _ = false

  unfoldable pub get_unknown_type :
      ElemType → Bytes → Option Zval → Option ℕ → List Frame → Bool → Option Zval
  unfolding get_entry_hashtable get_object_property
  get_unknown_type type value zvalue (some ce) ed is_param =
      get_entry_hashtable (php.constants_table ce) value
  get_unknown_type type value (some (Zval.object o)) none ed is_param =
      get_object_property ed o value is_param
  get_unknown_type type value none none ed is_param =
      or_else (if is_constant type then php.constant value else none) (some (Zval.string value))
  get_unknown_type type value (some _) none ed is_param = none

  -- What an index is looked up in.
  unfoldable pub array_base : Bytes → Option Zval → Option ℕ → List Frame → Bool → Option Zval
  unfolding get_entry_hashtable get_var_value get_object_property
  array_base value zvalue (some ce) ed is_param = get_entry_hashtable (php.constants_table ce) value
  array_base value none none ed is_param = get_var_value ed value is_param
  array_base value (some (Zval.object o)) none ed is_param = get_object_property ed o value is_param
  array_base value (some v) none ed is_param = some v

  -- The `switch` at a node; `idx_value` is the value of its index.
  unfoldable pub at_node :
      ElemType → Bytes → Option Zval → Option Zval → Option ℕ → List Frame → Bool → Found
  unfolding array_base get_array_value get_object_property get_var_value get_unknown_type
  at_node ElemType.array value idx_value zvalue ce ed is_param =
      some (get_array_value (array_base value zvalue ce ed is_param) idx_value, none)
  at_node ElemType.var value idx_value (some (Zval.object o)) ce ed is_param =
      some (get_object_property ed o value is_param, ce)
  at_node ElemType.var value idx_value zvalue ce ed is_param =
      some (get_var_value ed value is_param, ce)
  at_node ElemType.object value idx_value none ce ed is_param =
      some (get_var_value ed value is_param, ce)
  at_node ElemType.object [] idx_value (some (Zval.object o)) ce ed is_param =
      some (some (Zval.object o), ce)
  at_node ElemType.object (c ∷ value) idx_value (some (Zval.object o)) ce ed is_param =
      some (get_object_property ed o (c ∷ value) is_param, ce)
  at_node ElemType.object value idx_value (some _) ce ed is_param = none
  at_node ElemType.class value idx_value zvalue ce ed is_param = some (none, php.lookup_class value)
  at_node type value idx_value zvalue ce ed is_param =
      some (get_unknown_type type value zvalue ce ed is_param, none)

  abbrev go_on : (Option Zval → Option ℕ → Option Zval) → Found → Option Zval
  go_on rest none = none
  go_on rest (some (none, none)) = none
  go_on rest (some (zvalue, ce)) = rest zvalue ce

  -- The loop over the nodes.
  unfoldable pub walk : List Frame → Bool → SpTree → Option Zval → Option ℕ → Option Zval
  unfolding at_node
  walk ed is_param null zvalue ce = zvalue
  walk ed is_param (node type value idx next) zvalue ce =
      go_on (walk ed is_param next)
        (at_node type value (walk ed false idx none none) zvalue ce ed is_param)

  unfoldable pub sp_get_var_value : List Frame → SpTree → Bool → Option Zval
  unfolding walk
  sp_get_var_value ed tree is_param = walk ed is_param tree none none
