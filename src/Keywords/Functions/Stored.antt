-- ===== src/Keywords/Functions/Stored.antt =====
-- What the tables of disabled functions hold.
use mathlib.Core.Option.{some-injective}
use mathlib.Core.Path.{subst}
use snuffleupagus.Base.{
  ◌≡◌, refl, ◌⊎◌, inl, inr, Bool, true, false, ◌||◌, List, [], ◌∷◌, Option, none, some, is_set,
  Bytes, equals, equals_iff, Bool-cases, All, arith,
}
use snuffleupagus.Config.{ZendResult, SpParsedKeyword, sp_process_rule}
use snuffleupagus.Globals.{SpGlobals, Libs, SpDisabledFunction, DisabledTable}
use snuffleupagus.Keywords.FunctionTable.{FunctionRule, new_function_rule, function_keywords}
use snuffleupagus.Keywords.Functions.{
  is_exclusive, is_call_or_return, is_complete, on_return, has_position, target,
  add_df_to_hashtable, file_under, build, checked_rule, file, finish_function,
  parse_disabled_functions, with_echo,
}
use snuffleupagus.SpList.{sp_list_insert}
use snuffleupagus.SpTree.{SpTree}

-- At most one of two.
abbrev AtMostOne : Bool → Bool → Type 0
AtMostOne a b = (a ≡ false) ⊎ (b ≡ false)

-- What the runtime relies on: a rule has one function or one expression, and looks either at the
-- value that is returned or at the arguments.
pub record IsWellFormed (df : SpDisabledFunction) : Type 0 where
  pub one_function : AtMostOne (is_set df.function) (is_set df.r_function)
  pub some_function : is_set df.function || is_set df.r_function ≡ true
  pub one_filename : AtMostOne (is_set df.filename) (is_set df.r_filename)
  pub one_value : AtMostOne (is_set df.value) (is_set df.r_value)
  pub key_or_value :
      AtMostOne (is_set df.key || is_set df.r_key) (is_set df.value || is_set df.r_value)
  pub argument_or_position : AtMostOne (has_position df.position) (is_set df.r_param)
  pub ret_or_value : AtMostOne (on_return df) (is_set df.value || is_set df.r_value)

-- A rule filed under a name: it is well formed, for a call or a return, and the name is its target.
abbrev pub IsFiled : Bool → Option Bytes → SpDisabledFunction → Type 0
IsFiled ret key df =
    IsWellFormed df × (on_return df ≡ ret) × (target df.functions_list df.function ≡ key)

abbrev pub TableFiled : Bool → DisabledTable → Type 0
TableFiled ret ht = All (λ entry. All (IsFiled ret (some entry.0)) entry.1) ht

pub record IsIndexed (s : SpGlobals) : Type 0 where
  pub calls : TableFiled false s.disabled_functions
  pub returns : TableFiled true s.disabled_functions_ret
  pub call_patterns : All (IsFiled false none) s.disabled_functions_reg
  pub return_patterns : All (IsFiled true none) s.disabled_functions_reg_ret

All-insert :
    {A : Type 0} (P : A → Type 0) (list : List A) (d : A)
    → All P list
    → P d
    → All P (sp_list_insert list d)
unfolding sp_list_insert
All-insert P [] d h p = (p, tt)
All-insert P (x ∷ list) d (q, h) p = (q, All-insert P list d h p)

TableFiled-add :
    (ret : Bool) (ht : DisabledTable) (key : Bytes) (df : SpDisabledFunction)
    → TableFiled ret ht
    → IsFiled ret (some key) df
    → TableFiled ret (add_df_to_hashtable ht key df)
unfolding add_df_to_hashtable
TableFiled-add ret [] key df h filed = ((All-insert (IsFiled ret (some key)) [] df tt filed), tt)
TableFiled-add ret ((name, list) ∷ ht) key df (h, hs) filed = elim (Bool-cases (equals name key)) [
  | inl e ↦
      rw e
        (All-insert (IsFiled ret (some name)) list df h (rw ((equals_iff name key).0 e) filed), hs)
  | inr e ↦ rw e (h, TableFiled-add ret ht key df hs filed)
]

IsIndexed-file_under :
    (df : SpDisabledFunction) (s : SpGlobals) (key : Option Bytes)
    → IsWellFormed df
    → target df.functions_list df.function ≡ key
    → IsIndexed s
    → IsIndexed (file_under key df s)
IsIndexed-file_under df s (some key) well keyed h = elim (Bool-cases (on_return df)) [
  | inl e ↦ rw e (record {
    calls = h.calls;
    returns = TableFiled-add true s.disabled_functions_ret key df h.returns (well, e, keyed);
    call_patterns = h.call_patterns;
    return_patterns = h.return_patterns;
  })
  | inr e ↦ rw e (record {
    calls = TableFiled-add false s.disabled_functions key df h.calls (well, e, keyed);
    returns = h.returns;
    call_patterns = h.call_patterns;
    return_patterns = h.return_patterns;
  })
]
IsIndexed-file_under df s none well keyed h = elim (Bool-cases (on_return df)) [
  | inl e ↦ rw e (record {
    calls = h.calls;
    returns = h.returns;
    call_patterns = h.call_patterns;
    return_patterns =
        All-insert (IsFiled true none) s.disabled_functions_reg_ret df h.return_patterns
          (well, e, keyed);
  })
  | inr e ↦ rw e (record {
    calls = h.calls;
    returns = h.returns;
    call_patterns =
        All-insert (IsFiled false none) s.disabled_functions_reg df h.call_patterns
          (well, e, keyed);
    return_patterns = h.return_patterns;
  })
]

is_set-with_echo : (name : Option Bytes) → is_set (with_echo name) ≡ is_set name
is_set-with_echo none = refl
is_set-with_echo (some name) = ground arith

-- The checks of the source, on the fields that the runtime reads.
IsWellFormed-build :
    (parse_var : Bytes → SpTree) (text : List SpParsedKeyword) (r : FunctionRule)
    (param var : SpTree) (df : SpDisabledFunction)
    → is_exclusive r ≡ true
    → is_call_or_return r ≡ true
    → is_complete r ≡ true
    → build parse_var text r (some param) (some var) ≡ some df
    → IsWellFormed df
unfolding build is_exclusive is_call_or_return is_complete
IsWellFormed-build parse_var text r param var df x y c b =
    subst IsWellFormed (some-injective _ _ b) (record {
      one_function = rw (is_set-with_echo r.df.function) (ground arith);
      some_function = rw (is_set-with_echo r.df.function) (ground arith);
      one_filename = ground arith;
      one_value = ground arith;
      key_or_value = ground arith;
      argument_or_position = ground arith;
      ret_or_value = ground arith;
    })

IsIndexed-file :
    (parse_var : Bytes → SpTree) (text : List SpParsedKeyword) (r : FunctionRule)
    (param var : Option SpTree) (s : SpGlobals)
    → is_exclusive r ≡ true
    → is_call_or_return r ≡ true
    → is_complete r ≡ true
    → IsIndexed s
    → IsIndexed (file parse_var (build parse_var text r param var) s).1
unfolding file build
IsIndexed-file parse_var text r (some param) (some var) s x y c h =
    IsIndexed-file_under _ s _ (IsWellFormed-build parse_var text r param var _ x y c refl) refl h
IsIndexed-file parse_var text r none var s x y c h = h
IsIndexed-file parse_var text r (some param) none s x y c h = h

IsIndexed-checked_rule :
    (parse_var : Bytes → SpTree) (text : List SpParsedKeyword) (r : FunctionRule) (s : SpGlobals)
    → IsIndexed s
    → IsIndexed (file parse_var (checked_rule parse_var text r) s).1
unfolding checked_rule file
IsIndexed-checked_rule parse_var text r s h = elim (Bool-cases (is_exclusive r)) [
  | inr x ↦ rw x h
  | inl x ↦ elim (Bool-cases (is_call_or_return r)) [
    | inr y ↦ rw (x, y) h
    | inl y ↦ elim (Bool-cases (is_complete r)) [
      | inr c ↦ rw (x, y, c) h
      | inl c ↦ rw (x, y, c) (IsIndexed-file parse_var text r _ _ s x y c h)
    ]
  ]
]

IsIndexed-finish_function :
    (parse_var : Bytes → SpTree) (text : List SpParsedKeyword) (r : ZendResult × FunctionRule)
    (s : SpGlobals)
    → IsIndexed s
    → IsIndexed (finish_function parse_var text r s).1
unfolding finish_function
IsIndexed-finish_function parse_var text (ZendResult.failed, r) s h = h
IsIndexed-finish_function parse_var text (ZendResult.succeeded, r) s h =
    elim (Bool-cases r.disable) [
      | inl d ↦ elim (Bool-cases r.enable) [ inl e ↦ rw (d, e) h | inr e ↦ rw (d, e) h ]
      | inr d ↦ elim (Bool-cases r.enable) [
        | inl e ↦ rw (d, e) (IsIndexed-checked_rule parse_var text r s h)
        | inr e ↦ rw (d, e) (IsIndexed-checked_rule parse_var text r s h)
      ]
    ]

-- Whatever a rule of `sp.disable_function` says, reading it keeps the tables of disabled functions
-- right: every rule in them has either a function or an expression for one, at most one of a file
-- name and an expression for it, of a value and an expression for it, of a key and a value, of a
-- position and an expression for a parameter, and of a test of the returned value and a value; it
-- stands with the rules for returns exactly if it has a test of the returned value; and it is filed
-- under the last function of its chain, or else under its function, if it has one.
pub parse_disabled_functions-IsIndexed :
    (parse_var : Bytes → SpTree) (libs : Libs) (k : SpParsedKeyword) (rule : List SpParsedKeyword)
    (s : SpGlobals)
    → IsIndexed s
    → IsIndexed (parse_disabled_functions parse_var libs k rule s).1
unfolding parse_disabled_functions
parse_disabled_functions-IsIndexed parse_var libs k rule s h =
    IsIndexed-finish_function parse_var (k ∷ rule)
      (sp_process_rule (function_keywords libs) rule new_function_rule) s h
