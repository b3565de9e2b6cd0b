-- ===== src/Dump/Rules.antt =====
-- The rules of `sp.disable_function` in the dump of src/snuffleupagus.c.
use mathlib.Core.Path.{subst}
use mathlib.Core.List.{append_assoc, append-nil}
use snuffleupagus.Base.{
  ℕ, ◌+◌, ◌≡◌, refl, sym, ap, ◌∙◌, arith, ℤ, List, [], ◌∷◌, ◌++◌, Option, some, Bytes, codes,
  length, length-append, equals_refl,
}
use snuffleupagus.Dump.{
  add_assoc, add_last, add_next_index, count, array_of, df_calls, Dumped, add_df_to_arr, add_rules,
  add_table, dump_rules, rules_value, dump_config, each,
}
use snuffleupagus.Globals.{SpGlobals, SpDisabledFunction, DisabledTable}
use snuffleupagus.Network.{Address}
use snuffleupagus.VarValue.{str_find}
use snuffleupagus.Zval.{Key, Zval, Items, SpPhpType}

-- Every value under its number.
abbrev pub numbered : ℕ → List Zval → Items
numbered n [] = Items.nil
numbered n (v ∷ vs) = Items.item (Key.idx n) v (numbered (n + 1) vs)

-- The rules in the order of the dump: those on calls and on returns by function, then the others.
abbrev pub rules_in : DisabledTable → List SpDisabledFunction
rules_in [] = []
rules_in ((_, dfs) ∷ table) = dfs ++ rules_in table

abbrev pub dumped_rules : SpGlobals → List SpDisabledFunction
dumped_rules g =
    rules_in g.disabled_functions
    ++ (rules_in g.disabled_functions_ret
        ++ (g.disabled_functions_reg ++ g.disabled_functions_reg_ret))

str_find-add_assoc :
    (key : Bytes) (v : Zval) (arr : Items) → str_find (add_assoc key v arr) key ≡ some v
unfolding str_find add_assoc
str_find-add_assoc key v Items.nil = ground (arith, equals_refl key)
str_find-add_assoc key v (Items.item k old rest) = ground (arith, str_find-add_assoc key v rest)

count-numbered : (n : ℕ) (vs : List Zval) → count (numbered n vs) ≡ length vs
unfolding count
count-numbered n [] = refl
count-numbered n (v ∷ vs) = omega (arith, count-numbered (n + 1) vs)

add_last-numbered :
    (n : ℕ) (vs : List Zval) (v : Zval)
    → add_last (Key.idx (n + length vs)) v (numbered n vs) ≡ numbered n (vs ++ v ∷ [])
unfolding add_last
add_last-numbered n [] v = ap (λ (m : ℕ). Items.item (Key.idx m) v Items.nil) (omega arith)
add_last-numbered n (w ∷ vs) v = ap (Items.item (Key.idx n) w) (
    ap (λ (m : ℕ). add_last (Key.idx m) v (numbered (n + 1) vs)) (omega arith)
    ∙ add_last-numbered (n + 1) vs v)

zero_add : (n : ℕ) → 0 + n ≡ n
zero_add n = omega arith

add_next_index-numbered :
    (vs : List Zval) (v : Zval) → add_next_index v (numbered 0 vs) ≡ numbered 0 (vs ++ v ∷ [])
unfolding add_next_index
add_next_index-numbered vs v =
    ap (λ (n : ℕ). add_last (Key.idx n) v (numbered 0 vs))
      (count-numbered 0 vs ∙ sym (zero_add (length vs)))
    ∙ add_last-numbered 0 vs v

each-append :
    {A : Type 0} (f : A → Zval) (xs bs : List A) → each f (xs ++ bs) ≡ each f xs ++ each f bs
each-append f [] bs = refl
each-append f (a ∷ xs) bs = ap (◌∷◌ (f a)) (each-append f xs bs)

module _ (ntop : Address → Option Bytes) (type_number : SpPhpType → ℤ) where
  abbrev pub rule_value : SpDisabledFunction → Zval
  unfolding df_calls
  rule_value df = array_of (df_calls ntop type_number) df

  -- An array of rules as the dump builds it.
  abbrev Holds : Dumped → List SpDisabledFunction → Type 0
  Holds d dfs = d ≡ (numbered 0 (each rule_value dfs), length dfs)

  add_df_to_arr-Holds :
      (df : SpDisabledFunction) (before : List SpDisabledFunction)
      → Holds
          (
            add_df_to_arr ntop type_number df (numbered 0 (each rule_value before)),
            length before + 1,
          )
          (before ++ df ∷ [])
  unfolding add_df_to_arr
  add_df_to_arr-Holds df before =
      ap (λ arr. (arr, length before + 1))
        (add_next_index-numbered (each rule_value before) (rule_value df)
          ∙ ap (numbered 0) (sym (each-append rule_value before (df ∷ []))))
      ∙ ap (λ (n : ℕ). (numbered 0 (each rule_value (before ++ df ∷ [])), n))
          (sym (length-append before (df ∷ [])))

  add_rules-Holds :
      (dfs before : List SpDisabledFunction) (d : Dumped)
      → Holds d before
      → Holds (add_rules ntop type_number dfs d) (before ++ dfs)
  unfolding add_rules
  add_rules-Holds [] before d h = rw (append-nil before) h
  add_rules-Holds (df ∷ dfs) before d h = rw⁻¹ (append_assoc before (df ∷ []) dfs) (
      ap (add_rules ntop type_number (df ∷ dfs)) h
      ∙ add_rules-Holds dfs (before ++ df ∷ [])
          (
            add_df_to_arr ntop type_number df (numbered 0 (each rule_value before)),
            length before + 1,
          )
          (add_df_to_arr-Holds df before))

  add_table-Holds :
      (table : DisabledTable) (before : List SpDisabledFunction) (d : Dumped)
      → Holds d before
      → Holds (add_table ntop type_number table d) (before ++ rules_in table)
  unfolding add_table
  add_table-Holds [] before d h = rw (append-nil before) h
  add_table-Holds ((name, dfs) ∷ table) before d h =
      rw⁻¹ (append_assoc before dfs (rules_in table)) (
        add_table-Holds table (before ++ dfs) (add_rules ntop type_number dfs d)
          (add_rules-Holds dfs before d h))

  dump_rules-Holds : (g : SpGlobals) → Holds (dump_rules ntop type_number g) (dumped_rules g)
  unfolding dump_rules
  dump_rules-Holds g =
      let a = rules_in g.disabled_functions in
      let b = rules_in g.disabled_functions_ret in
      let c = g.disabled_functions_reg in
      let d = g.disabled_functions_reg_ret in
      subst (Holds (dump_rules ntop type_number g))
        (append_assoc (a ++ b) c d ∙ append_assoc a b (c ++ d))
        (add_rules-Holds d ((a ++ b) ++ c) _ (
          add_rules-Holds c (a ++ b) _ (
            add_table-Holds g.disabled_functions_ret a _
              (add_table-Holds g.disabled_functions [] (Items.nil, 0) refl))))

  -- NULL with no rule, and else an array of them all.
  abbrev pub listed : List Zval → Zval
  listed [] = Zval.null
  listed (v ∷ vs) = Zval.array (numbered 0 (v ∷ vs))

  rules_value-listed :
      (dfs : List SpDisabledFunction) (d : Dumped)
      → Holds d dfs
      → rules_value d ≡ listed (each rule_value dfs)
  rules_value-listed [] d h = ap rules_value h
  rules_value-listed (df ∷ dfs) d h = ap rules_value h ∙ ground arith

  -- The dump has under `disable_function` every rule of the four tables once, numbered from 0 in the
  -- order of the tables, and NULL if there is no rule.
  pub dump_config-rules :
      (g : SpGlobals)
      → str_find (dump_config ntop type_number g) (codes "disable_function")
        ≡ some (listed (each rule_value (dumped_rules g)))
  unfolding dump_config
  dump_config-rules g =
      str_find-add_assoc _ _ _
      ∙ ap some
          (rules_value-listed (dumped_rules g) (dump_rules ntop type_number g) (dump_rules-Holds g))
