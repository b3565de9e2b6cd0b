-- ===== src/VarValue/Paths.antt =====
-- The values of parameters and of nested indices.
use mathlib.Core.Path.{subst}
use snuffleupagus.Base.{
  ℕ, zero, suc, ◌+◌, ◌≤◌, ◌<◌, ◌≡◌, ◌≢◌, ◌↔◌, refl, sym, ap, ◌∙◌, arith, Bool, true, false, List,
  [], ◌∷◌, Option, none, some, map, Bytes, equals, equals_iff, Bool-cases, inl, inr, ◌==◌, ==_iff,
}
use snuffleupagus.Frames.{Frame, Func}
use snuffleupagus.Match.{Texts}
use snuffleupagus.SpTree.{ElemType, SpTree, null, node}
use snuffleupagus.VarValue.{
  Php, argument_at, param_from, get_param_var, get_var_value, get_array_value, get_object_property,
  array_base, at_node, go_on, walk, sp_get_var_value,
}
use snuffleupagus.Zval.{Zval}

-- The index of the first parameter of a name, from an index on.
pub record FirstFrom (f : Func) (name : Bytes) (from to : ℕ) (i : ℕ) : Type 0 where
  pub from_here : from ≤ i
  pub declared : i < to
  pub is_name : f.arg_name i ≡ name
  pub first : (j : ℕ) → from ≤ j → j < i → f.arg_name j ≢ name

abbrev pub Argument : Php → Func → List Zval → Bytes → ℕ → ℕ → Zval → Type 0
Argument php f args name from to v =
    (i : ℕ) × FirstFrom f name from to i × (argument_at php f args i ≡ v)

zero_add : (n : ℕ) → 0 + n ≡ n
zero_add n = omega arith

-- What the first index from `i + 1` on says of those from `i` on, and the other way.
FirstFrom-extend :
    (f : Func) (name : Bytes) (i rounds k : ℕ)
    → equals (f.arg_name i) name ≡ false
    → FirstFrom f name (i + 1) (i + 1 + rounds) k
    → FirstFrom f name i (i + suc rounds) k
FirstFrom-extend f name i rounds k q b = record {
  from_here = omega arith;
  declared = omega arith;
  is_name = b.is_name;
  first = λ j a l. elim (Bool-cases (i == j)) [
    | inl s ↦ λ h. cc ((equals_iff (f.arg_name i) name).1 (ap f.arg_name ((==_iff i j).0 s) ∙ h))
    | inr s ↦ b.first j (ground arith) l
  ];
}

FirstFrom-here :
    (f : Func) (name : Bytes) (i rounds k : ℕ)
    → f.arg_name i ≡ name
    → FirstFrom f name i (i + suc rounds) k
    → i ≡ k
FirstFrom-here f name i rounds k h b = elim (Bool-cases (i == k)) [
  | inl s ↦ (==_iff i k).0 s
  | inr s ↦ absurd (b.first i (omega arith) (later i k s b.from_here) h)
]
  where
    later : (i k : ℕ) → i == k ≡ false → i ≤ k → i < k
    later i k s h = ground arith

FirstFrom-later :
    (f : Func) (name : Bytes) (i rounds k : ℕ)
    → equals (f.arg_name i) name ≡ false
    → FirstFrom f name i (i + suc rounds) k
    → FirstFrom f name (i + 1) (i + 1 + rounds) k
FirstFrom-later f name i rounds k q b = record {
  from_here = elim (Bool-cases (i == k)) [
    | inl s ↦
        absurd
          (cc ((equals_iff (f.arg_name i) name).1 (ap f.arg_name ((==_iff i k).0 s) ∙ b.is_name)))
    | inr s ↦ later i k s b.from_here
  ];
  declared = omega arith;
  is_name = b.is_name;
  first = λ j a l. b.first j (omega arith) l;
}
  where
    later : (i k : ℕ) → i == k ≡ false → i ≤ k → i + 1 ≤ k
    later i k s h = ground arith

param_from-first :
    (php : Php) (f : Func) (args : List Zval) (name : Bytes) (i rounds : ℕ) (v : Zval)
    → param_from php f args name i rounds ≡ some v
    → Argument php f args name i (i + rounds) v
unfolding param_from
param_from-first php f args name i zero v h = cc
param_from-first php f args name i (suc rounds) v h =
    elim (Bool-cases (equals (f.arg_name i) name)) [
      | inl q ↦ (
        i,
        record {
          from_here = omega arith;
          declared = omega arith;
          is_name = (equals_iff (f.arg_name i) name).0 q;
          first = λ j a b. absurd (omega arith);
        },
        cc (rw q at h),
      )
      | inr q ↦
          let (k, b, e) = param_from-first php f args name (i + 1) rounds v (rw q at h) in
          (k, FirstFrom-extend f name i rounds k q b, e)
    ]

param_from-found :
    (php : Php) (f : Func) (args : List Zval) (name : Bytes) (i rounds : ℕ) (v : Zval)
    → Argument php f args name i (i + rounds) v
    → param_from php f args name i rounds ≡ some v
unfolding param_from
param_from-found php f args name i zero v (k, b, e) = absurd (omega arith)
param_from-found php f args name i (suc rounds) v (k, b, e) =
    elim (Bool-cases (equals (f.arg_name i) name)) [
      | inl q ↦ rw q (
          ap some (
            ap (argument_at php f args)
              (FirstFrom-here f name i rounds k ((equals_iff (f.arg_name i) name).0 q) b)
            ∙ e))
      | inr q ↦ rw q (
          param_from-found php f args name (i + 1) rounds v
            (k, FirstFrom-later f name i rounds k q b, e))
    ]

-- Nested indices as the parser gives them: the nodes behind the first one have no name.
abbrev more : List SpTree → SpTree
more [] = null
more (idx ∷ indices) = node ElemType.array [] idx (more indices)

abbrev pub indexed : Bytes → SpTree → List SpTree → SpTree
indexed name idx indices = node ElemType.array name idx (more indices)

module _ (texts : Texts) (php : Php) where
  -- One lookup behind the other.
  abbrev pub lookups : Option Zval → List (Option Zval) → Option Zval
  lookups z [] = z
  lookups z (k ∷ ks) = lookups (get_array_value texts php z k) ks

  lookups-none : (ks : List (Option Zval)) → lookups none ks ≡ none
  unfolding get_array_value
  lookups-none [] = refl
  lookups-none (k ∷ ks) = lookups-none ks

  module _ (ed : List Frame) (is_param : Bool)
      (unnamed : (o : ℕ) → get_object_property texts php ed o [] is_param ≡ none) where
    base-same :
        (v : Zval) (k : Option Zval)
        → get_array_value texts php (array_base texts php [] (some v) none ed is_param) k
          ≡ get_array_value texts php (some v) k
    unfolding array_base get_array_value
    base-same (Zval.object o) k = rw (unnamed o)
    base-same Zval.null k = refl
    base-same _ k = refl

    abbrev value_of_index : SpTree → Option Zval
    value_of_index idx = sp_get_var_value texts php ed idx false

    walk-more :
        (indices : List SpTree) (z : Option Zval)
        → go_on texts php (walk texts php ed is_param (more indices)) (some (z, none))
          ≡ lookups z (map value_of_index indices)
    unfolding walk sp_get_var_value
    walk-more indices none = sym (lookups-none (map value_of_index indices))
    walk-more [] (some v) = refl
    walk-more (idx ∷ indices) (some v) =
        ap (λ z. go_on texts php (walk texts php ed is_param (more indices)) (some (z, none)))
          (base-same v (value_of_index idx))
        ∙ walk-more indices (get_array_value texts php (some v) (value_of_index idx))

    -- If no object has a property without a name, then a variable with indices has the value that
    -- the lookups give one behind the other, from the variable itself on.
    pub sp_get_var_value-indexed :
        (name : Bytes) (idx : SpTree) (indices : List SpTree)
        → sp_get_var_value texts php ed (indexed name idx indices) is_param
          ≡ lookups (get_var_value texts php ed name is_param) (map value_of_index (idx ∷ indices))
    unfolding sp_get_var_value walk array_base
    sp_get_var_value-indexed name idx indices =
        walk-more indices (
          get_array_value texts php (get_var_value texts php ed name is_param) (value_of_index idx))

  go_null : (z : Option Zval) → go_on texts php (λ z ce. z) (some (z, none)) ≡ z
  go_null none = refl
  go_null (some v) = refl

  -- A parameter of a rule has the value `v` exactly if `v` is the argument at the first declared
  -- parameter of the name. Where the call has no argument there, `v` is undefined for a function in PHP
  -- code, and for an internal function what is found in the memory behind its arguments.
  pub sp_get_var_value-parameter :
      (f : Func) (ed : Frame) (prev : List Frame) (name : Bytes) (v : Zval)
      → ed.func ≡ some f
      → (sp_get_var_value texts php (ed ∷ prev) (node ElemType.var (b'$' ∷ name) null null) true
          ≡ some v)
        ↔ Argument php f ed.args name 0 f.num_args v
  unfolding sp_get_var_value walk at_node get_var_value get_param_var
  sp_get_var_value-parameter f ed prev name v h =
      let found : Option Zval = param_from php f ed.args name 0 f.num_args in
      rw (h, go_null found)
        (
          λ e.
              subst (λ n. Argument php f ed.args name 0 n v) (zero_add f.num_args)
                (param_from-first php f ed.args name 0 f.num_args v e),
          λ a.
              param_from-found php f ed.args name 0 f.num_args v
                (subst (λ n. Argument php f ed.args name 0 n v) (sym (zero_add f.num_args)) a),
        )
