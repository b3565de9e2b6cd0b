-- ===== src/Scanner/Condition.antt =====
-- The conditions of src/sp_config_scanner.re: the stacks of the shunting-yard algorithm and the
-- functions and macros on them. A stack is a list with its top in front, and not longer than
-- MAX_CONDITIONS; `none` is an error, which ends the scan.
use snuffleupagus.Base.{
  ℕ, Bool, true, false, not, ◌&&◌, ◌||◌, List, [], ◌∷◌, Option, none, some, ℤ, pos, negsuc, ◌≡◌,
  refl, ltb, leb, ◌==◌, if◌then◌else◌, ltb_ℤ, length,
}

-- The characters on the stack of operators, the opening parenthesis among them.
pub data SyOp : Type 0 where
  negation less greater less_equal greater_equal conjunction disjunction equal paren : SyOp

abbrev pub max_conditions : ℕ
max_conditions = 100

unfoldable pub sy_op_precedence : SyOp → ℕ
sy_op_precedence SyOp.negation = 120
sy_op_precedence SyOp.less = 90
sy_op_precedence SyOp.greater = 90
sy_op_precedence SyOp.less_equal = 90
sy_op_precedence SyOp.greater_equal = 90
sy_op_precedence SyOp.conjunction = 70
sy_op_precedence SyOp.disjunction = 60
sy_op_precedence SyOp.equal = 20
sy_op_precedence SyOp.paren = 0

unfoldable pub sy_op_is_left_assoc : SyOp → Bool
sy_op_is_left_assoc SyOp.negation = false
sy_op_is_left_assoc _ = true

-- An `int` as a truth value, and the other way.
abbrev pub truth : ℤ → Bool
truth (pos n) = ltb 0 n
truth (negsuc n) = true

abbrev pub int_of : Bool → ℤ
int_of true = pos 1
int_of false = pos 0

abbrev pub eq_ℤ : ℤ → ℤ → Bool
eq_ℤ a b = not (ltb_ℤ a b) && not (ltb_ℤ b a)

unfoldable pub sy_apply_op : SyOp → ℤ → ℤ → ℤ
sy_apply_op SyOp.negation a b = int_of (not (truth a))
sy_apply_op SyOp.conjunction a b = int_of (truth b && truth a)
sy_apply_op SyOp.disjunction a b = int_of (truth b || truth a)
sy_apply_op SyOp.less a b = int_of (ltb_ℤ b a)
sy_apply_op SyOp.less_equal a b = int_of (not (ltb_ℤ a b))
sy_apply_op SyOp.greater_equal a b = int_of (not (ltb_ℤ b a))
sy_apply_op SyOp.greater a b = int_of (ltb_ℤ a b)
sy_apply_op SyOp.equal a b = int_of (eq_ℤ b a)
sy_apply_op SyOp.paren a b = pos 0

-- `sy_res_push` and `sy_op_push`.
unfoldable pub sy_push {ℓ} : {A : Type ℓ} → A → List A → Option (List A)
sy_push a stack = if leb max_conditions (length stack) then none else some (a ∷ stack)

-- SY_APPLY_OP_FROM_STACK, with the operator already off its stack.
unfoldable pub sy_apply : SyOp → List ℤ → Option (List ℤ)
unfolding sy_apply_op sy_push
sy_apply SyOp.negation (a ∷ res) = sy_push (sy_apply_op SyOp.negation a (pos 0)) res
sy_apply SyOp.negation [] = none
sy_apply op (a ∷ b ∷ res) = sy_push (sy_apply_op op a b) res
sy_apply op _ = none

-- The two stacks.
pub record Stacks : Type 0 where
  pub res : List ℤ
  pub ops : List SyOp

abbrev pub stacks : List ℤ → List SyOp → Stacks
stacks res ops = record { res = res; ops = ops }

abbrev pub and_then {ℓ κ} : {A : Type ℓ} {B : Type κ} → Option A → (A → Option B) → Option B
and_then none f = none
and_then (some a) f = f a

pub and_then-some :
    {A B : Type 0} (o : Option A) (f : A → Option B) {b : B}
    → and_then o f ≡ some b
    → (a : A) × (o ≡ some a) × (f a ≡ some b)
and_then-some none f h = cc
and_then-some (some a) f h = (a, refl, h)

-- The `break` of the loop over the operators on the stack.
abbrev pub binds_tighter : SyOp → SyOp → Bool
unfolding sy_op_precedence sy_op_is_left_assoc
binds_tighter op1 top =
    ltb (sy_op_precedence top) (sy_op_precedence op1)
    || (sy_op_precedence top == sy_op_precedence op1 && not (sy_op_is_left_assoc op1))

-- The loop at a binary operator.
unfoldable pub sy_reduce : SyOp → List SyOp → List ℤ → Option Stacks
unfolding sy_apply sy_op_precedence sy_op_is_left_assoc
sy_reduce op1 [] res = some (stacks res [])
sy_reduce op1 (SyOp.paren ∷ ops) res = some (stacks res (SyOp.paren ∷ ops))
sy_reduce op1 (top ∷ ops) res =
    let applied = and_then (sy_apply top res) (sy_reduce op1 ops) in
    if binds_tighter op1 top then some (stacks res (top ∷ ops)) else applied

unfoldable pub sy_binary : SyOp → Stacks → Option Stacks
unfolding sy_reduce sy_push
sy_binary op1 s =
    and_then (sy_reduce op1 s.ops s.res)
      λ s'. and_then (sy_push op1 s'.ops) λ ops. some (stacks s'.res ops)

-- The loop at a closing parenthesis, with the check behind it.
unfoldable pub sy_close : List SyOp → List ℤ → Option Stacks
unfolding sy_apply
sy_close [] res = none
sy_close (SyOp.paren ∷ ops) res = some (stacks res ops)
sy_close (top ∷ ops) res = and_then (sy_apply top res) (sy_close ops)

-- The loop at the end of a condition, with the check behind it.
abbrev pub single : List ℤ → Option (List ℤ)
single res = if ltb 1 (length res) then none else some res

unfoldable pub sy_finish : List SyOp → List ℤ → Option (List ℤ)
unfolding sy_apply
sy_finish [] res = single res
sy_finish (SyOp.paren ∷ ops) res = none
sy_finish (top ∷ ops) res = and_then (sy_apply top res) (sy_finish ops)
