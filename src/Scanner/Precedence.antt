-- ===== src/Scanner/Precedence.antt =====
-- Expressions with precedences, as the conditions of src/sp_config_scanner.re are written, and what the
-- scanner does with their parts.
pub mod Evaluate
use snuffleupagus.Base.{
  ℕ, ◌+◌, ◌≤◌, ◌<◌, ◌≡◌, refl, ◌⊎◌, inl, inr, arith, Bool, true, false, not, ◌&&◌, ◌||◌, List, [],
  ◌∷◌, ◌++◌, Option, none, some, ℤ, pos, ltb_ℤ, ltb, lt→ltb, length, if◌then◌else◌,
}
use snuffleupagus.Scanner.Condition.{
  SyOp, truth, int_of, eq_ℤ, sy_apply_op, sy_push, sy_apply, Stacks, stacks, and_then,
  binds_tighter, sy_op_precedence, sy_op_is_left_assoc, sy_reduce, sy_binary, sy_close, sy_finish,
  max_conditions,
}

-- An expression as it is written, with the values of its operands.
pub data Expr : Type 0 where
  operand : ℤ → Expr
  negate group : Expr → Expr
  binary : SyOp → Expr → Expr → Expr

-- How tightly an operator binds: comparisons, then `&&`, `||` and `==`.
abbrev pub rank : SyOp → ℕ
rank SyOp.negation = 5
rank SyOp.less = 4
rank SyOp.greater = 4
rank SyOp.less_equal = 4
rank SyOp.greater_equal = 4
rank SyOp.conjunction = 3
rank SyOp.disjunction = 2
rank SyOp.equal = 1
rank SyOp.paren = 0

abbrev pub level : Expr → ℕ
level (binary op l r) = rank op
level _ = 5

abbrev pub is_binary : SyOp → Bool
is_binary SyOp.negation = false
is_binary SyOp.paren = false
is_binary _ = true

-- Written without a missing parenthesis: operators associate to the left.
abbrev pub IsGrammatical : Expr → Type 0
IsGrammatical (operand v) = Unit
IsGrammatical (negate e) = IsGrammatical e × (level e ≡ 5)
IsGrammatical (group e) = IsGrammatical e
IsGrammatical (binary op l r) =
    (is_binary op ≡ true)
    × (rank op ≤ level l)
    × (rank op < level r)
    × IsGrammatical l
    × IsGrammatical r

-- What an expression means.
abbrev pub meaning : SyOp → ℤ → ℤ → ℤ
meaning SyOp.less l r = int_of (ltb_ℤ l r)
meaning SyOp.greater l r = int_of (ltb_ℤ r l)
meaning SyOp.less_equal l r = int_of (not (ltb_ℤ r l))
meaning SyOp.greater_equal l r = int_of (not (ltb_ℤ l r))
meaning SyOp.conjunction l r = int_of (truth l && truth r)
meaning SyOp.disjunction l r = int_of (truth l || truth r)
meaning _ l r = int_of (eq_ℤ l r)

abbrev pub value : Expr → ℤ
value (operand v) = v
value (negate e) = int_of (not (truth (value e)))
value (group e) = value e
value (binary op l r) = meaning op (value l) (value r)

-- The parts of a written expression, and what the scanner does at each.
pub data Item : Type 0 where
  number : ℤ → Item
  bang open_paren close_paren : Item
  operator : SyOp → Item

abbrev pub items : Expr → List Item
items (operand v) = number v ∷ []
items (negate e) = bang ∷ items e
items (group e) = open_paren ∷ (items e ++ close_paren ∷ [])
items (binary op l r) = items l ++ operator op ∷ items r

unfoldable pub on_item : Item → Stacks → Option Stacks
unfolding sy_push sy_binary sy_close
on_item (number v) s = and_then (sy_push v s.res) λ res. some (stacks res s.ops)
on_item bang s = and_then (sy_push SyOp.negation s.ops) λ ops. some (stacks s.res ops)
on_item open_paren s = and_then (sy_push SyOp.paren s.ops) λ ops. some (stacks s.res ops)
on_item (operator op) s = sy_binary op s
on_item close_paren s = sy_close s.ops s.res

unfoldable pub on_items : List Item → Stacks → Option Stacks
unfolding on_item
on_items [] s = some s
on_items (i ∷ rest) s = and_then (on_item i s) (on_items rest)

-- The number of parts.
abbrev pub size : Expr → ℕ
size (operand v) = 1
size (negate e) = 1 + size e
size (group e) = 2 + size e
size (binary op l r) = 1 + size l + size r
