-- ===== src/Scanner/Precedence/Evaluate.antt =====
-- The shunting-yard stacks of src/sp_config_scanner.re against the values of expressions.
mod Loops
use snuffleupagus.Base.{
  ℕ, ◌+◌, ◌≤◌, ◌<◌, ◌≡◌, refl, ◌⊎◌, inl, inr, arith, true, List, [], ◌∷◌, Option, some, ℤ, length,
}
use snuffleupagus.Scanner.Condition.{
  SyOp, sy_apply_op, sy_push, sy_apply, Stacks, stacks, and_then, sy_reduce, sy_binary, sy_close,
  sy_finish, max_conditions,
}
use snuffleupagus.Scanner.Precedence.{
  Expr, operand, negate, group, binary, rank, level, is_binary, IsGrammatical, meaning, value,
  close_paren, operator, items, on_item, on_items, size,
}
use snuffleupagus.Scanner.Precedence.Evaluate.Loops.{
  on_items-append, size_pos, sy_push_lem, Absorbs, sy_close-Absorbs, sy_finish-Absorbs,
  sy_reduce-Absorbs, Below, sy_reduce-Below,
}

-- What an expression leaves on the stacks: whatever absorbs its operators gets its value.
record Leaves (e : Expr) (res : List ℤ) (ops : List SyOp) : Type 1 where
  out : Stacks
  runs : on_items (items e) (stacks res ops) ≡ some out
  gives :
      {X : Type 0} (p : ℕ) (k : List SyOp → List ℤ → Option X)
      → 0 < p
      → p ≤ level e
      → Absorbs p k
      → k out.ops out.res ≡ k ops (value e ∷ res)

abbrev Fits : Expr → List SyOp → Type 0
Fits e ops = (level e ≡ 5) ⊎ Below (level e) ops

abbrev Enough : Expr → List ℤ → List SyOp → Type 0
Enough e res ops = (length res + size e ≤ max_conditions) × (length ops + size e ≤ max_conditions)

operand-Leaves :
    (v : ℤ) (res : List ℤ) (ops : List SyOp)
    → length res < max_conditions
    → Leaves (operand v) res ops
unfolding on_items on_item
operand-Leaves v res ops h = record {
  out = stacks (v ∷ res) ops;
  runs = rw (sy_push_lem v res h);
  gives = λ p k _ _ _. refl;
}

-- An operator that is applied puts the value of the whole in the place of its operands.
negation-applied :
    {X : Type 0} (k : List SyOp → List ℤ → Option X) (e : Expr) (res : List ℤ) (ops : List SyOp)
    → length res < max_conditions
    → and_then (sy_apply SyOp.negation (value e ∷ res)) (k ops) ≡ k ops (value (negate e) ∷ res)
unfolding sy_apply
negation-applied k e res ops room = rw (sy_push_lem (value (negate e)) res room)

sy_apply_op-meaning :
    (op : SyOp) (a b : ℤ) → is_binary op ≡ true → sy_apply_op op b a ≡ meaning op a b
unfolding sy_apply_op
sy_apply_op-meaning SyOp.negation a b h = cc
sy_apply_op-meaning SyOp.paren a b h = cc
sy_apply_op-meaning _ a b h = refl

sy_apply_binary :
    (op : SyOp) (a b : ℤ) (res : List ℤ)
    → is_binary op ≡ true
    → sy_apply op (b ∷ a ∷ res) ≡ sy_push (sy_apply_op op b a) res
unfolding sy_apply
sy_apply_binary SyOp.negation a b res h = cc
sy_apply_binary _ a b res h = refl

binary-applied :
    {X : Type 0} (k : List SyOp → List ℤ → Option X) (op : SyOp) (l r : Expr) (res : List ℤ)
    (ops : List SyOp)
    → is_binary op ≡ true
    → length res < max_conditions
    → and_then (sy_apply op (value r ∷ value l ∷ res)) (k ops) ≡ k ops (value (binary op l r) ∷ res)
binary-applied k op l r res ops b room =
    rw (sy_apply_binary op (value l) (value r) res b, sy_apply_op-meaning op (value l) (value r) b)
      (rw (sy_push_lem (meaning op (value l) (value r)) res room))

negate-Leaves :
    (e : Expr) (res : List ℤ) (ops : List SyOp)
    → level e ≡ 5
    → length res < max_conditions
    → length ops < max_conditions
    → Leaves e res (SyOp.negation ∷ ops)
    → Leaves (negate e) res ops
unfolding on_items on_item
negate-Leaves e res ops top room more inner = record {
  out = inner.out;
  runs = rw (sy_push_lem SyOp.negation ops more, inner.runs);
  gives = λ p k a b absorbs.
      rw (inner.gives p k a (omega arith) absorbs, absorbs SyOp.negation ops (value e ∷ res) b)
        (negation-applied k e res ops room);
}

group-Leaves :
    (e : Expr) (res : List ℤ) (ops : List SyOp)
    → 0 < level e
    → length ops < max_conditions
    → Leaves e res (SyOp.paren ∷ ops)
    → Leaves (group e) res ops
unfolding on_items on_item sy_close
group-Leaves e res ops l more inner = record {
  out = stacks (value e ∷ res) ops;
  runs =
      rw (sy_push_lem SyOp.paren ops more, on_items-append (items e) (close_paren ∷ []), inner.runs)
        (rw (inner.gives 1 sy_close (omega arith) (omega arith) sy_close-Absorbs));
  gives = λ p k _ _ _. refl;
}

sy_binary-Leaves :
    (op : SyOp) (l : Expr) (res : List ℤ) (ops : List SyOp)
    → is_binary op ≡ true
    → 0 < rank op
    → rank op ≤ level l
    → Below (rank op) ops
    → length ops < max_conditions
    → (left : Leaves l res ops) → sy_binary op left.out ≡ some (stacks (value l ∷ res) (op ∷ ops))
unfolding sy_binary
sy_binary-Leaves op l res ops b ranked under below more left =
    rw
      (
        left.gives (rank op) (sy_reduce op) ranked under (sy_reduce-Absorbs op b ranked),
        sy_reduce-Below op ops (value l ∷ res) b below,
      )
      (rw (sy_push_lem op ops more))

binary-Leaves :
    (op : SyOp) (l r : Expr) (res : List ℤ) (ops : List SyOp)
    → is_binary op ≡ true
    → 0 < rank op
    → rank op ≤ level l
    → rank op < level r
    → Below (rank op) ops
    → length res < max_conditions
    → length ops < max_conditions
    → Leaves l res ops
    → Leaves r (value l ∷ res) (op ∷ ops)
    → Leaves (binary op l r) res ops
unfolding on_items on_item
binary-Leaves op l r res ops b ranked under over below room more left right = record {
  out = right.out;
  runs =
      rw (on_items-append (items l) (operator op ∷ items r), left.runs)
        (rw (sy_binary-Leaves op l res ops b ranked under below more left) right.runs);
  gives = λ p k a h absorbs.
      rw (right.gives p k a (omega arith) absorbs, absorbs op ops (value r ∷ value l ∷ res) h)
        (binary-applied k op l r res ops b room);
}

rank_pos : (op : SyOp) → is_binary op ≡ true → 0 < rank op
rank_pos SyOp.paren h = cc
rank_pos _ h = omega arith

level_pos : (e : Expr) → IsGrammatical e → 0 < level e
level_pos (binary op l r) (b, _, _, _, _) = rank_pos op b
level_pos _ g = omega arith

Fits-Below :
    (op : SyOp) (ops : List SyOp)
    → is_binary op ≡ true
    → (rank op ≡ 5) ⊎ Below (rank op) ops
    → Below (rank op) ops
Fits-Below SyOp.negation ops b _ = cc
Fits-Below op ops b (inr h) = h
Fits-Below SyOp.less ops b (inl h) = absurd (omega arith)
Fits-Below _ ops b (inl h) = absurd (omega arith)

Fits-left :
    (l : Expr) (op : SyOp) (ops : List SyOp)
    → is_binary op ≡ true
    → rank op ≤ level l
    → Below (rank op) ops
    → Fits l ops
Fits-left l op [] b h below = inr tt
Fits-left l op (top ∷ ops) b h below = inr (omega arith)

items-Leaves :
    (e : Expr) (res : List ℤ) (ops : List SyOp)
    → IsGrammatical e
    → Fits e ops
    → Enough e res ops
    → Leaves e res ops
items-Leaves (operand v) res ops g fits (a, b) = operand-Leaves v res ops (omega arith)
items-Leaves (negate e) res ops (g, top) fits (a, b) =
    negate-Leaves e res ops top (omega (arith, size_pos e)) (omega (arith, size_pos e))
      (items-Leaves e res (SyOp.negation ∷ ops) g (inl top) (omega arith, omega arith))
items-Leaves (group e) res ops g fits (a, b) =
    group-Leaves e res ops (level_pos e g) (omega arith)
      (items-Leaves e res (SyOp.paren ∷ ops) g (inr (level_pos e g)) (omega arith, omega arith))
items-Leaves (binary op l r) res ops (b, under, over, gl, gr) fits (x, y) =
    let below = Fits-Below op ops b fits in
    binary-Leaves op l r res ops b (rank_pos op b) under over below (omega (arith, size_pos l))
      (omega (arith, size_pos l))
      (items-Leaves l res ops gl (Fits-left l op ops b under below) (omega arith, omega arith))
      (items-Leaves r (value l ∷ res) (op ∷ ops) gr (inr over)
        (omega (arith, size_pos l), omega (arith, size_pos l)))

-- The condition, up to the check at its end.
pub sy_finish-items :
    (e : Expr)
    → IsGrammatical e
    → size e ≤ max_conditions
    → (out : Stacks) × (on_items (items e) (stacks [] []) ≡ some out)
      × (sy_finish out.ops out.res ≡ some (value e ∷ []))
unfolding sy_finish
sy_finish-items e g h =
    let done = items-Leaves e [] [] g (inr tt) (omega arith, omega arith) in
    (done.out, done.runs, done.gives 1 sy_finish (omega arith) (level_pos e g) sy_finish-Absorbs)
