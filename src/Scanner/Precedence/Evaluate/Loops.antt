-- ===== src/Scanner/Precedence/Evaluate/Loops.antt =====
-- The loops of src/sp_config_scanner.re over the two stacks, as far as an expression goes.
use snuffleupagus.Base.{
  ℕ, ◌≤◌, ◌<◌, ◌≡◌, refl, arith, true, List, [], ◌∷◌, ◌++◌, Option, none, some, ℤ, ltb, length,
  if◌then◌else◌,
}
use snuffleupagus.Scanner.Condition.{
  SyOp, sy_push, sy_apply, Stacks, stacks, and_then, binds_tighter, sy_op_precedence,
  sy_op_is_left_assoc, sy_reduce, sy_close, sy_finish, max_conditions,
}
use snuffleupagus.Scanner.Precedence.{
  Expr, operand, negate, group, binary, rank, is_binary, Item, on_item, on_items, size,
}

pub and_then_assoc :
    {A B C : Type 0} (o : Option A) (f : A → Option B) (g : B → Option C)
    → and_then (and_then o f) g ≡ and_then o (λ a. and_then (f a) g)
and_then_assoc none f g = refl
and_then_assoc (some a) f g = refl

pub on_items-append :
    (xs ys : List Item) (s : Stacks)
    → on_items (xs ++ ys) s ≡ and_then (on_items xs s) (on_items ys)
unfolding on_items on_item
on_items-append [] ys s = refl
on_items-append (x ∷ xs) ys s =
    rw (and_then_assoc (on_item x s) (on_items xs) (on_items ys))
      (λ i. and_then (on_item x s) (λ s'. on_items-append xs ys s' i))

pub size_pos : (e : Expr) → 0 < size e
size_pos (operand v) = omega arith
size_pos (negate e) = omega arith
size_pos (group e) = omega arith
size_pos (binary op l r) = omega arith

pub sy_push_lem {ℓ} :
    {A : Type ℓ} (a : A) (stack : List A)
    → length stack < max_conditions
    → sy_push a stack ≡ some (a ∷ stack)
unfolding sy_push
sy_push_lem a stack h = ground arith

-- The numbers of the source order the operators as their ranks do.
pub binds_tighter_lem :
    (op top : SyOp) → is_binary op ≡ true → binds_tighter op top ≡ ltb (rank top) (rank op)
unfolding sy_op_precedence sy_op_is_left_assoc
binds_tighter_lem SyOp.negation top h = cc
binds_tighter_lem SyOp.paren top h = cc
binds_tighter_lem _ SyOp.negation h = refl
binds_tighter_lem _ SyOp.less h = refl
binds_tighter_lem _ SyOp.greater h = refl
binds_tighter_lem _ SyOp.less_equal h = refl
binds_tighter_lem _ SyOp.greater_equal h = refl
binds_tighter_lem _ SyOp.conjunction h = refl
binds_tighter_lem _ SyOp.disjunction h = refl
binds_tighter_lem _ SyOp.equal h = refl
binds_tighter_lem _ SyOp.paren h = refl

-- `k` goes on with an operator of at least this rank by applying it.
abbrev pub Absorbs : {X : Type 0} → ℕ → (List SyOp → List ℤ → Option X) → Type 0
Absorbs p k =
    (top : SyOp) (ops : List SyOp) (res : List ℤ)
    → p ≤ rank top
    → k (top ∷ ops) res ≡ and_then (sy_apply top res) (k ops)

pub sy_close-Absorbs : Absorbs 1 sy_close
unfolding sy_close
sy_close-Absorbs SyOp.paren ops res h = absurd (omega arith)
sy_close-Absorbs SyOp.less ops res h = refl
sy_close-Absorbs _ ops res h = refl

pub sy_finish-Absorbs : Absorbs 1 sy_finish
unfolding sy_finish
sy_finish-Absorbs SyOp.paren ops res h = absurd (omega arith)
sy_finish-Absorbs SyOp.less ops res h = refl
sy_finish-Absorbs _ ops res h = refl

-- The loop, at an operator that is no parenthesis.
pub sy_reduce_step :
    (op top : SyOp) (ops : List SyOp) (res : List ℤ)
    → 0 < rank top
    → sy_reduce op (top ∷ ops) res ≡ (
        if binds_tighter op top
        then some (stacks res (top ∷ ops))
        else and_then (sy_apply top res) (sy_reduce op ops))
unfolding sy_reduce
sy_reduce_step op SyOp.paren ops res h = absurd (omega arith)
sy_reduce_step op SyOp.less ops res h = refl
sy_reduce_step op _ ops res h = refl

pub sy_reduce-Absorbs :
    (op : SyOp) → is_binary op ≡ true → 0 < rank op → Absorbs (rank op) (sy_reduce op)
sy_reduce-Absorbs op b ranked top ops res h =
    rw (sy_reduce_step op top ops res (omega arith), binds_tighter_lem op top b) (ground arith)

-- Operators that a new one of this rank leaves on the stack.
abbrev pub Below : ℕ → List SyOp → Type 0
Below p [] = Unit
Below p (top ∷ ops) = rank top < p

pub sy_reduce-Below :
    (op : SyOp) (ops : List SyOp) (res : List ℤ)
    → is_binary op ≡ true
    → Below (rank op) ops
    → sy_reduce op ops res ≡ some (stacks res ops)
unfolding sy_reduce
sy_reduce-Below op [] res b h = refl
sy_reduce-Below op (SyOp.paren ∷ ops) res b h = refl
sy_reduce-Below op (SyOp.less ∷ ops) res b h = rw (binds_tighter_lem op SyOp.less b) (ground arith)
sy_reduce-Below op (top ∷ ops) res b h = rw (binds_tighter_lem op top b) (ground arith)
