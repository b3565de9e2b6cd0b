-- ===== src/Scanner/Bounds/Reduce.antt =====
-- src/sp_config_scanner.re: what the loops over the two stacks leave of them.
use snuffleupagus.Base.{◌≤◌, ◌<◌, ◌≡◌, arith, List, [], ◌∷◌, some, ℤ, length, Bool-cases, inl, inr}
use snuffleupagus.Scanner.Condition.{
  SyOp, Stacks, and_then-some, sy_push, sy_apply, sy_reduce, sy_close, sy_finish, binds_tighter,
}

sy_apply-length :
    (op : SyOp) (res : List ℤ) {res' : List ℤ}
    → sy_apply op res ≡ some res'
    → (length res' ≤ length res) × (0 < length res')
unfolding sy_apply sy_push
sy_apply-length SyOp.negation [] h = cc
sy_apply-length SyOp.negation (a ∷ res) h = ground arith
sy_apply-length op [] h = cc
sy_apply-length op (a ∷ []) h = cc
sy_apply-length op (a ∷ b ∷ res) h = ground arith

-- What a loop leaves of stacks with an operand on top.
abbrev pub Shrinks : List ℤ → List SyOp → Stacks → Type 0
Shrinks res ops s = (length s.res ≤ length res) × (length s.ops ≤ length ops) × (0 < length s.res)

pub sy_reduce-Shrinks :
    (op : SyOp) (ops : List SyOp) (res : List ℤ) {s : Stacks}
    → 0 < length res
    → sy_reduce op ops res ≡ some s
    → Shrinks res ops s
unfolding sy_reduce
sy_reduce-Shrinks op [] res p h = ground arith
sy_reduce-Shrinks op (SyOp.paren ∷ ops) res p h = ground arith
sy_reduce-Shrinks op (top ∷ ops) res {s} p h = elim (Bool-cases (binds_tighter op top)) [
  | inl t ↦ ground arith
  | inr t ↦
      let (res', a, b) =
        and_then-some (sy_apply top res) (sy_reduce op ops) {b = s} (ground arith) in
      let (q, r) = sy_apply-length top res {res' = res'} a in
      omega (arith, sy_reduce-Shrinks op ops res' r b)
]

pub sy_close-Shrinks :
    (ops : List SyOp) (res : List ℤ) {s : Stacks}
    → 0 < length res
    → sy_close ops res ≡ some s
    → Shrinks res ops s
unfolding sy_close
sy_close-Shrinks [] res p h = cc
sy_close-Shrinks (SyOp.paren ∷ ops) res p h = ground arith
sy_close-Shrinks (top ∷ ops) res p h =
    let (res', a, b) = and_then-some (sy_apply top res) (sy_close ops) h in
    let (q, r) = sy_apply-length top res {res' = res'} a in
    omega (arith, sy_close-Shrinks ops res' r b)

pub sy_finish-length :
    (ops : List SyOp) (res : List ℤ) {res' : List ℤ}
    → 0 < length res
    → sy_finish ops res ≡ some res'
    → length res' ≡ 1
unfolding sy_finish
sy_finish-length [] res p h = ground arith
sy_finish-length (SyOp.paren ∷ ops) res p h = cc
sy_finish-length (top ∷ ops) res p h =
    let (res', a, b) = and_then-some (sy_apply top res) (sy_finish ops) h in
    let (q, r) = sy_apply-length top res {res' = res'} a in sy_finish-length ops res' r b
