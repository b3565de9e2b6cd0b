-- ===== src/Sloppy/Strict.antt =====
-- What the rewritten comparisons compute, and what the hooks on array functions leave behind.
use snuffleupagus.Base.{
  ◌≡◌, refl, ap, ℕ, Bool, not, List, [], ◌∷◌, map, some, Bytes, All, equals_refl,
}
use snuffleupagus.HashTable.{put, find-put}
use snuffleupagus.Hooks.{Fn, Functions, Saved}
use snuffleupagus.Ini.{find}
use snuffleupagus.Sloppy.{
  Opcode, ZendOp, strict_op, modify_from, sp_sloppy_modify_opcode, ParsedArgs, params_of,
  handler_or_null, set_at, set_handler, call_with, array_handler,
}
use snuffleupagus.Zval.{Zval}

-- What an instruction gives on two values, as its handler says, where `loose` is PHP's `==` and
-- `strict` its `===`; `rest` is what any other instruction does.
module _ (loose strict : Zval → Zval → Bool) (rest : ℕ → Zval → Zval → Bool) where
  abbrev runs : Opcode → Zval → Zval → Bool
  runs Opcode.is_equal v w = loose v w
  runs Opcode.is_not_equal v w = not (loose v w)
  runs Opcode.is_identical v w = strict v w
  runs Opcode.is_not_identical v w = not (strict v w)
  runs (Opcode.other n) v w = rest n v w

-- The results of the instructions on their values, in order.
pub results :
    (Zval → Zval → Bool)
    → (Zval → Zval → Bool)
    → (ℕ → Zval → Zval → Bool)
    → Zval
    → Zval
    → List ZendOp
    → List Bool
results loose strict rest v w ops = map (λ op. runs loose strict rest op.handler v w) ops

-- The handler of an instruction is that of its opcode.
abbrev pub IsInSync : ZendOp → Type 0
IsInSync op = op.handler ≡ op.opcode

strict_op-runs :
    (loose strict : Zval → Zval → Bool) (rest : ℕ → Zval → Zval → Bool) (v w : Zval) (op : ZendOp)
    (code : Opcode)
    → op.handler ≡ code
    → runs loose strict rest (strict_op code op).handler v w
      ≡ runs strict strict rest op.handler v w
strict_op-runs loose strict rest v w op Opcode.is_equal h = rw h
strict_op-runs loose strict rest v w op Opcode.is_not_equal h = rw h
strict_op-runs loose strict rest v w op Opcode.is_identical h = rw h
strict_op-runs loose strict rest v w op Opcode.is_not_identical h = rw h
strict_op-runs loose strict rest v w op (Opcode.other n) h = rw h

results-modify_from :
    (loose strict : Zval → Zval → Bool) (rest : ℕ → Zval → Zval → Bool) (v w : Zval)
    (ops : List ZendOp)
    → All IsInSync ops
    → results loose strict rest v w (modify_from ops) ≡ results strict strict rest v w ops
unfolding results modify_from
results-modify_from loose strict rest v w [] h = refl
results-modify_from loose strict rest v w (op ∷ ops) (h, hs) =
    rw (strict_op-runs loose strict rest v w op op.opcode h) (
      ap (◌∷◌ (runs strict strict rest op.handler v w))
        (results-modify_from loose strict rest v w ops hs))

-- Instructions that each have the handler of their opcode give after the change, whatever `==` is,
-- what they gave before it where `==` is `===`.
pub sp_sloppy_modify_opcode-strict :
    (loose strict : Zval → Zval → Bool) (rest : ℕ → Zval → Zval → Bool) (v w : Zval)
    (ops : List ZendOp)
    → All IsInSync ops
    → (changed : List ZendOp) × (sp_sloppy_modify_opcode (some ops) ≡ some changed)
      × (results loose strict rest v w changed ≡ results strict strict rest v w ops)
unfolding sp_sloppy_modify_opcode
sp_sloppy_modify_opcode-strict loose strict rest v w ops h =
    (modify_from ops, refl, results-modify_from loose strict rest v w ops h)

set_handler-found :
    (name : Bytes) (handler : ℕ) (functions : Functions) (f : Fn)
    → find name functions ≡ some f
    → set_handler name handler functions
      ≡ some (put name (record f { handler = handler }) functions)
unfolding set_handler set_at
set_handler-found name handler functions f e = rw e

-- The hook on an array function whose entry is found calls PHP's function with strict comparisons if
-- there is an array, and leaves itself as the handler, whatever handler stood there before: that of
-- another hook on the same function is lost.
pub array_handler-handler :
    (call : Functions → Bytes → List Zval → Zval) (name : Bytes) (orig_handler : ℕ) (saved : Saved)
    (nb_params : ℕ) (args : ParsedArgs) (functions : Functions) (f : Fn)
    → find name functions ≡ some f
    → (after : Functions) × (array_handler call name orig_handler saved nb_params args functions
        ≡ some (
          after,
          call
              (put name (record f { handler = handler_or_null (find name saved) }) functions)
              name
              (params_of nb_params args),
        ))
      × (find name after ≡ some (record f { handler = orig_handler }))
unfolding array_handler call_with
array_handler-handler call name orig_handler saved nb_params args functions f e =
    let g = record f { handler = handler_or_null (find name saved) } in
    let unhooked = put name g functions in
    let found : find name unhooked ≡ some g =
      rw (find-put name name g functions, equals_refl name, e) refl in
    (
      put name (record f { handler = orig_handler }) unhooked,
      rw (set_handler-found name (handler_or_null (find name saved)) functions f e)
          (rw (set_handler-found name orig_handler unhooked g found) refl),
      rw
          (
            find-put name name (record f { handler = orig_handler }) unhooked,
            equals_refl name,
            found,
          )
          refl,
    )
