-- ===== src/Sloppy.antt =====
-- src/sp_sloppy.c: comparisons made strict. An opcode is its number in the virtual machine; a value
-- is as in Zval.
pub mod Strict
use snuffleupagus.Base.{
  ℕ, Bool, true, false, List, [], ◌∷◌, Option, none, some, Bytes, codes, is_set, take,
  if◌then◌else◌,
}
use mathlib.Core.Option
use snuffleupagus.HashTable.{put}
use snuffleupagus.Hooks.{Fn, Functions, Saved, Hooked, hook_function}
use snuffleupagus.Ini.{find}
use snuffleupagus.Zval.{Zval}

-- ZEND_IS_EQUAL and the three other comparisons, and any other opcode.
pub data Opcode : Type 0 where
  is_equal is_not_equal is_identical is_not_identical : Opcode
  other : ℕ → Opcode

-- An instruction; `handler` is the opcode that its handler stands for.
pub record ZendOp : Type 0 where
  pub opcode : Opcode
  pub handler : Opcode
  pub operands : ℕ

abbrev set_opcode : Opcode → ZendOp → ZendOp
set_opcode code op = record op { opcode = code; handler = code }

abbrev strict_op : Opcode → ZendOp → ZendOp
strict_op Opcode.is_equal op = set_opcode Opcode.is_identical op
strict_op Opcode.is_not_equal op = set_opcode Opcode.is_not_identical op
strict_op _ op = op

unfoldable pub modify_from : List ZendOp → List ZendOp
modify_from [] = []
modify_from (op ∷ opcodes) = strict_op op.opcode op ∷ modify_from opcodes

-- The instructions of an array of opcodes, which may be NULL.
unfoldable pub sp_sloppy_modify_opcode : Option (List ZendOp) → Option (List ZendOp)
unfolding modify_from
sp_sloppy_modify_opcode none = none
sp_sloppy_modify_opcode (some opcodes) = some (modify_from opcodes)

-- What `zend_parse_parameters` gives: the first argument, and the second one if there is one. (The
-- flag of strictness is parsed and not used.)
pub record ParsedArgs : Type 0 where
  pub value : Zval
  pub array : Option Zval

abbrev array_or_null : Option Zval → Zval
array_or_null none = Zval.null
array_or_null (some arr) = arr

-- The arguments of `call_user_function`: as many of the three as were given, or all.
abbrev pub params_of : ℕ → ParsedArgs → List Zval
params_of nb_params args =
    take (if is_set args.array then 3 else nb_params)
      (args.value ∷ array_or_null args.array ∷ Zval.true ∷ [])

-- A pointer that is found in a table of hooks, or NULL.
abbrev handler_or_null : Option ℕ → ℕ
handler_or_null none = 0
handler_or_null (some handler) = handler

-- `func->handler = handler`; `none` is a function that is not there, which the code does not check.
abbrev set_at : Bytes → ℕ → Functions → Option Fn → Option Functions
unfolding put
set_at name handler functions none = none
set_at name handler functions (some f) = some (put name (record f { handler = handler }) functions)

unfoldable pub set_handler : Bytes → ℕ → Functions → Option Functions
unfolding set_at find
set_handler name handler functions = set_at name handler functions (find name functions)

-- `call` is `call_user_function`, which runs what stands in the function table.
module _ (call : Functions → Bytes → List Zval → Zval) where
  abbrev call_with : Bytes → List Zval → ℕ → Option Functions → Option (Functions × Zval)
  unfolding set_handler
  call_with name params orig_handler none = none
  call_with name params orig_handler (some functions) =
      Option.map (λ after. (after, call functions name params))
        (set_handler name orig_handler functions)

  unfoldable pub array_handler :
      Bytes → ℕ → Saved → ℕ → ParsedArgs → Functions → Option (Functions × Zval)
  unfolding call_with set_handler find
  array_handler name orig_handler saved nb_params args functions =
      call_with name (params_of nb_params args) orig_handler
        (set_handler name (handler_or_null (find name saved)) functions)

-- The addresses of PHP_FN(sp_in_array), PHP_FN(sp_array_search) and PHP_FN(sp_array_keys).
pub record SloppyHandlers : Type 0 where
  pub sp_in_array : ℕ
  pub sp_array_search : ℕ
  pub sp_array_keys : ℕ

unfoldable pub hook_sloppy : Bool → SloppyHandlers → Hooked → Hooked
unfolding hook_function
hook_sloppy multibyte fn s =
    let s1 = (hook_function multibyte (codes "in_array") fn.sp_in_array s).0 in
    let s2 = (hook_function multibyte (codes "array_search") fn.sp_array_search s1).0 in
    (hook_function multibyte (codes "array_keys") fn.sp_array_keys s2).0
