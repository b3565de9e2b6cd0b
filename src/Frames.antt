-- ===== src/Frames.antt =====
-- The stack of PHP calls, `zend_execute_data`, as far as src/sp_disabled_functions.c reads it, with
-- `get_complete_function_path` and `is_functions_list_matching`. A stack is the list of its frames,
-- the running one first; `NULL` is `[]`.
pub mod Chain
use snuffleupagus.Base.{
  ℕ, Bool, true, false, List, [], ◌∷◌, ◌++◌, Option, none, some, if◌then◌else◌, Bytes, codes,
  equals,
}
use snuffleupagus.Zval.{Zval}

-- ZEND_USER_FUNCTION, ZEND_INTERNAL_FUNCTION and ZEND_EVAL_CODE.
pub data FuncType : Type 0 where
  user internal eval_code : FuncType

-- `zend_function`; `scope` is the name of its class. `arg_name i` is the name at index `i` of
-- `arg_info`, which has `num_args` of them; behind these it is whatever stands there.
pub record Func : Type 0 where
  pub type : FuncType
  pub name : Option Bytes
  pub scope : Option Bytes
  pub num_args : ℕ
  pub arg_name : ℕ → Bytes
  pub variadic : Bool
  pub filename : Bytes

pub record Frame : Type 0 where
  pub func : Option Func
  pub args : List Zval

abbrev has_scope : FuncType → Option Bytes → Option Bytes
has_scope FuncType.eval_code scope = none
has_scope _ scope = scope

abbrev qualified : Option Bytes → Bytes → Bytes
qualified none name = name
qualified (some scope) name = scope ++ (codes "::" ++ name)

abbrev path_of : Func → Option Bytes → Option Bytes
path_of f none = none
path_of f (some name) = some (qualified (has_scope f.type f.scope) name)

-- `get_complete_function_path` at one frame.
abbrev pub frame_path : Option Func → Option Bytes
frame_path none = none
frame_path (some f) = path_of f f.name

unfoldable pub get_complete_function_path : List Frame → Option Bytes
get_complete_function_path [] = none
get_complete_function_path (ex ∷ _) = frame_path ex.func

-- What the loop does behind a match or a mismatch: the rest of the list.
abbrev pub step : Bytes → List Bytes → Bytes → List Bytes
step name it path = if equals name path then it else name ∷ it

-- The loop: a frame, and the functions that are still to be found.
unfoldable pub is_functions_list_matching : List Frame → List Bytes → Bool
is_functions_list_matching [] it = false
is_functions_list_matching (current ∷ prev) [] = true
is_functions_list_matching (current ∷ prev) (name ∷ it) = elim (frame_path current.func) [
  | none ↦ false
  | some path ↦ is_functions_list_matching prev (step name it path)
]
