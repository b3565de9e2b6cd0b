-- ===== src/Hooks.antt =====
-- The hooks on PHP's functions: `_hook_function`, `hook_function`, `hook_regexp` and
-- `unhook_functions` of src/sp_utils.c. A handler is its address, and 0 is NULL; the function table
-- holds the type and the handler of each function.
pub mod Restore
pub mod Features
use snuffleupagus.Base.{
  ℕ, Bool, true, false, not, ◌&&◌, List, [], ◌∷◌, ◌++◌, Option, none, some, Bytes, codes, drop,
  starts_with, ◌==◌, if◌then◌else◌,
}
use snuffleupagus.Frames.{FuncType}
use snuffleupagus.HashTable.{zend_hash_add, put, keys}
use snuffleupagus.Ini.{find}
use snuffleupagus.Log.{Message, Level, LogType}

pub record Fn : Type 0 where
  pub type : FuncType
  pub handler : ℕ

-- `CG(function_table)`.
abbrev pub Functions : Type 0
Functions = List (Bytes × Fn)

-- One of the tables `sp_internal_functions_hook`, `disabled_functions_hook` and
-- `sp_eval_blacklist_functions_hook`.
abbrev pub Saved : Type 0
Saved = List (Bytes × ℕ)

-- The function table with one table of hooks, and the messages so far.
pub record Hooked : Type 0 where
  pub functions : Functions
  pub saved : Saved
  pub messages : List Message

abbrev pub is_internal : FuncType → Bool
is_internal FuncType.internal = true
is_internal _ = false

abbrev not_saved : Message
not_saved = record { feature = "function_pointer_saving"; level = Level.error; kind = LogType.log }

abbrev with_saved : Bytes → ℕ → Hooked → Fn → Option Saved → Hooked × Bool
with_saved name new s f none = (record s { messages = s.messages ++ not_saved ∷ [] }, false)
with_saved name new s f (some saved) = (
  record s { functions = put name (record f { handler = new }) s.functions; saved = saved },
  true,
)

abbrev on_function : Bytes → ℕ → Hooked → Option Fn → Hooked × Bool
unfolding zend_hash_add
on_function name new s none = (s, false)
on_function name new s (some f) =
    if not (is_internal f.type)
    then (s, false)
    else if f.handler == new
    then (s, true)
    else with_saved name new s f (zend_hash_add name f.handler s.saved)

unfoldable pub _hook_function : Bytes → ℕ → Hooked → Hooked × Bool
unfolding on_function find
_hook_function name new s = on_function name new s (find name s.functions)

-- `multibyte` is `CG(multibyte)`.
unfoldable pub hook_function : Bool → Bytes → ℕ → Hooked → Hooked × Bool
unfolding _hook_function
hook_function multibyte name new s =
    let (s', ret) = _hook_function name new s in
    if not multibyte && starts_with (codes "mb_") name
    then ((_hook_function (drop 3 name) new s').0, ret)
    else if multibyte
    then ((_hook_function (codes "mb_" ++ name) new s').0, ret)
    else (s', ret)

-- The loop over names, and `hook_regexp`, whose expression is the test `matching`.
unfoldable pub hook_names : Bool → (Bytes → Bool) → ℕ → List Bytes → Hooked → Hooked
unfolding hook_function
hook_names multibyte matching new [] s = s
hook_names multibyte matching new (key ∷ names) s =
    hook_names multibyte matching new names
      (if matching key then (hook_function multibyte key new s).0 else s)

unfoldable pub hook_regexp : Bool → (Bytes → Bool) → ℕ → Hooked → Hooked
unfolding hook_names keys
hook_regexp multibyte matching new s = hook_names multibyte matching new (keys s.functions) s

-- The body of the loop of `unhook_functions`.
abbrev restored : Bytes → ℕ → Functions → Option Fn → Functions
unfolding put
restored name orig functions none = functions
restored name orig functions (some f) =
    if is_internal f.type && not (orig == 0)
    then put name (record f { handler = orig }) functions
    else functions

unfoldable pub restore : Bytes → ℕ → Functions → Functions
unfolding restored find
restore name orig functions = restored name orig functions (find name functions)

-- The last entry of the table comes first.
unfoldable pub unhook_functions : Saved → Functions → Functions
unfolding restore
unhook_functions [] functions = functions
unhook_functions ((name, orig) ∷ ht) functions = restore name orig (unhook_functions ht functions)
