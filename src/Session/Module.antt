-- ===== src/Session/Module.antt =====
-- src/sp_session.c: how the functions of the module that stores sessions are replaced. The structures
-- stand in a memory, so that the copy that the extension makes and the module it copies are two.
pub mod Selected
use snuffleupagus.Base.{ℕ, ◌+◌, Bool, true, false, ◌==◌, Option, none, some, if◌then◌else◌}

-- A function `s_read` or `s_write`: that of a module of PHP, or the extension's.
pub data Function : Type 0 where
  theirs : ℕ → Function
  hook : Function

-- `ps_module`: the two functions that are replaced, and a number for all the rest.
pub record Struct : Type 0 where
  pub s_read : Function
  pub s_write : Function
  pub rest : ℕ

-- A function that PHP calls at an event: its own, or the extension's.
pub data Callback : Type 0 where
  original ours : Callback

-- `mod` is SESSION_G(mod); `startup` is the module entry's `request_startup_func` and `on_modify` that of
-- the setting `session.save_handler`, where PHP has it. The others are the variables of the file.
pub record State : Type 0 where
  pub memory : ℕ → Struct
  pub next : ℕ
  pub session_mod : Option ℕ
  pub s_module : Option ℕ
  pub s_original_mod : Option ℕ
  pub old_s_read : Option Function
  pub old_s_write : Option Function
  pub startup : Callback
  pub previous_session_rinit : Option Callback
  pub on_modify : Option Callback
  pub old_OnUpdateSaveHandler : Option Callback

abbrev pub store_at : (ℕ → Struct) → ℕ → Struct → ℕ → Struct
store_at memory p m q = if q == p then m else memory q

-- From the line `s_original_mod = old_mod`, with the address in `s_module`.
abbrev pub copy_module : ℕ → ℕ → State → State
copy_module p old_mod s = record s {
  s_module = some p;
  s_original_mod = some old_mod;
  old_s_read = some (s.memory old_mod).s_read;
  old_s_write = some (s.memory old_mod).s_write;
  memory =
      store_at s.memory p
        (record (s.memory old_mod) { s_read = Function.hook; s_write = Function.hook });
  session_mod = some p;
}

-- What PHP's own function at an event does: it leaves the module, or chooses one of its own.
abbrev pub choose : Option ℕ → State → State
choose none s = s
choose (some m) s = record s { session_mod = some m }

-- `none` is the call of a null pointer, or of a function by itself.
abbrev pub call : Option Callback → Option ℕ → State → Option State
call none choice s = none
call (some Callback.original) choice s = some (choose choice s)
call (some Callback.ours) choice s = none

-- What happens to the module while PHP runs, with what PHP's function chooses.
pub data Event : Type 0 where
  save_handler request : Option ℕ → Event

-- Whether `malloc` gives memory, and whether PHP has the module `session`.
module _ (mallocs : Bool) where
  abbrev pub hook_at : Option ℕ → ℕ → State → State
  hook_at none old_mod s =
      if mallocs then copy_module s.next old_mod (record s { next = s.next + 1 }) else s
  hook_at (some p) old_mod s = if p == old_mod then s else copy_module p old_mod s

  abbrev pub hook_old : Option ℕ → State → State
  hook_old none s = s
  hook_old (some old_mod) s = hook_at s.s_module old_mod s

  unfoldable pub sp_hook_session_module : State → State
  sp_hook_session_module s = hook_old s.session_mod s

  abbrev pub then_hook : Option State → Option State
  unfolding sp_hook_session_module
  then_hook none = none
  then_hook (some s) = some (sp_hook_session_module s)

  unfoldable pub sp_OnUpdateSaveHandler : Option ℕ → State → Option State
  unfolding then_hook
  sp_OnUpdateSaveHandler choice s =
      then_hook
        (call s.old_OnUpdateSaveHandler choice (record s { session_mod = s.s_original_mod }))

  unfoldable pub sp_hook_session_rinit : Option ℕ → State → Option State
  unfolding then_hook
  sp_hook_session_rinit choice s = then_hook (call s.previous_session_rinit choice s)

  abbrev hook_save_handler : Option Callback → State → State
  hook_save_handler none s = s
  hook_save_handler (some f) s = record s {
    old_OnUpdateSaveHandler = some f;
    on_modify = some Callback.ours;
  }

  abbrev hook_callbacks : State → State
  hook_callbacks s =
      hook_save_handler s.on_modify
        (record s { previous_session_rinit = some s.startup; startup = Callback.ours })

  -- With the Boolean, PHP has the module `session`.
  unfoldable pub hook_session : Bool → State → State
  unfolding sp_hook_session_module
  hook_session registered s = elim registered [
    | false ↦ s
    | true ↦ elim (s.old_OnUpdateSaveHandler) [
      | some _ ↦ s
      | none ↦ sp_hook_session_module (record (hook_callbacks s) { s_module = none })
    ]
  ]

  -- PHP calls the function that stands in the setting or in the module entry.
  abbrev pub at_save_handler : Option Callback → Option ℕ → State → Option State
  unfolding sp_OnUpdateSaveHandler
  at_save_handler (some Callback.ours) choice s = sp_OnUpdateSaveHandler choice s
  at_save_handler f choice s = call f choice s

  abbrev pub at_request : Callback → Option ℕ → State → Option State
  unfolding sp_hook_session_rinit
  at_request Callback.ours choice s = sp_hook_session_rinit choice s
  at_request Callback.original choice s = call (some Callback.original) choice s

  unfoldable pub happen : Event → State → Option State
  unfolding at_save_handler at_request
  happen (save_handler choice) s = at_save_handler s.on_modify choice s
  happen (request choice) s = at_request s.startup choice s
