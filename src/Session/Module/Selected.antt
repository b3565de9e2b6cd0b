-- ===== src/Session/Module/Selected.antt =====
-- src/sp_session.c: the module that stores sessions is always the extension's copy of the one that PHP
-- has chosen.
mod Kept
use snuffleupagus.Base.{
  ℕ, ◌<◌, ◌≡◌, refl, sym, ap, ◌∙◌, arith, Bool, true, Option, none, some, List, [], ◌∷◌,
}
use mathlib.Core.Path.{subst}
use snuffleupagus.Session.Module.{
  hook, Struct, original, ours, State, choose, call, sp_hook_session_module, hook_session, Event,
  save_handler, request, happen,
}
use snuffleupagus.Session.Module.Selected.Kept.{
  chosen, Below, Invariant, after_save_handler, hook-Invariant, not_chosen, save_handler_lem,
  request_lem, save_handler-Invariant, request-Invariant,
}

abbrev pub after_event : (State → Option State) → Option State → Option State
after_event f none = none
after_event f (some s) = f s

-- The events one behind the other.
unfoldable pub happen_all : Bool → List Event → State → Option State
unfolding happen
happen_all mallocs [] s = some s
happen_all mallocs (e ∷ es) s = after_event (happen_all mallocs es) (happen mallocs e s)

abbrev choice_of : Event → Option ℕ
choice_of (save_handler m) = m
choice_of (request m) = m

abbrev pub selected : List Event → Option ℕ → Option ℕ
selected [] m = m
selected (e ∷ es) m = selected es (chosen (choice_of e) m)

abbrev pub AreBelow : ℕ → List Event → Type 0
AreBelow limit [] = Unit
AreBelow limit (e ∷ es) = Below limit (choice_of e) × AreBelow limit es

-- No module is chosen, or the module is the copy of the one that is chosen, with the functions of the
-- extension, which call those of that module.
abbrev pub Serves : (ℕ → Struct) → Option ℕ → State → Type 0
Serves modules none s = s.session_mod ≡ none
Serves modules (some m) s =
    (p : ℕ) × (s.session_mod ≡ some p)
    × (s.memory p ≡ record (modules m) { s_read = hook; s_write = hook })
    × (s.old_s_read ≡ some (modules m).s_read)
    × (s.old_s_write ≡ some (modules m).s_write)

-- Before the extension has done anything.
pub record IsFresh (modules : ℕ → Struct) (limit : ℕ) (s : State) : Type 0 where
  pub next_free : s.next ≡ limit
  pub unchanged : (m : ℕ) → m < limit → s.memory m ≡ modules m
  pub below : Below limit s.session_mod
  pub no_original : s.s_original_mod ≡ none
  pub not_hooked : s.old_OnUpdateSaveHandler ≡ none
  pub startup_original : s.startup ≡ original
  pub has_setting : s.on_modify ≡ some original

module _ (modules : ℕ → Struct) (limit : ℕ) where
  -- Each event gives a state.
  happen-Invariant :
      (e : Event) (m : Option ℕ) (s : State)
      → Below limit (choice_of e)
      → Invariant modules limit m s
      → (s' : State) × (happen true e s ≡ some s')
        × Invariant modules limit (chosen (choice_of e) m) s'
  happen-Invariant (save_handler c) m s l k = (
    after_save_handler modules limit c s,
    save_handler_lem modules limit c s k.0,
    save_handler-Invariant modules limit c m s l k,
  )
  happen-Invariant (request c) m s l k = (
    sp_hook_session_module true (choose c s),
    request_lem modules limit c s k.0,
    request-Invariant modules limit c m s l k,
  )

  happen_all-Invariant :
      (es : List Event) (m : Option ℕ) (s : State)
      → AreBelow limit es
      → Invariant modules limit m s
      → (s' : State) × (happen_all true es s ≡ some s') × Invariant modules limit (selected es m) s'
  unfolding happen_all
  happen_all-Invariant [] m s l k = (s, refl, k)
  happen_all-Invariant (e ∷ es) m s (l, ls) k =
      let (s', r, k') = happen-Invariant e m s l k in
      let (s'', r', k'') = happen_all-Invariant es (chosen (choice_of e) m) s' ls k' in
      (s'', ap (after_event (happen_all true es)) r ∙ r', k'')

  -- The state in which `hook_session` comes to the module.
  abbrev callbacks_hooked : State → State
  callbacks_hooked s = record s {
    startup = ours;
    previous_session_rinit = some original;
    on_modify = some ours;
    old_OnUpdateSaveHandler = some original;
    s_module = none;
  }

  hook_session_lem :
      (s : State)
      → IsFresh modules limit s
      → hook_session true true s ≡ sp_hook_session_module true (callbacks_hooked s)
  unfolding hook_session
  hook_session_lem s h =
      let a = h.not_hooked in let b = h.startup_original in let c = h.has_setting in ground arith

  chosen_before :
      (m : Option ℕ) (s : State)
      → s.session_mod ≡ m
      → Below limit m
      → IsFresh modules limit s
      → Invariant modules limit m (sp_hook_session_module true (callbacks_hooked s))
  chosen_before none s e l h =
      not_chosen modules limit (callbacks_hooked s) e
        ((h.unchanged, refl, refl, refl, refl), (e, h.no_original, h.next_free))
  chosen_before (some m) s e l h =
      hook-Invariant modules limit m (callbacks_hooked s) l e h.next_free
        (h.unchanged, refl, refl, refl, refl)

  hook_session-Invariant :
      (s : State)
      → IsFresh modules limit s
      → Invariant modules limit s.session_mod (hook_session true true s)
  unfolding hook_session
  hook_session-Invariant s h =
      subst (Invariant modules limit s.session_mod) (sym (hook_session_lem s h))
        (chosen_before s.session_mod s refl h.below h)

  Invariant-Serves : (m : Option ℕ) (s : State) → Invariant modules limit m s → Serves modules m s
  Invariant-Serves none s (h, k) = k.0
  Invariant-Serves (some m) s (h, k) = (limit, k.2, k.4, k.5, k.6)

  -- Once the extension has hooked the sessions, whatever modules PHP then chooses, at a change of
  -- `session.save_handler` or at the start of a request, no function calls itself or a null pointer,
  -- and the module in use is a copy of the one chosen last whose `s_read` and `s_write` are the
  -- extension's, which call the functions of that module.
  pub hook_session-Serves :
      (es : List Event) (s : State)
      → IsFresh modules limit s
      → AreBelow limit es
      → (s' : State) × (happen_all true es (hook_session true true s) ≡ some s')
        × Serves modules (selected es s.session_mod) s'
  hook_session-Serves es s h l =
      let (s', r, k) =
        happen_all-Invariant es s.session_mod (hook_session true true s) l
          (hook_session-Invariant s h) in
      (s', r, Invariant-Serves (selected es s.session_mod) s' k)
