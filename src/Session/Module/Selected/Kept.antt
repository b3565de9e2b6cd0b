-- ===== src/Session/Module/Selected/Kept.antt =====
-- src/sp_session.c: what holds whenever an event has happened.
use snuffleupagus.Base.{
  ℕ, ◌+◌, ◌<◌, ◌≡◌, refl, sym, ap, ◌∙◌, arith, true, false, ◌==◌, Option, none, some,
}
use mathlib.Core.Path.{subst}
use snuffleupagus.Session.Module.{
  hook, Struct, original, ours, State, copy_module, choose, call, hook_at, hook_old,
  sp_hook_session_module, sp_OnUpdateSaveHandler, sp_hook_session_rinit, save_handler, request,
  happen, at_save_handler, at_request, then_hook,
}

-- The module that PHP has chosen, if the extension did not exist.
abbrev pub chosen : Option ℕ → Option ℕ → Option ℕ
chosen none old = old
chosen (some m) old = some m

-- The modules of PHP stand below an address.
abbrev pub Below : ℕ → Option ℕ → Type 0
Below limit none = Unit
Below limit (some m) = m < limit

-- The buffer, if there is one, stands at the limit.
abbrev pub Buffer : ℕ → ℕ → Option ℕ → Type 0
Buffer limit free none = free ≡ limit
Buffer limit free (some p) = p ≡ limit

-- The modules of PHP are as they were, and the extension is called at each event.
abbrev pub AreHooked : (ℕ → Struct) → ℕ → State → Type 0
AreHooked modules limit s =
    ((m : ℕ) → m < limit → s.memory m ≡ modules m)
    × (s.startup ≡ ours)
    × (s.previous_session_rinit ≡ some original)
    × (s.on_modify ≡ some ours)
    × (s.old_OnUpdateSaveHandler ≡ some original)

-- The module is the copy of the chosen one.
abbrev pub Holds : (ℕ → Struct) → ℕ → Option ℕ → State → Type 0
Holds modules limit none s =
    (s.session_mod ≡ none) × (s.s_original_mod ≡ none) × Buffer limit s.next s.s_module
Holds modules limit (some m) s =
    (m < limit)
    × (s.s_module ≡ some limit)
    × (s.session_mod ≡ some limit)
    × (s.s_original_mod ≡ some m)
    × (s.memory limit ≡ record (modules m) { s_read = hook; s_write = hook })
    × (s.old_s_read ≡ some (modules m).s_read)
    × (s.old_s_write ≡ some (modules m).s_write)

module _ (modules : ℕ → Struct) (limit : ℕ) where
  abbrev pub Invariant : Option ℕ → State → Type 0
  Invariant m s = AreHooked modules limit s × Holds modules limit m s

  copied :
      (m : ℕ) (s : State)
      → m < limit
      → AreHooked modules limit s
      → Invariant (some m) (copy_module limit m s)
  copied m s l h =
      let e = h.0 m l in
      (
        ((λ q b. ground (arith, h.0 q b)), h.1, h.2, h.3, h.4),
        (l, refl, refl, refl, ground arith, ground arith, ground arith),
      )

  -- A module of PHP is replaced.
  pub hook-Invariant :
      (m : ℕ) (s : State)
      → m < limit
      → s.session_mod ≡ some m
      → Buffer limit s.next s.s_module
      → AreHooked modules limit s
      → Invariant (some m) (sp_hook_session_module true s)
  unfolding sp_hook_session_module
  hook-Invariant m s l e b h =
      subst (Invariant (some m)) (ap (λ o. hook_old true o s) (sym e)) (at_buffer s.s_module b)
    where
      at_buffer : (o : Option ℕ) → Buffer limit s.next o → Invariant (some m) (hook_at true o m s)
      at_buffer none b =
          subst (λ q. Invariant (some m) (copy_module q m (record s { next = q + 1 }))) (sym b)
            (copied m (record s { next = limit + 1 }) l h)
      at_buffer (some p) b =
          let e : (p == m) ≡ false = ground arith in
          subst (Invariant (some m)) {x = copy_module p m s} {y = hook_at true (some p) m s}
            (ground arith)
            (subst (λ q. Invariant (some m) (copy_module q m s)) (sym b) (copied m s l h))

  -- The copy stays where it is.
  stays :
      (m : ℕ) (s : State)
      → Invariant (some m) s
      → Invariant (some m) (sp_hook_session_module true s)
  unfolding sp_hook_session_module
  stays m s h =
      let k = h.1 in
      subst (Invariant (some m)) {x = s} {y = sp_hook_session_module true s}
        (sym
          (ap (λ o. hook_old true o s) k.2 ∙ ap (λ o. hook_at true o limit s) k.1 ∙ ground arith))
        h

  -- With no module there is nothing to replace.
  pub not_chosen :
      (s : State)
      → s.session_mod ≡ none
      → Invariant none s
      → Invariant none (sp_hook_session_module true s)
  unfolding sp_hook_session_module
  not_chosen s e h =
      subst (Invariant none) {x = s} {y = sp_hook_session_module true s}
        (sym (ap (λ o. hook_old true o s) e)) h

  Holds-Buffer :
      (m : Option ℕ) (s : State) → Holds modules limit m s → Buffer limit s.next s.s_module
  Holds-Buffer none s h = h.2
  Holds-Buffer (some m) s h = subst (Buffer limit s.next) (sym h.1) refl

  -- What the two events do, and what they leave.
  abbrev pub after_save_handler : Option ℕ → State → State
  after_save_handler c s =
      sp_hook_session_module true (choose c (record s { session_mod = s.s_original_mod }))

  pub save_handler_lem :
      (c : Option ℕ) (s : State)
      → AreHooked modules limit s
      → happen true (save_handler c) s ≡ some (after_save_handler c s)
  unfolding happen sp_OnUpdateSaveHandler
  save_handler_lem c s h =
      ap (λ f. at_save_handler true f c s) h.3
      ∙ ap (λ f. then_hook true (call f c (record s { session_mod = s.s_original_mod }))) h.4

  pub request_lem :
      (c : Option ℕ) (s : State)
      → AreHooked modules limit s
      → happen true (request c) s ≡ some (sp_hook_session_module true (choose c s))
  unfolding happen sp_hook_session_rinit
  request_lem c s h =
      ap (λ f. at_request true f c s) h.1 ∙ ap (λ f. then_hook true (call f c s)) h.2

  pub save_handler-Invariant :
      (c m : Option ℕ) (s : State)
      → Below limit c
      → Invariant m s
      → Invariant (chosen c m) (after_save_handler c s)
  unfolding sp_hook_session_module
  save_handler-Invariant none none s l (h, k) =
      not_chosen (record s { session_mod = s.s_original_mod }) k.1 (h, (k.1, k.1, k.2))
  save_handler-Invariant none (some m) s l (h, k) =
      hook-Invariant m (record s { session_mod = s.s_original_mod }) k.0 k.3
        (Holds-Buffer (some m) s k) h
  save_handler-Invariant (some c) m s l (h, k) =
      hook-Invariant c (record s { session_mod = some c }) l refl (Holds-Buffer m s k) h

  pub request-Invariant :
      (c m : Option ℕ) (s : State)
      → Below limit c
      → Invariant m s
      → Invariant (chosen c m) (sp_hook_session_module true (choose c s))
  unfolding sp_hook_session_module
  request-Invariant none none s l (h, k) = not_chosen s k.0 (h, k)
  request-Invariant none (some m) s l h = stays m s h
  request-Invariant (some c) m s l (h, k) =
      hook-Invariant c (record s { session_mod = some c }) l refl (Holds-Buffer m s k) h
