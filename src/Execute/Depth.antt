-- ===== src/Execute/Depth.antt =====
-- The counters over a tree of calls. What PHP runs in a function is the calls that it makes, in order.
pub mod Levels
use snuffleupagus.Base.{
  ℕ, zero, suc, ◌+◌, ◌^◌, ◌<◌, ◌≤◌, ◌≡◌, refl, sym, arith, Bool, true, false, List, ◌∷◌, Option,
  none, some, is_set, ltb, if◌then◌else◌, Bool-cases, inl, inr, codes, Bytes,
}
use mathlib.Core.Path.{subst}
use snuffleupagus.Disabled.{Request}
use snuffleupagus.Disabled.Eval.{is_in_eval_and_whitelisted}
use snuffleupagus.Execute.{
  FileSystem, Counters, increment, decrement, sp_orig_execute, sp_call_orig_execute, Running,
  ExecConfig, is_eval, is_builtin_matching, sp_check_writable, call_checked, check_call,
  check_return, run_original, run_eval, run_function, sp_execute_handler,
}
use snuffleupagus.Frames.{Frame, get_complete_function_path}
use snuffleupagus.Ini.{find}
use snuffleupagus.Log.{Run, ◌>>=◌, ◌>>◌, pure, bind_returned}
use snuffleupagus.Execute.Depth.Levels.{
  Allows, IsGood, Keeps, decrement-increment, unsome, sp_orig_execute-Keeps, finish_eval,
  Keeps-after, Keeps-before, deepen, sp_call_orig_execute-Keeps,
}

mutual
  pub data Activation : Type 0 where
    activation : Running → Activations → Activation

  pub data Activations : Type 0 where
    nil : Activations
    call : Activation → Activations → Activations

unfoldable mutual
  unfolding sp_execute_handler

  -- The handler on a function and, inside it, on the functions that it calls.
  pub execute :
      Request → FileSystem → ExecConfig → Activation → List Frame → Counters → Run Counters
  execute req fs cfg (activation r calls) prev c =
      sp_execute_handler req fs cfg r (r.frame ∷ prev)
        (execute_all req fs cfg calls (r.frame ∷ prev)) c

  pub execute_all :
      Request → FileSystem → ExecConfig → Activations → List Frame → Counters → Run Counters
  execute_all req fs cfg Activations.nil prev c = pure c
  execute_all req fs cfg (call a calls) prev c =
      execute req fs cfg a prev c >>= execute_all req fs cfg calls prev

abbrev max_of : ℕ → ℕ → ℕ
max_of a b = if ltb a b then b else a

-- The nesting of PHP code in a tree of calls.
mutual
  pub height : Activation → ℕ
  height (activation r calls) = deepen r.internal (height_all calls)

  pub height_all : Activations → ℕ
  height_all Activations.nil = 0
  height_all (call a calls) = max_of (height a) (height_all calls)

module _ (req : Request) (fs : FileSystem) (cfg : ExecConfig) where
  abbrev limit : ℕ
  limit = cfg.globals.max_execution_depth

  module _ (small : limit + 1 < 2 ^ 64) (r : Running) (frames : List Frame) where
    call_checked-Keeps :
        (levels : ℕ) (body : Counters → Run Counters)
        → Keeps limit levels body
        → (name : Option Bytes)
        → Keeps limit (deepen r.internal levels) (λ c. call_checked req fs cfg r frames body c name)
    unfolding call_checked
    call_checked-Keeps levels body keeps none =
        sp_call_orig_execute-Keeps limit levels body r.internal small keeps
    call_checked-Keeps levels body keeps (some name) =
        let called = sp_call_orig_execute-Keeps limit levels body r.internal small keeps in
        elim (Bool-cases (is_set (find name cfg.disabled_functions_hook))) [
          | inl e ↦ rw e called
          | inr e ↦ rw e (
              Keeps-after limit (deepen r.internal levels)
                (λ _. check_call req fs cfg r frames name)
                (λ c. sp_call_orig_execute limit r.internal body c >>= λ d.
                  check_return req fs cfg r frames name >> pure d)
                (Keeps-before limit (deepen r.internal levels)
                  (check_return req fs cfg r frames name)
                  (sp_call_orig_execute limit r.internal body) called))
        ]

    run_original-Keeps :
        (levels : ℕ) (body : Counters → Run Counters)
        → Keeps limit levels body
        → Keeps limit (deepen r.internal levels) (run_original req fs cfg r frames body)
    unfolding run_original
    run_original-Keeps levels body keeps = elim (Bool-cases cfg.hook_execute) [
      | inl e ↦ rw e (call_checked-Keeps levels body keeps (get_complete_function_path frames))
      | inr e ↦ rw e (sp_call_orig_execute-Keeps limit levels body r.internal small keeps)
    ]

    run_eval-Keeps :
        (levels : ℕ) (body : Counters → Run Counters)
        → Keeps limit levels body
        → Keeps limit (suc levels) (run_eval req fs cfg r frames body)
    unfolding run_eval
    run_eval-Keeps levels body keeps c d g h =
        let inside = record c { in_eval = increment c.in_eval } in
        let orig = sp_orig_execute limit body in
        let finish = λ (e : Counters). pure (record e { in_eval = decrement e.in_eval }) in
        let check =
          is_builtin_matching req fs cfg frames (codes "eval") r.eval_source
            cfg.globals.disabled_functions r.executed in
        let (u, _, rest) = bind_returned check (λ _. orig inside >>= finish) d h in
        let (e, inner, last) = bind_returned (orig inside) finish d rest in
        let (same, allowed) =
          sp_orig_execute-Keeps limit levels body small keeps inside e
            (record { depth_width = g.depth_width; eval_width = omega arith; allowed = g.allowed })
            inner in
        (finish_eval c d e same (decrement-increment c.in_eval g.eval_width) last, allowed)

    run_eval-deepen :
        (levels : ℕ) (body : Counters → Run Counters)
        → r.internal ≡ false
        → Keeps limit levels body
        → Keeps limit (deepen r.internal levels) (run_eval req fs cfg r frames body)
    run_eval-deepen levels body e keeps c d g h =
        let (same, allowed) = run_eval-Keeps levels body keeps c d g h in
        (same, subst (λ b. Allows limit (c.execution_depth + deepen b levels)) (sym e) allowed)

    run_function-Keeps :
        (internal evaluated : Bool) (levels : ℕ) (body : Counters → Run Counters)
        → r.internal ≡ internal
        → Keeps limit levels body
        → Keeps limit
            (deepen r.internal levels)
            (run_function req fs cfg internal evaluated r frames body)
    unfolding run_function
    run_function-Keeps true evaluated levels body e keeps = run_original-Keeps levels body keeps
    run_function-Keeps false true levels body e keeps = run_eval-deepen levels body e keeps
    run_function-Keeps false false levels body e keeps =
        Keeps-after limit (deepen r.internal levels) (λ _. sp_check_writable req fs cfg frames)
          (run_original req fs cfg r frames body) (run_original-Keeps levels body keeps)

    sp_execute_handler-Keeps :
        (levels : ℕ) (body : Counters → Run Counters)
        → Keeps limit levels body
        → Keeps limit (deepen r.internal levels) (sp_execute_handler req fs cfg r frames body)
    unfolding sp_execute_handler
    sp_execute_handler-Keeps levels body keeps =
        Keeps-after limit (deepen r.internal levels)
          (λ c. is_in_eval_and_whitelisted cfg.globals.eval c.in_eval frames)
          (run_function req fs cfg r.internal (is_eval r.frame.func) r frames body)
          (run_function-Keeps r.internal (is_eval r.frame.func) levels body refl keeps)

  Allows-max :
      (max depth a b : ℕ)
      → Allows max (depth + a)
      → Allows max (depth + b)
      → Allows max (depth + max_of a b)
  Allows-max zero depth a b h k = tt
  Allows-max (suc max) depth a b h k = ground arith

  Allows-here : (max : ℕ) (c : Counters) → IsGood max c → Allows max (c.execution_depth + 0)
  Allows-here zero c g = tt
  Allows-here (suc max) c g = let h : c.execution_depth ≤ suc max = g.allowed in omega arith

  mutual
    unfolding execute execute_all height height_all

    execute_all-Keeps :
        (small : limit + 1 < 2 ^ 64) (calls : Activations) (prev : List Frame)
        → Keeps limit (height_all calls) (execute_all req fs cfg calls prev)
    execute_all-Keeps small Activations.nil prev c d g h = (sym (unsome h), Allows-here limit c g)
    execute_all-Keeps small (call a calls) prev c d g h =
        let (e, first, rest) =
          bind_returned (execute req fs cfg a prev c) (execute_all req fs cfg calls prev) d h in
        let (same, allowed) = execute-Keeps small a prev c e g first in
        let (back, others) =
          execute_all-Keeps small calls prev c d g
            (subst (λ x. (execute_all req fs cfg calls prev x).1 ≡ some d) same rest) in
        (back, Allows-max limit c.execution_depth (height a) (height_all calls) allowed others)

    execute-Keeps :
        (small : limit + 1 < 2 ^ 64) (a : Activation) (prev : List Frame)
        → Keeps limit (height a) (execute req fs cfg a prev)
    execute-Keeps small (activation r calls) prev =
        sp_execute_handler-Keeps small r (r.frame ∷ prev) (height_all calls)
          (execute_all req fs cfg calls (r.frame ∷ prev))
          (execute_all-Keeps small calls (r.frame ∷ prev))

-- From counters of 64 bits whose depth is allowed, a tree of calls that ends without ending the request
-- gives both counters back as they were, and its nesting of PHP code goes no deeper than the limit
-- from the depth at its start; the limit is below 2^64 - 1, and 0 is no limit.
pub execute-counters :
    (req : Request) (fs : FileSystem) (cfg : ExecConfig) (a : Activation) (prev : List Frame)
    (c d : Counters)
    → cfg.globals.max_execution_depth + 1 < 2 ^ 64
    → IsGood cfg.globals.max_execution_depth c
    → (execute req fs cfg a prev c).1 ≡ some d
    → (d ≡ c) × Allows cfg.globals.max_execution_depth (c.execution_depth + height a)
execute-counters req fs cfg a prev c d small g h = execute-Keeps req fs cfg small a prev c d g h
