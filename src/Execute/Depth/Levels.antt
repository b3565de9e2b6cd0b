-- ===== src/Execute/Depth/Levels.antt =====
-- Runs of src/sp_execute.c that give the counters back, and the levels that they take.
use snuffleupagus.Base.{
  ℕ, zero, suc, ◌+◌, ◌^◌, ◌<◌, ◌≤◌, ◌≡◌, refl, sym, ap, ◌∙◌, arith, Bool, true, false, some,
  if◌then◌else◌,
}
use snuffleupagus.Execute.{
  Counters, increment, decrement, is_too_deep, sp_orig_execute, sp_call_orig_execute,
}
use snuffleupagus.Log.{Run, ◌>>=◌, ◌>>◌, pure, sp_log_drop, bind_returned}

-- `SPCFG(max_execution_depth)` allows this depth; 0 allows any.
abbrev pub Allows : ℕ → ℕ → Type 0
Allows zero depth = Unit
Allows (suc max) depth = depth ≤ suc max

-- The counters have their width, and the depth is allowed.
pub record IsGood (max : ℕ) (c : Counters) : Type 0 where
  pub depth_width : c.execution_depth < 2 ^ 64
  pub eval_width : c.in_eval < 2 ^ 64
  pub allowed : Allows max c.execution_depth

-- A run that returns gives the counters back, and went no deeper by `height` than is allowed.
abbrev pub Keeps : ℕ → ℕ → (Counters → Run Counters) → Type 0
Keeps max height body =
    (c d : Counters)
    → IsGood max c
    → (body c).1 ≡ some d
    → (d ≡ c) × Allows max (c.execution_depth + height)

pub decrement-increment : (n : ℕ) → n < 2 ^ 64 → decrement (increment n) ≡ n
decrement-increment n h = omega arith

pub deeper-IsGood :
    (max : ℕ) (c : Counters)
    → max + 1 < 2 ^ 64
    → IsGood max c
    → is_too_deep max (increment c.execution_depth) ≡ false
    → IsGood max (record c { execution_depth = increment c.execution_depth })
deeper-IsGood zero c m g h = record {
  depth_width = omega arith;
  eval_width = g.eval_width;
  allowed = tt;
}
deeper-IsGood (suc max) c m g h = record {
  depth_width = omega arith;
  eval_width = g.eval_width;
  allowed = ground arith;
}

pub Allows-suc :
    (max height : ℕ) (c : Counters)
    → max + 1 < 2 ^ 64
    → IsGood max c
    → Allows max (increment c.execution_depth + height)
    → Allows max (c.execution_depth + suc height)
Allows-suc zero height c m g h = tt
Allows-suc (suc max) height c m g h =
    let small : c.execution_depth ≤ suc max = g.allowed in omega arith

pub unsome : {c d : Counters} → some c ≡ some d → c ≡ d
unsome h = cc

pub not_dropped :
    (test : Bool) (u : Unit {0})
    → (if test then sp_log_drop "execute" else pure tt).1 ≡ some u
    → test ≡ false
not_dropped true u h = cc
not_dropped false u h = refl

pub finish_same :
    (c d e : Counters)
    → e ≡ record c { execution_depth = increment c.execution_depth }
    → decrement (increment c.execution_depth) ≡ c.execution_depth
    → some (record e { execution_depth = decrement e.execution_depth }) ≡ some d
    → d ≡ c
finish_same c d e same back last =
    sym (unsome last)
    ∙ ap {B = Counters}
        (λ (x : Counters). record x { execution_depth = decrement x.execution_depth }) same
    ∙ ap {B = Counters} (λ n. record c { execution_depth = n }) back

pub sp_orig_execute-Keeps :
    (max height : ℕ) (body : Counters → Run Counters)
    → max + 1 < 2 ^ 64
    → Keeps max height body
    → Keeps max (suc height) (sp_orig_execute max body)
unfolding sp_orig_execute
sp_orig_execute-Keeps max height body m keeps c d g h =
    let deep = record c { execution_depth = increment c.execution_depth } in
    let finish =
      λ (e : Counters). pure (record e { execution_depth = decrement e.execution_depth }) in
    let check : Run (Unit {0}) =
      if is_too_deep max deep.execution_depth then sp_log_drop "execute" else pure tt in
    let (u, first, rest) = bind_returned check (λ _. body deep >>= finish) d h in
    let (e, inner, last) = bind_returned (body deep) finish d rest in
    let passed = not_dropped (is_too_deep max deep.execution_depth) u first in
    let (same, allowed) = keeps deep e (deeper-IsGood max c m g passed) inner in
    (
      finish_same c d e same (decrement-increment c.execution_depth g.depth_width) last,
      Allows-suc max height c m g allowed,
    )

pub finish_eval :
    (c d e : Counters)
    → e ≡ record c { in_eval = increment c.in_eval }
    → decrement (increment c.in_eval) ≡ c.in_eval
    → some (record e { in_eval = decrement e.in_eval }) ≡ some d
    → d ≡ c
finish_eval c d e same back last =
    sym (unsome last)
    ∙ ap {B = Counters} (λ (x : Counters). record x { in_eval = decrement x.in_eval }) same
    ∙ ap {B = Counters} (λ n. record c { in_eval = n }) back

pub Keeps-after :
    (max height : ℕ) (check : Counters → Run (Unit {0})) (body : Counters → Run Counters)
    → Keeps max height body
    → Keeps max height (λ c. check c >> body c)
Keeps-after max height check body keeps c d g h =
    let (u, _, rest) = bind_returned (check c) (λ _. body c) d h in keeps c d g rest

pub Keeps-before :
    (max height : ℕ) (check : Run (Unit {0})) (body : Counters → Run Counters)
    → Keeps max height body
    → Keeps max height (λ c. body c >>= λ e. check >> pure e)
Keeps-before max height check body keeps c d g h =
    let (e, inner, rest) = bind_returned (body c) (λ e. check >> pure e) d h in
    let (u, _, last) = bind_returned check (λ _. pure e) d rest in keeps c d g (inner ∙ last)

-- The level that a function adds: one for PHP code, none for an internal function.
abbrev pub deepen : Bool → ℕ → ℕ
deepen true height = height
deepen false height = suc height

pub sp_call_orig_execute-Keeps :
    (max levels : ℕ) (body : Counters → Run Counters) (internal : Bool)
    → max + 1 < 2 ^ 64
    → Keeps max levels body
    → Keeps max (deepen internal levels) (sp_call_orig_execute max internal body)
unfolding sp_call_orig_execute
sp_call_orig_execute-Keeps max levels body true m keeps = keeps
sp_call_orig_execute-Keeps max levels body false m keeps =
    sp_orig_execute-Keeps max levels body m keeps
