-- ===== src/Scanner/Bounds.antt =====
-- src/sp_config_scanner.re: the arrays of the scanner are large enough.
mod Reduce
use snuffleupagus.Base.{
  ℕ, ◌≤◌, ◌<◌, ◌≡◌, refl, arith, Bool, List, [], ◌∷◌, Option, none, some, ℤ, length, length-append,
  take, ◌-◌, ◌==◌, Bytes, Bool-cases, inl, inr,
}
use mathlib.Core.Path.{subst}
use snuffleupagus.Config.{SpParsedKeyword, ZendResult, ArgType}
use snuffleupagus.Ini.{find}
use snuffleupagus.Scanner.{
  Mode, Scan, Next, go, out, step, start, max_keywords, on_init, on_cond, on_cond_op, on_rule,
  end_of_rule, pushed, finished, keep, keep_argument, keep_variable, has_non_ascii, dispatch,
}
use snuffleupagus.Scanner.Condition.{
  SyOp, Stacks, stacks, max_conditions, and_then, truth, sy_push, sy_reduce, sy_close, sy_finish,
}
use snuffleupagus.Scanner.Bounds.Reduce.{
  Shrinks, sy_reduce-Shrinks, sy_close-Shrinks, sy_finish-length,
}
use snuffleupagus.Scanner.Lexer.{
  InitToken, CondToken, OpToken, RuleToken, lex_init, lex_cond, lex_cond_op, lex_rule,
}

-- Between conditions no operator is left, and behind an operand there is one on the stack.
abbrev Fits : Mode → Stacks → Type 0
Fits Mode.init s = s.ops ≡ []
Fits Mode.rule s = s.ops ≡ []
Fits Mode.cond s = Unit
Fits Mode.cond_op s = 0 < length s.res

-- No array holds more than its size: both stacks, and the keywords with room for the last entry.
abbrev pub IsBounded : {G : Type 0} → Scan G → Type 0
IsBounded s =
    (length s.stack.res ≤ max_conditions)
    × (length s.stack.ops ≤ max_conditions)
    × (length s.parsed_rule ≤ max_keywords)
    × Fits s.mode s.stack

module _ {G : Type 0} (atoi : Bytes → ℤ) (extension_loaded : Bytes → Bool)
    (process_rule : List SpParsedKeyword → G → ZendResult × G) where
  -- A step that goes on keeps the bounds.
  abbrev Bounds : Next G → Type 0
  Bounds (go s) = IsBounded s
  Bounds (out _ _) = Unit

  on_init-Bounds :
      (t : InitToken) (s : Scan G)
      → s.mode ≡ Mode.init
      → IsBounded s
      → Bounds (on_init atoi extension_loaded process_rule t s)
  unfolding on_init
  on_init-Bounds InitToken.space s m b = b
  on_init-Bounds InitToken.sp s m (x, y, z, f) = ground arith
  on_init-Bounds InitToken.end s m b = tt
  on_init-Bounds (InitToken.set key v) s m (x, y, z, f) = ground arith
  on_init-Bounds InitToken.condition s m (x, y, z, f) = ground arith
  on_init-Bounds InitToken.end_condition s m (x, y, z, f) = ground arith
  on_init-Bounds InitToken.message s m b = b
  on_init-Bounds InitToken.err s m b = ground arith
  on_init-Bounds _ s m b = tt

  on_cond-Bounds :
      (t : CondToken) (s : Scan G)
      → s.mode ≡ Mode.cond
      → IsBounded s
      → Bounds (on_cond atoi extension_loaded process_rule t s)
  unfolding on_cond
  on_cond-Bounds CondToken.space s m b = b
  on_cond-Bounds t s m (x, y, z, f) = ground arith

  push-Bounds :
      (op : SyOp) (s' : Stacks) (s : Scan G)
      → Shrinks s.stack.res s.stack.ops s'
      → length s.stack.res ≤ max_conditions
      → length s.parsed_rule ≤ max_keywords
      → Bounds (
          pushed atoi extension_loaded process_rule Mode.cond s
            (and_then (sy_push op s'.ops) λ ops. some (stacks s'.res ops)))
  unfolding sy_push
  push-Bounds op s' s q x z = ground arith

  keep-Bounds :
      (s : Scan G) (kw : Bytes) (arg : Option Bytes) (argtype : ArgType)
      → length s.parsed_rule < max_keywords
      → IsBounded s
      → Bounds (keep atoi extension_loaded process_rule s kw arg argtype)
  keep-Bounds s kw arg argtype h (x, y, z, f) = (
    x,
    y,
    omega (
      arith,
      length-append s.parsed_rule (record { kw = kw; arg = arg; argtype = argtype } ∷ []),
    ),
    f,
  )

  keep_argument-Bounds :
      (s : Scan G) (kw : Bytes) (arg : Option Bytes)
      → length s.parsed_rule < max_keywords
      → IsBounded s
      → Bounds (keep_argument atoi extension_loaded process_rule s kw arg)
  unfolding has_non_ascii find
  keep_argument-Bounds s kw none h b = keep-Bounds s kw none ArgType.no_parens h b
  keep_argument-Bounds s kw (some []) h b = keep-Bounds s kw (some []) ArgType.empty h b
  keep_argument-Bounds s kw (some (c ∷ arg)) h b = elim (Bool-cases (has_non_ascii (c ∷ arg))) [
    | inl e ↦ rw e tt
    | inr e ↦ rw e (elim (Bool-cases (c == b'"')) [
      | inl q ↦ rw q (keep-Bounds s kw (some (take (length arg - 1) arg)) ArgType.str h b)
      | inr q ↦ rw q (variable (find (c ∷ arg) s.vars))
    ])
  ]
    where
      variable :
          (o : Option Bytes) → Bounds (keep_variable atoi extension_loaded process_rule s kw o)
      variable none = tt
      variable (some text) = keep-Bounds s kw (some text) ArgType.str h b

  -- A condition keeps an operand on its stack from the first one on.
  on_cond_op-Bounds :
      (t : OpToken) (s : Scan G)
      → s.mode ≡ Mode.cond_op
      → 0 < length s.stack.res
      → IsBounded s
      → Bounds (on_cond_op atoi extension_loaded process_rule t s)
  unfolding on_cond_op
  on_cond_op-Bounds OpToken.space s m p b = b
  on_cond_op-Bounds OpToken.other s m p b = tt
  on_cond_op-Bounds (OpToken.binary op) s m p (x, y, z, f) =
      binary_bounds op s p x z (sy_reduce op s.stack.ops s.stack.res) refl
    where
      binary_bounds :
          (op : SyOp) (s : Scan G)
          → 0 < length s.stack.res
          → length s.stack.res ≤ max_conditions
          → length s.parsed_rule ≤ max_keywords
          → (o : Option Stacks) → sy_reduce op s.stack.ops s.stack.res ≡ o
          → Bounds (
              pushed atoi extension_loaded process_rule Mode.cond s
                (and_then o λ s'. and_then (sy_push op s'.ops) λ ops. some (stacks s'.res ops)))
      binary_bounds op s p x z none h = tt
      binary_bounds op s p x z (some s') h =
          push-Bounds op s' s (sy_reduce-Shrinks op s.stack.ops s.stack.res p h) x z
  on_cond_op-Bounds OpToken.close_paren s m p (x, y, z, f) =
      close_bounds s p x y z (sy_close s.stack.ops s.stack.res) refl
    where
      close_bounds :
          (s : Scan G)
          → 0 < length s.stack.res
          → length s.stack.res ≤ max_conditions
          → length s.stack.ops ≤ max_conditions
          → length s.parsed_rule ≤ max_keywords
          → (o : Option Stacks) → sy_close s.stack.ops s.stack.res ≡ o
          → Bounds (pushed atoi extension_loaded process_rule Mode.cond_op s o)
      close_bounds s p x y z none h = tt
      close_bounds s p x y z (some s') h =
          omega (arith, sy_close-Shrinks s.stack.ops s.stack.res p h)
  on_cond_op-Bounds OpToken.semicolon s m p (x, y, z, f) =
      finish_bounds s p z (sy_finish s.stack.ops s.stack.res) refl
    where
      finish_bounds :
          (s : Scan G)
          → 0 < length s.stack.res
          → length s.parsed_rule ≤ max_keywords
          → (o : Option (List ℤ)) → sy_finish s.stack.ops s.stack.res ≡ o
          → Bounds (finished atoi extension_loaded process_rule s o)
      finish_bounds s p z none h = tt
      finish_bounds s p z (some res') h =
          (omega (arith, sy_finish-length s.stack.ops s.stack.res p h), omega arith, z, refl)

  end_of_rule-Bounds :
      (s : Scan G)
      → s.stack.ops ≡ []
      → IsBounded s
      → Bounds (end_of_rule atoi extension_loaded process_rule s)
  unfolding end_of_rule
  end_of_rule-Bounds s o (x, y, z, f) = ground arith

  on_rule-Bounds :
      (t : RuleToken) (s : Scan G)
      → s.mode ≡ Mode.rule
      → s.stack.ops ≡ []
      → IsBounded s
      → Bounds (on_rule atoi extension_loaded process_rule t s)
  unfolding on_rule
  on_rule-Bounds RuleToken.space s m o b = b
  on_rule-Bounds (RuleToken.keyword kw arg) s m o b = elim (Bool-cases (truth s.cond_res_0)) [
    | inr off ↦ rw off b
    | inl active ↦ rw active (elim (Bool-cases (length s.parsed_rule == max_keywords)) [
      | inl full ↦ rw full tt
      | inr room ↦ rw room (keep_argument-Bounds s kw arg (ground arith) b)
    ])
  ]
  on_rule-Bounds RuleToken.nonascii s m o b = tt
  on_rule-Bounds RuleToken.semicolon s m o b = end_of_rule-Bounds s o b
  on_rule-Bounds RuleToken.other s m o b = end_of_rule-Bounds s o b

  dispatch-Bounds :
      (m : Mode) (c : ℕ) (memory : Bytes) (s : Scan G)
      → s.mode ≡ m
      → Fits m s.stack
      → IsBounded s
      → Bounds (dispatch atoi extension_loaded process_rule m c memory s).0
  unfolding step
  dispatch-Bounds Mode.init c memory s m f b = on_init-Bounds (lex_init c memory).0 s m b
  dispatch-Bounds Mode.cond c memory s m f b = on_cond-Bounds (lex_cond c memory).0 s m b
  dispatch-Bounds Mode.cond_op c memory s m f b = on_cond_op-Bounds (lex_cond_op c memory).0 s m f b
  dispatch-Bounds Mode.rule c memory s m f b = on_rule-Bounds (lex_rule c memory).0 s m f b

  -- The states that a scan may come to, whatever it reads.
  pub data Reaches (from : Scan G) : Scan G → Type 0 where
    here : Reaches from from
    next :
        {s s' : Scan G}
        → Reaches from s
        → (c : ℕ) (memory : Bytes) → (step atoi extension_loaded process_rule c memory s).0 ≡ go s'
        → Reaches from s'

  step-IsBounded :
      (s s' : Scan G) (c : ℕ) (memory : Bytes)
      → (step atoi extension_loaded process_rule c memory s).0 ≡ go s'
      → IsBounded s
      → IsBounded s'
  unfolding step
  step-IsBounded s s' c memory e b = subst Bounds e (dispatch-Bounds s.mode c memory s refl b.3 b)

  -- Whatever a scan reads, its stacks never hold more than MAX_CONDITIONS entries and its rule never
  -- more than MAX_KEYWORDS keywords, there is an operand wherever an operator is expected, and no
  -- operator is left on its stack outside conditions.
  pub Reaches-IsBounded :
      (version : Bytes) (g : G) (s : Scan G)
      → Reaches (start atoi extension_loaded process_rule version g) s
      → IsBounded s
  Reaches-IsBounded version g s here = (omega arith, omega arith, omega arith, refl)
  Reaches-IsBounded version g s (next {s = s'} r c memory e) =
      step-IsBounded s' s c memory e (Reaches-IsBounded version g s' r)
