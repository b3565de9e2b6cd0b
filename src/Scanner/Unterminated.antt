-- ===== src/Scanner/Unterminated.antt =====
-- src/sp_config_scanner.re: a rule at the end of the text that has no semicolon.
use snuffleupagus.Base.{
  ℕ, suc, ◌+◌, ◌<◌, zero, ◌≡◌, refl, ◌∙◌, arith, Bool, true, List, [], ◌∷◌, ◌++◌, none, ℤ, length,
  drop-length-append, take-length-append, All, Bytes, codes,
}
use snuffleupagus.Config.{ZendResult, SpParsedKeyword, ArgType}
use snuffleupagus.Scanner.{
  Mode, Scan, Outcome, step, scan_from, sp_config_scan, start, on_init, on_rule,
}
use snuffleupagus.Scanner.Condition.{truth}
use snuffleupagus.Scanner.Lexer.{RuleToken, is_alpha, is_word, lex_rule}
use snuffleupagus.Scanner.Lexer.Words.{span-append}
use snuffleupagus.Scanner.Progress.{Becomes, Becomes-trans, step-Becomes}

zero_add : (n : ℕ) → 0 + n ≡ n
zero_add n = omega arith

-- A keyword with no parentheses at the end of the text.
lex_rule-keyword :
    (c : ℕ) (cs behind : Bytes)
    → is_alpha c ≡ true
    → All (λ x. is_word x ≡ true) cs
    → lex_rule b'.' (c ∷ (cs ++ 0 ∷ behind)) ≡ (RuleToken.keyword (c ∷ cs) none, suc (length cs))
unfolding lex_rule
lex_rule-keyword c cs behind h hs =
    rw
      (
        h,
        span-append is_word cs 0 behind hs refl,
        zero_add (suc (length cs)),
        drop-length-append cs (0 ∷ behind),
        take-length-append cs (0 ∷ behind),
      )
      refl

module _ {G : Type 0} (atoi : Bytes → ℤ) (extension_loaded : Bytes → Bool)
    (process_rule : List SpParsedKeyword → G → ZendResult × G) where
  -- The rule of one keyword.
  abbrev alone : Bytes → List SpParsedKeyword
  alone kw = record { kw = kw; arg = none; argtype = ArgType.no_parens } ∷ []

  abbrev Goes : Bytes → Scan G → Bytes → Scan G → Type 0
  Goes = Becomes atoi extension_loaded process_rule

  abbrev in_rule : Scan G → List SpParsedKeyword → Scan G
  in_rule s parsed_rule = record s { mode = Mode.rule; parsed_rule = parsed_rule }

  opens :
      (s : Scan G) (rest : Bytes)
      → Goes (codes "sp" ++ rest) (record s { mode = Mode.init }) rest (in_rule s [])
  unfolding step on_init
  opens s rest = step-Becomes atoi extension_loaded process_rule b's' (b'p' ∷ rest) _ _ 1 refl

  keeps :
      (c : ℕ) (cs behind : Bytes) (s : Scan G)
      → is_alpha c ≡ true
      → All (λ x. is_word x ≡ true) cs
      → truth s.cond_res_0 ≡ true
      → Goes
          (b'.' ∷ c ∷ (cs ++ 0 ∷ behind))
          (in_rule s [])
          (0 ∷ behind)
          (in_rule s (alone (c ∷ cs)))
  unfolding step on_rule
  keeps c cs behind s a b t = rw (drop-length-append cs (0 ∷ behind)) at (
      step-Becomes atoi extension_loaded process_rule b'.' (c ∷ (cs ++ 0 ∷ behind)) (in_rule s [])
        (in_rule s (alone (c ∷ cs))) (suc (length cs))
        (rw (lex_rule-keyword c cs behind a b, t) refl))

  ends :
      (behind : Bytes) (s : Scan G) (rule : List SpParsedKeyword) (g : G)
      → truth s.cond_res_0 ≡ true
      → process_rule rule s.globals ≡ (ZendResult.succeeded, g)
      → Goes
          (0 ∷ behind)
          (in_rule s rule)
          behind
          (record s { mode = Mode.init; parsed_rule = rule; globals = g })
  unfolding step on_rule
  ends behind s rule g t p =
      step-Becomes atoi extension_loaded process_rule 0 behind _ _ 0 (rw (t, p) refl)

  -- A rule that is not closed before the NUL of the text is processed, and if it is accepted the
  -- scan goes on behind the NUL.
  pub unterminated-Becomes :
      (c : ℕ) (cs behind : Bytes) (s : Scan G) (g : G)
      → is_alpha c ≡ true
      → All (λ x. is_word x ≡ true) cs
      → truth s.cond_res_0 ≡ true
      → process_rule (alone (c ∷ cs)) s.globals ≡ (ZendResult.succeeded, g)
      → Goes
          (codes "sp." ++ c ∷ (cs ++ 0 ∷ behind))
          (record s { mode = Mode.init })
          behind
          (record s { mode = Mode.init; parsed_rule = alone (c ∷ cs); globals = g })
  unterminated-Becomes c cs behind s g a b t p =
      Becomes-trans atoi extension_loaded process_rule _ _ _ _ _ _
        (opens s (b'.' ∷ c ∷ (cs ++ 0 ∷ behind)))
        (Becomes-trans atoi extension_loaded process_rule _ _ _ _ _ _ (keeps c cs behind s a b t)
          (ends behind s (alone (c ∷ cs)) g t p))

  leaves :
      (fuel : ℕ) (s : Scan G)
      → 0 < fuel
      → scan_from atoi extension_loaded process_rule fuel [] s ≡ Outcome.overrun
  unfolding scan_from
  leaves zero s h = absurd (omega arith)
  leaves (suc fuel) s h = refl

  -- A text that ends in a rule of one keyword, without an argument and without a semicolon, which is
  -- accepted: if the scan of what stands before it comes to the rule between rules and conditions,
  -- and no condition that is false is open, the scan leaves the text.
  pub sp_config_scan-overrun :
      (version text : Bytes) (first : G) (c : ℕ) (cs : Bytes) (s : Scan G) (g : G)
      → Goes text
          (start atoi extension_loaded process_rule version first)
          (codes "sp." ++ c ∷ (cs ++ 0 ∷ []))
          (record s { mode = Mode.init })
      → is_alpha c ≡ true
      → All (λ x. is_word x ≡ true) cs
      → truth s.cond_res_0 ≡ true
      → process_rule (alone (c ∷ cs)) s.globals ≡ (ZendResult.succeeded, g)
      → sp_config_scan atoi extension_loaded process_rule version text first ≡ Outcome.overrun
  unfolding sp_config_scan
  sp_config_scan-overrun version text first c cs s g before a b t p =
      let goes =
        Becomes-trans atoi extension_loaded process_rule _ _ _ _ _ _ before
          (unterminated-Becomes c cs [] s g a b t p) in
      goes.1 (length text + 1) (omega arith) ∙ leaves _ _ (omega arith)
