-- ===== src/Scanner/Progress.antt =====
-- src/sp_config_scanner.re: the scan comes to an end.
use snuffleupagus.Base.{
  ℕ, zero, suc, ◌+◌, ◌≤◌, ◌<◌, ◌≡◌, ◌≢◌, refl, sym, ◌∙◌, arith, Bool, List, [], ◌∷◌, ℤ, length,
  drop, Bytes,
}
use snuffleupagus.Config.{ZendResult, SpParsedKeyword}
use snuffleupagus.Scanner.{Scan, Next, go, out, Outcome, step, scan_from, sp_config_scan}

length-drop-le {ℓ} : {A : Type ℓ} (n : ℕ) (xs : List A) → length (drop n xs) ≤ length xs
length-drop-le zero xs = omega arith
length-drop-le (suc n) [] = omega arith
length-drop-le (suc n) (x ∷ xs) = omega (arith, length-drop-le n xs)

module _ {G : Type 0} (atoi : Bytes → ℤ) (extension_loaded : Bytes → Bool)
    (process_rule : List SpParsedKeyword → G → ZendResult × G) where
  -- What a scan does behind a step.
  abbrev continue : ℕ → Next G → Bytes → Outcome G
  continue fuel (go s) memory = scan_from atoi extension_loaded process_rule fuel memory s
  continue fuel (out result s) memory = Outcome.returned result s.globals

  scan_from-continue :
      (fuel c : ℕ) (memory : Bytes) (s : Scan G)
      → scan_from atoi extension_loaded process_rule (suc fuel) (c ∷ memory) s
        ≡ continue fuel
            (step atoi extension_loaded process_rule c memory s).0
            (drop (step atoi extension_loaded process_rule c memory s).1 memory)
  unfolding scan_from
  scan_from-continue fuel c memory s = ground arith

  -- Enough fuel is as good as any more.
  continue-fuel :
      (fuel fuel' : ℕ) (n : Next G) (memory : Bytes)
      → ((s : Scan G)
          → scan_from atoi extension_loaded process_rule fuel memory s
            ≡ scan_from atoi extension_loaded process_rule fuel' memory s)
      → continue fuel n memory ≡ continue fuel' n memory
  continue-fuel fuel fuel' (out result s) memory h = refl
  continue-fuel fuel fuel' (go s) memory h = h s

  pub scan_from-fuel :
      (fuel fuel' : ℕ) (memory : Bytes) (s : Scan G)
      → length memory < fuel
      → length memory < fuel'
      → scan_from atoi extension_loaded process_rule fuel memory s
        ≡ scan_from atoi extension_loaded process_rule fuel' memory s
  unfolding scan_from
  scan_from-fuel zero fuel' memory s h h' = absurd (omega arith)
  scan_from-fuel (suc fuel) zero memory s h h' = absurd (omega arith)
  scan_from-fuel (suc fuel) (suc fuel') [] s h h' = refl
  scan_from-fuel (suc fuel) (suc fuel') (c ∷ memory) s h h' =
      let (n, taken) = step atoi extension_loaded process_rule c memory s in
      scan_from-continue fuel c memory s
      ∙ (continue-fuel fuel fuel' n (drop taken memory) (λ s'.
            scan_from-fuel fuel fuel' (drop taken memory) s'
              (omega (arith, length-drop-le {0} taken memory))
              (omega (arith, length-drop-le {0} taken memory)))
          ∙ sym (scan_from-continue fuel' c memory s))

  continue-ends :
      (fuel : ℕ) (n : Next G) (memory : Bytes)
      → ((s : Scan G)
          → scan_from atoi extension_loaded process_rule fuel memory s ≢ Outcome.out_of_fuel)
      → continue fuel n memory ≢ Outcome.out_of_fuel
  continue-ends fuel (out result s) memory h = λ e. cc
  continue-ends fuel (go s) memory h = h s

  scan_from-ends :
      (fuel : ℕ) (memory : Bytes) (s : Scan G)
      → length memory < fuel
      → scan_from atoi extension_loaded process_rule fuel memory s ≢ Outcome.out_of_fuel
  unfolding scan_from
  scan_from-ends zero memory s h = absurd (omega arith)
  scan_from-ends (suc fuel) [] s h = λ e. cc
  scan_from-ends (suc fuel) (c ∷ memory) s h =
      let (n, taken) = step atoi extension_loaded process_rule c memory s in
      rw (scan_from-continue fuel c memory s) (
        continue-ends fuel n (drop taken memory) (λ s'.
          scan_from-ends fuel (drop taken memory) s'
            (omega (arith, length-drop-le {0} taken memory))))

  -- A byte for each token is fuel enough: the scan of any memory comes to an end.
  pub sp_config_scan-ends :
      (version memory : Bytes) (g : G)
      → sp_config_scan atoi extension_loaded process_rule version memory g ≢ Outcome.out_of_fuel
  unfolding sp_config_scan
  sp_config_scan-ends version memory g = scan_from-ends (length memory + 1) memory _ (omega arith)

  -- The scan of `memory` in a state goes on as that of `memory'` in another.
  abbrev pub Becomes : Bytes → Scan G → Bytes → Scan G → Type 0
  Becomes memory s memory' s' =
      (length memory' ≤ length memory)
      × ((fuel : ℕ)
          → length memory < fuel
          → scan_from atoi extension_loaded process_rule fuel memory s
            ≡ scan_from atoi extension_loaded process_rule fuel memory' s')

  pub Becomes-trans :
      (m m' m'' : Bytes) (s s' s'' : Scan G)
      → Becomes m s m' s'
      → Becomes m' s' m'' s''
      → Becomes m s m'' s''
  Becomes-trans m m' m'' s s' s'' (p, f) (q, g) =
      (omega arith, λ fuel h. f fuel h ∙ g fuel (omega arith))

  step-fuel :
      (fuel c : ℕ) (memory : Bytes) (s s' : Scan G) (n : ℕ)
      → step atoi extension_loaded process_rule c memory s ≡ (go s', n)
      → length memory + 1 < fuel
      → scan_from atoi extension_loaded process_rule fuel (c ∷ memory) s
        ≡ scan_from atoi extension_loaded process_rule fuel (drop n memory) s'
  step-fuel zero c memory s s' n e h = absurd (omega arith)
  step-fuel (suc fuel) c memory s s' n e h =
      scan_from-continue fuel c memory s
      ∙ (rw e (
          scan_from-fuel fuel (suc fuel) (drop n memory) s'
            (omega (arith, length-drop-le {0} n memory))
            (omega (arith, length-drop-le {0} n memory))))

  pub step-Becomes :
      (c : ℕ) (memory : Bytes) (s s' : Scan G) (n : ℕ)
      → step atoi extension_loaded process_rule c memory s ≡ (go s', n)
      → Becomes (c ∷ memory) s (drop n memory) s'
  step-Becomes c memory s s' n e = (
    omega (arith, length-drop-le {0} n memory),
    λ fuel h. step-fuel fuel c memory s s' n e (omega arith),
  )
