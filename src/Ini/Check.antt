-- ===== src/Ini/Check.antt =====
-- What a check of a new setting guarantees, in enforcement and in simulation.
use snuffleupagus.Base.{
  ℕ, Bool, true, false, not, ◌&&◌, ◌||◌, ◌∷◌, Option, none, some, ◌≡◌, ◌≢◌, ◌↔◌, inl, inr, ap,
  arith, Bytes, ℤ, Bool-cases, if◌then◌else◌,
}
use snuffleupagus.Ini.{
  SpRegexp, IniEntry, ConfigIni, find, has_checks, access_readonly, simulates, is_empty, text_of,
  below_min, above_max, mismatches, check_found, sp_ini_check,
}
use snuffleupagus.Log.{pure}

module _ (strtol : Bytes → ℤ) (matching : SpRegexp → Bytes → Bool) where
  -- A value, not empty, that is within the bounds of the entry and matches its expression.
  abbrev pub good_value : IniEntry → Bytes → Bool
  good_value e v =
      not (below_min strtol matching e.min v)
      && not (above_max strtol matching e.max v)
      && not (mismatches strtol matching e.regexp v)

  -- What the rules allow: a setting with no entry is as the policy says; one with an entry is
  -- writable, and its value is good, or empty where that is allowed or nothing is checked.
  abbrev pub allowed : ConfigIni → Option IniEntry → Option Bytes → Bool
  allowed cfg none v = not cfg.policy_readonly
  allowed cfg (some e) v =
      not (access_readonly e cfg)
      && (if is_empty v then e.allow_null || not (has_checks e) else good_value e (text_of v))

  check_found-allowed :
      (cfg : ConfigIni) (entry : Option IniEntry) (v : Option Bytes)
      → allowed cfg entry v ≡ true
      → check_found strtol matching cfg entry v ≡ pure true
  unfolding check_found
  check_found-allowed cfg none v h = ground arith
  check_found-allowed cfg (some e) v h = ground arith

  check_found-enforced :
      (cfg : ConfigIni) (entry : Option IniEntry) (v : Option Bytes)
      → simulates cfg entry ≡ false
      → allowed cfg entry v ≡ false
      → (check_found strtol matching cfg entry v).1 ≢ some true
  unfolding check_found
  check_found-enforced cfg none v s h e = ground arith
  check_found-enforced cfg (some r) v s h e = ground arith

  check_found-simulated :
      (cfg : ConfigIni) (entry : Option IniEntry) (v : Option Bytes)
      → simulates cfg entry ≡ true
      → (check_found strtol matching cfg entry v).1 ≡ some true
  unfolding check_found
  check_found-simulated cfg none v s = ground arith
  check_found-simulated cfg (some r) v s = ground arith

  module _ (cfg : ConfigIni) (c : ℕ) (name : Bytes) (v : Option Bytes) where
    -- In enforcement a change of a named setting is let through exactly when the rules allow it.
    pub sp_ini_check-enforces :
        simulates cfg (find (c ∷ name) cfg.entries) ≡ false
        → ((sp_ini_check strtol matching cfg (some (c ∷ name)) v).1 ≡ some true)
          ↔ (allowed cfg (find (c ∷ name) cfg.entries) v ≡ true)
    unfolding sp_ini_check
    sp_ini_check-enforces s =
        let entry = find (c ∷ name) cfg.entries in
        elim (Bool-cases (allowed cfg entry v)) [
          | inl good ↦ (λ _. good, λ _. ap (λ r. r.1) (check_found-allowed cfg entry v good))
          | inr bad ↦
              (λ h. absurd (check_found-enforced cfg entry v s bad h), λ h. absurd (ground arith))
        ]

    -- In simulation, of the policy or of the setting's entry, every change is let through.
    pub sp_ini_check-simulated :
        simulates cfg (find (c ∷ name) cfg.entries) ≡ true
        → (sp_ini_check strtol matching cfg (some (c ∷ name)) v).1 ≡ some true
    unfolding sp_ini_check
    sp_ini_check-simulated s = check_found-simulated cfg (find (c ∷ name) cfg.entries) v s

    -- A change that the rules allow is let through with no message.
    pub sp_ini_check-silent :
        allowed cfg (find (c ∷ name) cfg.entries) v ≡ true
        → sp_ini_check strtol matching cfg (some (c ∷ name)) v ≡ pure true
    unfolding sp_ini_check
    sp_ini_check-silent h = check_found-allowed cfg (find (c ∷ name) cfg.entries) v h
