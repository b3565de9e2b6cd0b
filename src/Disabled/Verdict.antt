-- ===== src/Disabled/Verdict.antt =====
-- Which calls and which returned values a list of rules stops.
use snuffleupagus.Base.{
  ◌≡◌, ◌⊎◌, Bool, true, false, not, ◌||◌, List, [], ◌∷◌, Option, none, some, Bytes,
}
use snuffleupagus.Disabled.{Request, is_param_matching}
use snuffleupagus.Disabled.Rules.{context_matches, filters_param, is_variadic, return_matches}
use snuffleupagus.Frames.{Frame}
use snuffleupagus.Globals.{SpDisabledFunction}
use snuffleupagus.Zval.{Zval}

-- The test of a rule up to its parameter, and then that of the parameter.
abbrev pub both : Option Bool → Bool → Option Bool
both none param = none
both (some false) param = some false
both (some true) param = some param

-- What is left of a run behind a rule, if `rest` is what is left behind the others.
turn : Option Bool → Bool → Bool → Option (Unit {0}) → Option (Unit {0})
turn none allow simulation rest = none
turn (some false) allow simulation rest = rest
turn (some true) true simulation rest = some tt
turn (some true) false true rest = rest
turn (some true) false false rest = none

-- `applies` says whether a rule applies, and is none if the test of it ends the request; `Fails` says
-- when that is so.
module _ (applies : SpDisabledFunction → Option Bool) (Fails : SpDisabledFunction → Type 0) where
  -- Some rule applies that is neither an `allow` rule nor in simulation, or fails, and no rule in front of it that applies is an `allow` rule.
  pub data Drops : List SpDisabledFunction → Type 0 where
    fails :
        {df : SpDisabledFunction} {config : List SpDisabledFunction}
        → Fails df
        → Drops (df ∷ config)
    now :
        {df : SpDisabledFunction} {config : List SpDisabledFunction}
        → applies df ≡ some true
        → df.allow ≡ false
        → df.simulation ≡ false
        → Drops (df ∷ config)
    later :
        {df : SpDisabledFunction} {config : List SpDisabledFunction}
        → (applies df ≡ some false) ⊎ ((applies df ≡ some true) × (df.allow ≡ false))
        → Drops config
        → Drops (df ∷ config)

module _ (applies : SpDisabledFunction → Option Bool) where
  verdict : List SpDisabledFunction → Option (Unit {0})
  verdict [] = some tt
  verdict (df ∷ config) = turn (applies df) df.allow df.simulation (verdict config)

module _ (req : Request) where
  -- The parameter of a call is as the rule wants it, or the rule does not look at it. A function
  -- whose first argument is variadic counts as if it were.
  abbrev pub param_fits : List Frame → Option Bytes → SpDisabledFunction → Bool
  param_fits frames builtin df =
      not (filters_param req df)
      || is_variadic req frames builtin
      || is_param_matching req frames df builtin

  -- The test of a rule for a call; none if it ends the request.
  abbrev pub call_fits :
      List Frame → Bytes → Option Bytes → Bytes → SpDisabledFunction → Option Bool
  call_fits frames path builtin current df =
      both (context_matches req frames path current df).1 (param_fits frames builtin df)

  -- The test of a rule for a returned value; none if it ends the request.
  abbrev pub return_fits :
      List Frame → Bytes → Bytes → Option Zval → SpDisabledFunction → Option Bool
  return_fits frames path current ret df = (return_matches req frames path current ret df).1
