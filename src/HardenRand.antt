-- ===== src/HardenRand.antt =====
-- src/sp_harden_rand.c: `rand` and `mt_rand` give what `random_int` gives. The random number of PHP
-- is a parameter. An argument is the number that the quiet parsing of PHP makes of it, if any.
use snuffleupagus.Base.{
  ◌≡◌, refl, ◌⊎◌, inl, inr, arith, ℕ, ℤ, pos, ltb_ℤ, ◌≤ℤ◌, Bool, List, [], ◌∷◌, Option, none, some,
  codes, if◌then◌else◌, Bool-cases,
}
use snuffleupagus.Hooks.{Hooked, hook_function}

abbrev pub mt_rand_max : ℤ
mt_rand_max = pos 2147483647

-- `min` and `max` behind the switch; arguments that are not parsed leave what stood there.
abbrev range : List (Option ℤ) → ℤ × ℤ
range (some min ∷ []) = (min, mt_rand_max)
range (some min ∷ some max ∷ []) = (min, max)
range (some min ∷ none ∷ []) = (min, mt_rand_max)
range _ = (pos 0, mt_rand_max)

-- The function of PHP comes first, none if it leaves an exception. The wrapper runs then too, but an
-- exception that is pending is what the call ends with.
abbrev ended_with : Option ℤ → Option ℤ → Option ℤ
ended_with none result = none
ended_with (some return_value) result = result

-- `php_random_int_throw`, where `none` is FAILURE, which comes with an exception.
module _ (random_int : ℤ → ℤ → Option ℤ) where
  -- The value that is returned; none is a pending exception.
  unfoldable pub random_int_wrapper : List (Option ℤ) → Option ℤ
  random_int_wrapper args =
      let (min, max) = range args in
      if ltb_ℤ max min then random_int max min else random_int min max

  unfoldable pub sp_rand : (List (Option ℤ) → Option ℤ) → List (Option ℤ) → Option ℤ
  unfolding random_int_wrapper
  sp_rand orig_handler args = ended_with (orig_handler args) (random_int_wrapper args)

  unfoldable pub sp_mt_rand : (List (Option ℤ) → Option ℤ) → List (Option ℤ) → Option ℤ
  unfolding random_int_wrapper
  sp_mt_rand orig_handler args = ended_with (orig_handler args) (random_int_wrapper args)

unfoldable pub hook_rand : Bool → ℕ → ℕ → Hooked → Hooked
unfolding hook_function
hook_rand multibyte rand mt_rand s =
    (hook_function multibyte (codes "mt_rand") mt_rand
      (hook_function multibyte (codes "rand") rand s).0).0

-- `random_int` with bounds in order gives a number between them, and does not fail.
pub record IsRandomInt (random_int : ℤ → ℤ → Option ℤ) : Type 0 where
  pub gives :
      (min max : ℤ) → min ≤ℤ max → (r : ℤ) × (random_int min max ≡ some r) × (min ≤ℤ r) × (r ≤ℤ max)

-- Between two numbers in either order.
abbrev pub IsBetween : ℤ → ℤ → ℤ → Type 0
IsBetween a b r = ((a ≤ℤ r) × (r ≤ℤ b)) ⊎ ((b ≤ℤ r) × (r ≤ℤ a))

-- The numbers that a call may give.
abbrev pub InRange : List (Option ℤ) → ℤ → Type 0
InRange [] r = IsBetween (pos 0) mt_rand_max r
InRange (some a ∷ []) r = IsBetween a mt_rand_max r
InRange (some a ∷ some b ∷ []) r = IsBetween a b r
InRange (some a ∷ none ∷ []) r = IsBetween a mt_rand_max r
InRange _ r = IsBetween (pos 0) mt_rand_max r

-- What a call gives, by what the function of PHP gives on it: an exception, or a number in the range.
abbrev pub Gives : Option ℤ → List (Option ℤ) → Option ℤ → Type 0
Gives none args out = out ≡ none
Gives (some _) args out = (r : ℤ) × (out ≡ some r) × InRange args r

module _ (random_int : ℤ → ℤ → Option ℤ) (law : IsRandomInt random_int) where
  between :
      (min max : ℤ)
      → (r : ℤ) × ((if ltb_ℤ max min then random_int max min else random_int min max) ≡ some r)
        × IsBetween min max r
  between min max = elim (Bool-cases (ltb_ℤ max min)) [
    | inl e ↦ let (r, g, lo, hi) = law.gives max min (ground arith) in (r, rw e g, inr (lo, hi))
    | inr e ↦ let (r, g, lo, hi) = law.gives min max (ground arith) in (r, rw e g, inl (lo, hi))
  ]

  wrapper-InRange :
      (args : List (Option ℤ))
      → (r : ℤ) × (random_int_wrapper random_int args ≡ some r) × InRange args r
  unfolding random_int_wrapper
  wrapper-InRange [] = between (pos 0) mt_rand_max
  wrapper-InRange (none ∷ []) = between (pos 0) mt_rand_max
  wrapper-InRange (some a ∷ []) = between a mt_rand_max
  wrapper-InRange (none ∷ b ∷ []) = between (pos 0) mt_rand_max
  wrapper-InRange (some a ∷ none ∷ []) = between a mt_rand_max
  wrapper-InRange (some a ∷ some b ∷ []) = between a b
  wrapper-InRange (none ∷ b ∷ c ∷ args) = between (pos 0) mt_rand_max
  wrapper-InRange (some a ∷ none ∷ c ∷ args) = between (pos 0) mt_rand_max
  wrapper-InRange (some a ∷ some b ∷ c ∷ args) = between (pos 0) mt_rand_max

  ended_with-Gives :
      (o : Option ℤ) (args : List (Option ℤ))
      → Gives o args (ended_with o (random_int_wrapper random_int args))
  ended_with-Gives none args = refl
  ended_with-Gives (some v) args = wrapper-InRange args

  -- If `random_int` keeps its law, both functions end with an exception on the calls on which the
  -- function of PHP does. On every other call they give a number between their two arguments, in
  -- whichever order these are, or between the one that is given and the largest number, or from 0 on.
  pub sp_rand-InRange :
      (orig_handler : List (Option ℤ) → Option ℤ) (args : List (Option ℤ))
      → Gives (orig_handler args) args (sp_rand random_int orig_handler args)
        × Gives (orig_handler args) args (sp_mt_rand random_int orig_handler args)
  unfolding sp_mt_rand sp_rand
  sp_rand-InRange orig_handler args =
      (ended_with-Gives (orig_handler args) args, ended_with-Gives (orig_handler args) args)
