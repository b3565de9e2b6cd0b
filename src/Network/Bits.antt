-- ===== src/Network/Bits.antt =====
-- Facts about xor and about masks of leading ones, from the digit recursion of the native operations.
use Prim.Native.Nat.{min, bit_and, bit_xor, digits, differ, bit_and-bitwise, bit_xor-bitwise}
use native.Mathlib.Nat.{div-div-eq-div-mul, pow-succ'}
use snuffleupagus.Base.{
  ℕ, zero, suc, ◌+◌, ◌*◌, ◌/◌, ◌%◌, ◌^◌, ◌≤◌, ◌<◌, ◌≡◌, ◌↔◌, refl, sym, ap, ◌∙◌, arith,
}

module _ (z : ℕ → ℕ) (f : ℕ → ℕ → ℕ) where
  digits-zero : (fuel b : ℕ) → digits z f fuel zero b ≡ z b
  digits-zero zero b = refl
  digits-zero (suc fuel) b = refl

  -- More fuel than the first number changes nothing.
  digits_more : (m fuel a b : ℕ) → m ≤ fuel → a ≤ m → digits z f fuel a b ≡ digits z f m a b
  digits_more m fuel zero b q p = digits-zero fuel b ∙ sym (digits-zero m b)
  digits_more (suc m) (suc fuel) (suc a) b q p =
      omega (arith, digits_more m fuel (suc a / 2) (b / 2) (omega arith) (omega arith))
  digits_more (suc m) zero (suc a) b q p = absurd (omega arith)
  digits_more zero fuel (suc a) b q p = absurd (omega arith)

  -- The fuel that is left behind the first digit of `suc a` is enough.
  digits_half : (a b : ℕ) → digits z f a (suc a / 2) b ≡ digits z f (suc a / 2) (suc a / 2) b
  digits_half a b = digits_more (suc a / 2) a (suc a / 2) b (omega arith) (omega arith)

zero-and : (b : ℕ) → bit_and 0 b ≡ 0
zero-and b = bit_and-bitwise 0 b

zero-xor : (b : ℕ) → bit_xor 0 b ≡ b
zero-xor b = bit_xor-bitwise 0 b

and_halves : (a b : ℕ) → bit_and a b ≡ bit_and (a / 2) (b / 2) * 2 + min (a % 2) (b % 2)
and_halves zero b = omega (arith, zero-and b, zero-and (b / 2))
and_halves (suc a) b = omega (
  arith,
  digits_half (λ b. zero) min a (b / 2),
  bit_and-bitwise (suc a) b,
  bit_and-bitwise (suc a / 2) (b / 2),
)

differ-zero : (x : ℕ) → differ x zero ≡ x
differ-zero zero = refl
differ-zero (suc x) = refl

xor_halves : (a b : ℕ) → bit_xor a b ≡ bit_xor (a / 2) (b / 2) * 2 + differ (a % 2) (b % 2)
xor_halves zero b = omega (arith, zero-xor b, zero-xor (b / 2))
xor_halves (suc a) b = omega (
  arith,
  digits_half (λ b. b) differ a (b / 2),
  bit_xor-bitwise (suc a) b,
  bit_xor-bitwise (suc a / 2) (b / 2),
)

differ-lt : (x y : ℕ) → x < 2 → y < 2 → differ x y < 2
differ-lt zero y p q = q
differ-lt (suc x) zero p q = p
differ-lt (suc x) (suc y) p q = differ-lt x y (omega arith) (omega arith)

differ-zero_iff : (x y : ℕ) → (differ x y ≡ 0) ↔ (x ≡ y)
differ-zero_iff zero y = (λ h. sym h, λ h. sym h)
differ-zero_iff (suc x) zero = (λ h. h, λ h. h)
differ-zero_iff (suc x) (suc y) =
    let ih = differ-zero_iff x y in (λ h. ap suc (ih.0 h), λ h. ih.1 (omega arith))

xor-half : (a b : ℕ) → bit_xor a b / 2 ≡ bit_xor (a / 2) (b / 2)
xor-half a b = omega (arith, xor_halves a b, differ-lt (a % 2) (b % 2) (omega arith) (omega arith))

-- `x >> k`, one place at a time.
abbrev pub shr : ℕ → ℕ → ℕ
shr zero x = x
shr (suc k) x = shr k (x / 2)

shr-xor : (k a b : ℕ) → shr k (bit_xor a b) ≡ bit_xor (shr k a) (shr k b)
shr-xor zero a b = refl
shr-xor (suc k) a b = ap (shr k) (xor-half a b) ∙ shr-xor k (a / 2) (b / 2)

xor-zero_fuel : (n a b : ℕ) → a + b ≤ n → bit_xor a b ≡ 0 → a ≡ b
xor-zero_fuel zero a b p h = omega arith
xor-zero_fuel (suc n) zero b p h = sym h ∙ zero-xor b
xor-zero_fuel (suc n) (suc a) b p h =
    let halves = xor_halves (suc a) b in
    let low = (differ-zero_iff (suc a % 2) (b % 2)).0 (omega arith) in
    let high = xor-zero_fuel n (suc a / 2) (b / 2) (omega arith) (omega arith) in omega arith

xor-self_fuel : (n a : ℕ) → a ≤ n → bit_xor a a ≡ 0
xor-self_fuel zero a p = let e : a ≡ 0 = omega arith in ap (λ x. bit_xor x x) e ∙ zero-xor 0
xor-self_fuel (suc n) zero p = zero-xor 0
xor-self_fuel (suc n) (suc a) p =
    let high = xor-self_fuel n (suc a / 2) (omega arith) in
    let low = (differ-zero_iff (suc a % 2) (suc a % 2)).1 refl in
    omega (arith, xor_halves (suc a) (suc a))

xor-zero_iff : (a b : ℕ) → (bit_xor a b ≡ 0) ↔ (a ≡ b)
xor-zero_iff a b = (
  xor-zero_fuel (a + b) a b (omega arith),
  λ e. ap (λ x. bit_xor x b) e ∙ xor-self_fuel b b (omega arith),
)

-- j ones, and behind them k zeros.
ones : ℕ → ℕ
ones zero = 0
ones (suc j) = ones j * 2 + 1

unfoldable pub leading : ℕ → ℕ → ℕ
unfolding ones
leading zero j = ones j
leading (suc k) j = leading k j * 2

and_ones-zero : (j x : ℕ) → shr j x ≡ 0 → bit_and x (ones j) ≡ 0 → x ≡ 0
unfolding ones
and_ones-zero zero x s h = s
and_ones-zero (suc j) x s h =
    let halves = and_halves x (ones j * 2 + 1) in
    let half : (ones j * 2 + 1) / 2 ≡ ones j = omega arith in
    let high = ap (bit_and (x / 2)) half in
    let rest = and_ones-zero j (x / 2) s (omega arith) in omega arith

and_leading-zero_iff :
    (k j x : ℕ) → shr j (shr k x) ≡ 0 → (bit_and x (leading k j) ≡ 0) ↔ (shr k x ≡ 0)
unfolding leading
and_leading-zero_iff zero j x s =
    (and_ones-zero j x s, λ e. ap (λ y. bit_and y (ones j)) e ∙ zero-and (ones j))
and_leading-zero_iff (suc k) j x s =
    let halves = and_halves x (leading k j * 2) in
    let half : leading k j * 2 / 2 ≡ leading k j = omega arith in
    let high = ap (bit_and (x / 2)) half in
    let ih = and_leading-zero_iff k j (x / 2) s in
    (λ h. ih.0 (omega arith), λ h. let i = ih.1 h in omega arith)

shr-shr : (k j x : ℕ) → shr j (shr k x) ≡ shr (k + j) x
shr-shr zero j x = let e : j ≡ zero + j = omega arith in ap (λ n. shr n x) e
shr-shr (suc k) j x =
    let e : suc (k + j) ≡ suc k + j = omega arith in shr-shr k j (x / 2) ∙ ap (λ n. shr n x) e

pub shr-lt : (k x : ℕ) → x < 2 ^ k → shr k x ≡ 0
shr-lt zero x h = omega arith
shr-lt (suc k) x h = shr-lt k (x / 2) (omega arith)

-- The masked difference of two words of k + j bits is 0 just if they agree above the k low bits.
pub and_xor-zero_iff :
    (k j a b : ℕ)
    → a < 2 ^ (k + j)
    → b < 2 ^ (k + j)
    → (bit_and (bit_xor a b) (leading k j) ≡ 0) ↔ (shr k a ≡ shr k b)
and_xor-zero_iff k j a b p q =
    let high : shr j (shr k (bit_xor a b)) ≡ 0 =
      shr-shr k j (bit_xor a b)
      ∙ shr-xor (k + j) a b
      ∙ ap (λ x. bit_xor x (shr (k + j) b)) (shr-lt (k + j) a p)
      ∙ zero-xor (shr (k + j) b)
      ∙ shr-lt (k + j) b q in
    let masked = and_leading-zero_iff k j (bit_xor a b) high in
    let differ_iff = xor-zero_iff (shr k a) (shr k b) in
    (
      λ h. differ_iff.0 (sym (shr-xor k a b) ∙ masked.0 h),
      λ h. masked.1 (shr-xor k a b ∙ differ_iff.1 h),
    )

pub shr-div : (k x : ℕ) → shr k x ≡ x / 2 ^ k
shr-div zero x = omega arith
shr-div (suc k) x =
    shr-div k (x / 2) ∙ div-div-eq-div-mul x 2 (2 ^ k) ∙ ap (λ (d : ℕ). x / d) (sym (pow-succ' 2 k))
