-- ===== src/Network/Mask.antt =====
-- The mask of a word, and what a masked comparison of two words decides.
use Prim.Native.Nat.{bit_and, bit_xor}
use snuffleupagus.Base.{
  ℕ, zero, suc, ◌+◌, ◌-◌, ◌/◌, ◌^◌, ◌≤◌, ◌<◌, ◌≡◌, ◌↔◌, Bool, true, false, if◌then◌else◌,
  Bool-cases, inl, inr, refl, sym, ap, ◌∙◌, arith, ◌==◌, ==_iff,
}
use snuffleupagus.Network.Bits.{leading, and_xor-zero_iff, shr-div}
use snuffleupagus.Network.{mask32}

-- A test of all widths up to `bits`.
up_to : (ℕ → Bool) → ℕ → Bool
up_to test zero = test zero
up_to test (suc bits) = if test (suc bits) then up_to test bits else false

up_to-elim :
    (test : ℕ → Bool) (bits width : ℕ) → width ≤ bits → up_to test bits ≡ true → test width ≡ true
unfolding up_to
up_to-elim test zero width small passed = let e : width ≡ zero = omega arith in ap test e ∙ passed
up_to-elim test (suc bits) width small passed = elim (Bool-cases (width == suc bits)) [
  | inl last ↦ ap test ((==_iff width (suc bits)).0 last) ∙ ground arith
  | inr before ↦ up_to-elim test bits width (ground arith) (ground arith)
]

mask32_table : up_to (λ bits. mask32 bits == leading (32 - bits) bits) 32 ≡ true
unfolding up_to mask32 leading
mask32_table = refl

mask32-leading : (bits : ℕ) → bits ≤ 32 → mask32 bits ≡ leading (32 - bits) bits
mask32-leading bits h =
    (==_iff (mask32 bits) (leading (32 - bits) bits)).0
      (up_to-elim (λ bits. mask32 bits == leading (32 - bits) bits) 32 bits h mask32_table)

-- Two words have the same first `bits` bits.
abbrev pub SamePrefix : ℕ → ℕ → ℕ → Type 0
SamePrefix bits a n = a / 2 ^ (32 - bits) ≡ n / 2 ^ (32 - bits)

-- The comparison of two words under the mask passes just if their first `bits` bits agree.
pub mask32-SamePrefix :
    (bits a n : ℕ)
    → bits ≤ 32
    → a < 2 ^ 32
    → n < 2 ^ 32
    → (bit_and (bit_xor a n) (mask32 bits) ≡ 0) ↔ SamePrefix bits a n
mask32-SamePrefix bits a n h p q =
    let k : ℕ = 32 - bits in
    let width : 32 ≡ k + bits = omega arith in
    let pow : 2 ^ 32 ≡ 2 ^ (k + bits) = ap (λ (w : ℕ). 2 ^ w) width in
    let words = and_xor-zero_iff k bits a n (omega (arith, pow)) (omega (arith, pow)) in
    let e = ap (bit_and (bit_xor a n)) (mask32-leading bits h) in
    (
      λ m. sym (shr-div k a) ∙ words.0 (sym e ∙ m) ∙ shr-div k n,
      λ s. e ∙ words.1 (shr-div k a ∙ s ∙ sym (shr-div k n)),
    )
