-- ===== src/Network/Cidr.antt =====
-- The network test decides agreement of prefixes, and the parser admits only masks that fit.
use Prim.Native.Nat.{bit_and, bit_xor}
use snuffleupagus.Base.{
  ℕ, zero, suc, ◌+◌, ◌*◌, ◌/◌, ◌%◌, ◌^◌, ◌≤◌, ◌<◌, ◌≡◌, ◌↔◌, Bool, true, false, List, [], ◌∷◌,
  Option, none, some, refl, inl, inr, arith, ◌==◌, ==_iff, length, All, Bytes, Bool-cases,
  Option-cases,
}
use snuffleupagus.Log.{Message, Run, pure}
use snuffleupagus.Network.Mask.{SamePrefix, mask32-SamePrefix}
use snuffleupagus.Network.{
  get_ip_version, version_of, match_as, cidr_match, address_of, Address, Family, Inet, ipv4, ipv6,
  SpCidr, cidr4_match, words_match, cidr6_match, mask32, mask_of, parsed, split_slash,
  get_ip_and_cidr,
}

div-two-pow-32 : (a : ℕ) → a < 2 ^ 32 → a / 2 ^ 32 ≡ 0
div-two-pow-32 a h = omega arith

-- An IPv4 address matches a network exactly when their first `bits` bits are the same.
pub cidr4_match-SamePrefix :
    (a n bits : ℕ)
    → a < 2 ^ 32
    → n < 2 ^ 32
    → bits ≤ 32
    → (cidr4_match a n bits ≡ true) ↔ SamePrefix bits a n
unfolding cidr4_match
cidr4_match-SamePrefix a n zero p q h = (λ _. omega arith, λ _. refl)
cidr4_match-SamePrefix a n (suc b) p q h =
    let words = mask32-SamePrefix (suc b) a n h p q in
    (λ m. words.0 (ground arith), λ s. let e = words.1 s in ground arith)

abbrev pub IsWord : ℕ → Type 0
IsWord w = w < 2 ^ 32

-- An address in network order, word after word: `whole` words are the same, and `part` bits of the
-- next.
abbrev pub SamePrefix6 : ℕ → ℕ → List ℕ → List ℕ → Type 0
SamePrefix6 zero part (x ∷ a) (y ∷ n) = SamePrefix part x y
SamePrefix6 (suc whole) part (x ∷ a) (y ∷ n) = (x ≡ y) × SamePrefix6 whole part a n
SamePrefix6 _ part _ _ = Unit

-- The test runs to its end, and `P` says what it found.
abbrev pub Decides {ℓ} : Option Bool → Type ℓ → Type ℓ
Decides r P = (b : Bool) × (r ≡ some b) × ((b ≡ true) ↔ P)

words_match-SamePrefix6 :
    (whole part : ℕ) (a n : List ℕ)
    → part < 32
    → All IsWord a
    → All IsWord n
    → length a ≡ length n
    → whole * 32 + part ≤ length a * 32
    → Decides (words_match whole part a n) (SamePrefix6 whole part a n)
unfolding words_match
words_match-SamePrefix6 zero zero [] [] p q r e h = (true, refl, (λ _. tt, λ _. refl))
words_match-SamePrefix6 zero (suc b) [] [] p q r e h = absurd (omega arith)
words_match-SamePrefix6 (suc k) part [] [] p q r e h = absurd (omega arith)
words_match-SamePrefix6 whole part [] (y ∷ n) p q r e h = absurd (omega arith)
words_match-SamePrefix6 whole part (x ∷ a) [] p q r e h = absurd (omega arith)
words_match-SamePrefix6 zero zero (x ∷ a) (y ∷ n) p q r e h =
    (true, refl, (λ _. omega arith, λ _. refl))
words_match-SamePrefix6 zero (suc b) (x ∷ a) (y ∷ n) p (qx, q) (ry, r) e h =
    let words = mask32-SamePrefix (suc b) x y (omega arith) qx ry in
    let test = ==_iff (bit_and (bit_xor x y) (mask32 (suc b))) 0 in
    (_, ground arith, (λ m. words.0 (test.0 m), λ s. test.1 (words.1 s)))
words_match-SamePrefix6 (suc k) part (x ∷ a) (y ∷ n) p (qx, q) (ry, r) e h =
    elim (Bool-cases (x == y)) [
      | inl same ↦
          let (b, runs, means) =
            words_match-SamePrefix6 k part a n p q r (omega arith) (omega arith) in
          (b, ground arith, (λ t. ((==_iff x y).0 same, means.0 t), λ t. means.1 t.1))
      | inr other ↦ (false, ground arith, (λ t. cc, λ t. ground arith))
    ]

-- For two IPv6 addresses of four words and at most 128 bits, the test reads no word behind an
-- address, and says whether the first `bits` bits are the same.
pub cidr6_match-SamePrefix6 :
    (a n : List ℕ) (bits : ℕ)
    → All IsWord a
    → All IsWord n
    → length a ≡ 4
    → length n ≡ 4
    → bits ≤ 128
    → Decides (cidr6_match a n bits) (SamePrefix6 (bits / 32) (bits % 32) a n)
unfolding cidr6_match
cidr6_match-SamePrefix6 a n bits p q la ln h =
    words_match-SamePrefix6 (bits / 32) (bits % 32) a n (omega arith) p q (omega arith)
      (omega arith)

-- What `inet_pton` promises of its results.
pub record IsInet (inet : Inet) : Type 0 where
  pub word : (ip : Bytes) (a : ℕ) → inet.pton4 ip ≡ some a → IsWord a
  pub words : (ip : Bytes) (a : List ℕ) → inet.pton6 ip ≡ some a → All IsWord a
  pub four : (ip : Bytes) (a : List ℕ) → inet.pton6 ip ≡ some a → length a ≡ 4

abbrev pub FitsAs : Address → ℕ → Type 0
FitsAs (ipv4 a) mask = IsWord a × (mask ≤ 32)
FitsAs (ipv6 a) mask = All IsWord a × (length a ≡ 4) × (mask ≤ 128)

-- A network whose mask is no longer than its address.
abbrev pub Fits : SpCidr → Type 0
Fits c = FitsAs c.ip c.mask

mask_of-le : (mask : Bytes) (m : ℕ) → mask_of mask ≡ some m → m ≤ 128
unfolding mask_of
mask_of-le mask m h = ground arith

module _ (inet : Inet) (laws : IsInet inet) where
  address_of-Fits :
      (family : Option Family) (ip : Bytes) (mask : ℕ) (c : SpCidr)
      → mask ≤ 128
      → address_of inet family ip mask ≡ parsed c
      → Fits c
  unfolding address_of
  address_of-Fits none ip mask c h e = cc
  address_of-Fits (some Family.inet4) ip mask c h e = elim (Option-cases (inet.pton4 ip)) [
    | inl bad ↦ absurd (ground arith)
    | inr (a, yes4) ↦ let w = laws.word ip a yes4 in ground arith
  ]
  address_of-Fits (some Family.inet6) ip mask c h e = elim (Option-cases (inet.pton6 ip)) [
    | inl bad ↦ absurd (ground arith)
    | inr (a, yes6) ↦ let w = laws.words ip a yes6 in let l = laws.four ip a yes6 in ground arith
  ]

  -- A network that the configuration parser accepts has an address of its family, and a mask that
  -- is no longer than that address.
  pub get_ip_and_cidr-Fits :
      (text : Bytes) (c : SpCidr) → get_ip_and_cidr inet text ≡ parsed c → Fits c
  unfolding get_ip_and_cidr
  get_ip_and_cidr-Fits text c e = elim (Option-cases (split_slash text)) [
    | inl bad ↦ absurd (ground arith)
    | inr ((ip, mask), found) ↦ elim (Option-cases (mask_of mask)) [
      | inl bad ↦ absurd (ground arith)
      | inr (m, good) ↦
          address_of-Fits (get_ip_version inet ip) ip m c (mask_of-le mask m good) (ground arith)
    ]
  ]

-- The address that a client's text denotes, in the first family that reads it.
pub client : Option ℕ → Option (List ℕ) → Option Address
client (some a) out6 = some (ipv4 a)
client none (some a) = some (ipv6 a)
client none none = none

-- The client has an address of the network's family with the network's prefix.
abbrev pub InNetwork : Address → Address → ℕ → Type 0
InNetwork (ipv4 a) (ipv4 n) bits = SamePrefix bits a n
InNetwork (ipv6 a) (ipv6 n) bits = SamePrefix6 (bits / 32) (bits % 32) a n
InNetwork _ _ _ = ⊥

-- What the test gives: for an address whether it is in the network, with no message. For a text that
-- is no address an error, which ends the request if errors are fatal, and else gives false.
pub data Answers (fatal_errors : Bool) (net : Address) (bits : ℕ)
    : Option Address → Run (Option Bool) → Type 0 where
  found :
      (a : Address) (b : Bool)
      → ((b ≡ true) ↔ InNetwork a net bits)
      → Answers fatal_errors net bits (some a) (pure (some b))
  ended : (m : Message) → fatal_errors ≡ true → Answers fatal_errors net bits none (m ∷ [], none)
  no_address :
      (m : Message)
      → fatal_errors ≡ false
      → Answers fatal_errors net bits none (m ∷ [], some (some false))

other_family : {P : Type 0} → ¬ P → (false ≡ true) ↔ P
other_family n = (λ e. cc, λ p. absurd (n p))

match_as-Answers :
    (fatal_errors : Bool) (out4 : Option ℕ) (out6 : Option (List ℕ)) (net : Address) (bits : ℕ)
    → ((a : ℕ) → out4 ≡ some a → IsWord a)
    → ((a : List ℕ) → out6 ≡ some a → All IsWord a × (length a ≡ 4))
    → FitsAs net bits
    → Answers fatal_errors net bits
        (client out4 out6)
        (match_as fatal_errors (version_of out4 out6) out4 out6 net bits)
unfolding match_as version_of client
match_as-Answers fatal_errors (some a) out6 (ipv4 n) bits w4 w6 (q, h) =
    found (ipv4 a) (cidr4_match a n bits) (cidr4_match-SamePrefix a n bits (w4 a refl) q h)
match_as-Answers fatal_errors (some a) out6 (ipv6 n) bits w4 w6 f =
    found (ipv4 a) false (other_family λ e. e)
match_as-Answers fatal_errors none (some a) (ipv4 n) bits w4 w6 f =
    found (ipv6 a) false (other_family λ e. e)
match_as-Answers fatal_errors none (some a) (ipv6 n) bits w4 w6 (q, l, h) =
    let (p, k) = w6 a refl in
    let (b, runs, means) = cidr6_match-SamePrefix6 a n bits p q k l h in
    rw runs (found (ipv6 a) b means)
match_as-Answers true none none net bits w4 w6 f = ended _ refl
match_as-Answers false none none net bits w4 w6 f = no_address _ refl

-- The test of a client against a network whose mask fits reads nothing outside an address. It passes
-- exactly when the text is an address of the network's family that has the network's prefix. A text
-- that is no address is logged as an error, which ends the request if errors are fatal, and is else
-- taken as outside the network.
pub cidr_match-InNetwork :
    (inet : Inet)
    → IsInet inet
    → (fatal_errors : Bool) (ip : Bytes) (c : SpCidr) → Fits c
    → Answers fatal_errors c.ip c.mask
        (client (inet.pton4 ip) (inet.pton6 ip))
        (cidr_match inet fatal_errors ip c)
unfolding cidr_match get_ip_version
cidr_match-InNetwork inet laws fatal_errors ip c f =
    match_as-Answers fatal_errors (inet.pton4 ip) (inet.pton6 ip) c.ip c.mask (laws.word ip)
      (λ a e. (laws.words ip a e, laws.four ip a e)) f
