-- ===== src/Network/Written.antt =====
-- `get_ip_str` of src/sp_network_utils.c: a network as text.
use snuffleupagus.Base.{
  ℕ, zero, suc, ◌+◌, ◌-◌, ◌/◌, ◌%◌, ◌*◌, ◌≤◌, ◌<◌, ◌≡◌, ◌≢◌, refl, arith, false, List, [], ◌∷◌,
  ◌++◌, Option, none, some, ltb, if◌then◌else◌, length, take, Bool-cases, ltb→lt, inl, inr, Bytes,
  All, ap, ◌∙◌,
}
use snuffleupagus.Network.{
  Inet, Address, ipv4, ipv6, SpCidr, split_slash, mask_of, address_of, version_of, get_ip_version,
  get_ip_and_cidr, parsed, digit_at, atoi_from, is_digit,
}
use snuffleupagus.Network.Cidr.{Fits, FitsAs}

-- `%d` of a mask, which is a byte.
abbrev digit : ℕ → ℕ
digit n = b'0' + n

unfoldable pub decimal : ℕ → Bytes
decimal n =
    if ltb n 10
    then digit n ∷ []
    else if ltb n 100
    then digit (n / 10) ∷ digit (n % 10) ∷ []
    else digit (n / 100) ∷ digit (n / 10 % 10) ∷ digit (n % 10) ∷ []

-- INET_ADDRSTRLEN and INET6_ADDRSTRLEN.
abbrev pub ipstr_len : Address → ℕ
ipstr_len (ipv4 a) = 16
ipstr_len (ipv6 a) = 46

-- `snprintf` behind the address writes what fits with its NUL.
abbrev with_mask : ℕ → ℕ → Option Bytes → Option Bytes
unfolding decimal
with_mask dst_len mask none = none
with_mask dst_len mask (some text) =
    some (text ++ take (dst_len - length text - 1) (b'/' ∷ decimal mask))

-- `inet_ntop` in the family of the address is the parameter; `none` is `false`.
unfoldable pub get_ip_str : (Address → Option Bytes) → ℕ → SpCidr → Option Bytes
unfolding with_mask
get_ip_str ntop dst_len cidr =
    if ltb dst_len (ipstr_len cidr.ip + 1 + 3 + 1)
    then none
    else with_mask dst_len cidr.mask (ntop cidr.ip)

-- What `inet_pton` reads of a text is the address.
abbrev pub Reads : Inet → Bytes → Address → Type 0
Reads inet t (ipv4 a) = inet.pton4 t ≡ some a
Reads inet t (ipv6 a) = (inet.pton4 t ≡ none) × (inet.pton6 t ≡ some a)

-- What `inet_ntop` promises: it prints every address, with no slash and within the length of the
-- family, so that `inet_pton` reads it back.
abbrev pub IsNtop : Inet → (Address → Option Bytes) → Type 0
IsNtop inet ntop =
    (a : Address) (mask : ℕ)
    → FitsAs a mask
    → (t : Bytes) × (ntop a ≡ some t)
      × (length t < ipstr_len a)
      × All (λ c. c ≢ b'/') t
      × Reads inet t a

split_slash-append :
    (t mask : Bytes) → All (λ c. c ≢ b'/') t → split_slash (t ++ b'/' ∷ mask) ≡ some (t, mask)
unfolding split_slash
split_slash-append [] mask h = refl
split_slash-append (c ∷ t) mask (p, h) = ground (arith, split_slash-append t mask h)

mask_of-one : (a : ℕ) → a < 10 → mask_of (digit a ∷ []) ≡ some a
unfolding mask_of digit_at atoi_from is_digit
mask_of-one a p = ground arith

mask_of-two : (a b : ℕ) → a < 10 → b < 10 → mask_of (digit a ∷ digit b ∷ []) ≡ some (a * 10 + b)
unfolding mask_of digit_at atoi_from is_digit
mask_of-two a b p q = ground arith

mask_of-three :
    (a b c : ℕ)
    → a < 10
    → b < 10
    → c < 10
    → a * 100 + b * 10 + c ≤ 128
    → mask_of (digit a ∷ digit b ∷ digit c ∷ []) ≡ some (a * 100 + b * 10 + c)
unfolding mask_of digit_at atoi_from is_digit
mask_of-three a b c p q r h = ground arith

mask_of-decimal : (m : ℕ) → m ≤ 128 → mask_of (decimal m) ≡ some m
unfolding decimal
mask_of-decimal m h = elim (Bool-cases (ltb m 10)) [
  | inl small ↦ rw small (mask_of-one m (ltb→lt m 10 small))
  | inr not_small ↦ rw not_small (elim (Bool-cases (ltb m 100)) [
    | inl middle ↦
        rw middle
          (mask_of-two (m / 10) (m % 10) (ground arith) (omega arith) ∙ ap some (omega arith))
    | inr large ↦ rw large (
        mask_of-three (m / 100) (m / 10 % 10) (m % 10) (omega arith) (omega arith) (omega arith)
          (omega arith)
        ∙ ap some (omega arith))
  ])
]

length-decimal : (m : ℕ) → length (decimal m) ≤ 3
unfolding decimal
length-decimal m = ground arith

abbrev with_slash : Bytes → ℕ → Bytes
with_slash t m = t ++ b'/' ∷ decimal m

-- Nothing of the mask is cut off.
take-all {ℓ} : {A : Type ℓ} (n : ℕ) (xs : List A) → length xs ≤ n → take n xs ≡ xs
take-all zero [] h = refl
take-all zero (x ∷ xs) h = absurd (omega arith)
take-all (suc n) [] h = refl
take-all (suc n) (x ∷ xs) h = ap (◌∷◌ x) (take-all n xs (omega arith))

get_ip_str_lem :
    (ntop : Address → Option Bytes) (n : ℕ) (c : SpCidr) (t : Bytes)
    → ipstr_len c.ip + 5 ≤ n
    → ntop c.ip ≡ some t
    → length t < ipstr_len c.ip
    → get_ip_str ntop n c ≡ some (with_slash t c.mask)
unfolding get_ip_str
get_ip_str_lem ntop n c t h e l =
    let room : ltb n (ipstr_len c.ip + 1 + 3 + 1) ≡ false = ground arith in
    rw (room, e)
      (ap (λ s. some (t ++ s))
        (take-all (n - length t - 1) (b'/' ∷ decimal c.mask)
          (omega (arith, length-decimal c.mask))))

ipstr_len-le : (a : Address) → ipstr_len a + 5 ≤ 51
ipstr_len-le (ipv4 a) = omega arith
ipstr_len-le (ipv6 a) = omega arith

FitsAs-le : (a : Address) (mask : ℕ) → FitsAs a mask → mask ≤ 128
FitsAs-le (ipv4 a) mask h = omega arith
FitsAs-le (ipv6 a) mask h = omega arith

address_of-Reads :
    (inet : Inet) (t : Bytes) (a : Address) (mask : ℕ)
    → FitsAs a mask
    → Reads inet t a
    → address_of inet (get_ip_version inet t) t mask ≡ parsed (record { ip = a; mask = mask })
unfolding get_ip_version version_of address_of
address_of-Reads inet t (ipv4 a) mask f r = ground arith
address_of-Reads inet t (ipv6 a) mask f r = ground arith

get_ip_and_cidr-parts :
    (inet : Inet) (text ip mask : Bytes) (m : ℕ)
    → split_slash text ≡ some (ip, mask)
    → mask_of mask ≡ some m
    → get_ip_and_cidr inet text ≡ address_of inet (get_ip_version inet ip) ip m
unfolding get_ip_and_cidr
get_ip_and_cidr-parts inet text ip mask m h k = ground arith

-- In a buffer of INET6_ADDRSTRLEN + 5 bytes, `get_ip_str` writes every network whose mask fits, and
-- the parser of the configuration reads that text as the same network.
pub get_ip_and_cidr-get_ip_str :
    (inet : Inet) (ntop : Address → Option Bytes)
    → IsNtop inet ntop
    → (c : SpCidr) → Fits c
    → (text : Bytes) × (get_ip_str ntop 51 c ≡ some text) × (get_ip_and_cidr inet text ≡ parsed c)
get_ip_and_cidr-get_ip_str inet ntop laws c f =
    let (t, prints, short, clean, reads) = laws c.ip c.mask f in
    let split = split_slash-append t (decimal c.mask) clean in
    let masked = mask_of-decimal c.mask (FitsAs-le c.ip c.mask f) in
    (
      with_slash t c.mask,
      get_ip_str_lem ntop 51 c t (ipstr_len-le c.ip) prints short,
      get_ip_and_cidr-parts inet (with_slash t c.mask) t (decimal c.mask) c.mask split masked
          ∙ address_of-Reads inet t c.ip c.mask f reads,
    )
