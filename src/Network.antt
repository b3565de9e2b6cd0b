-- ===== src/Network.antt =====
-- src/sp_network_utils.c: addresses, network masks, and the test of an address against a network.
-- An IPv4 address is the 32-bit number `ntohl(s_addr)`, an IPv6 address the list of its four words
-- so read: `htonl` of a mask and the byte order of the words then cancel in `(a ^ n) & mask`.
pub mod Bits
pub mod Cidr
pub mod Mask
pub mod Written
use Prim.Native.Nat.{bit_and, bit_xor}
use snuffleupagus.Base.{
  ℕ, zero, suc, ◌+◌, ◌-◌, ◌*◌, ◌/◌, ◌%◌, ◌^◌, Bool, true, false, not, ◌&&◌, ◌||◌, List, [], ◌∷◌,
  Option, none, some, ltb, leb, ◌==◌, if◌then◌else◌, length, drop, get_elem?, Bytes,
}
use snuffleupagus.Log.{Run, ◌>>◌, pure, sp_log_err}

-- `inet_pton` of the C library, at `AF_INET` and at `AF_INET6`.
pub record Inet : Type 0 where
  pub pton4 : Bytes → Option ℕ
  pub pton6 : Bytes → Option (List ℕ)

pub data Family : Type 0 where
  inet4 inet6 : Family

-- The union `ip`, with `ip_version` for its tag.
pub data Address : Type 0 where
  ipv4 : ℕ → Address
  ipv6 : List ℕ → Address

pub record SpCidr : Type 0 where
  pub ip : Address
  pub mask : ℕ

-- `0xFFFFFFFFu << (32 - bits)`, as a uint32_t.
unfoldable pub mask32 : ℕ → ℕ
mask32 bits = (0xffff_ffff * 2 ^ (32 - bits)) % 2 ^ 32

unfoldable pub cidr4_match : ℕ → ℕ → ℕ → Bool
cidr4_match addr net bits =
    if bits == 0 then true else bit_and (bit_xor addr net) (mask32 bits) == 0

-- `memcmp(a, n, words << 2) == 0`; `none` is a read behind the end of an address.
unfoldable pub words_equal : ℕ → List ℕ → List ℕ → Option Bool
words_equal zero a n = some true
words_equal (suc k) (x ∷ a) (y ∷ n) = if x == y then words_equal k a n else some false
words_equal (suc k) _ _ = none

-- The test of the word that the mask covers in part.
unfoldable pub word_match : ℕ → Option ℕ → Option ℕ → Option Bool
word_match incomplete (some x) (some y) = some (bit_and (bit_xor x y) (mask32 incomplete) == 0)
word_match incomplete _ _ = none

unfoldable pub partial_match : ℕ → ℕ → List ℕ → List ℕ → Option Bool
unfolding word_match
partial_match whole incomplete a n =
    if incomplete == 0
    then some true
    else word_match incomplete (get_elem? a whole) (get_elem? n whole)

-- The comparison of the whole words, then that of the next one.
unfoldable pub words_match : ℕ → ℕ → List ℕ → List ℕ → Option Bool
unfolding partial_match words_equal
words_match whole incomplete a n = elim (words_equal whole a n) [
  | none ↦ none
  | some false ↦ some false
  | some true ↦ partial_match whole incomplete a n
]

-- `bits >> 5` and `bits & 0x1F`.
unfoldable pub cidr6_match : List ℕ → List ℕ → ℕ → Option Bool
unfolding words_match
cidr6_match address network bits = words_match (bits / 32) (bits % 32) address network

-- The digits at the head of a text, as `atoi` reads them. (A sign and blanks in front are read by
-- `atoi` too; `get_ip_and_cidr` refuses any text whose first byte is no digit.)
unfoldable pub is_digit : ℕ → Bool
is_digit c = leb b'0' c && leb c b'9'

unfoldable pub atoi_from : ℕ → Bytes → ℕ
unfolding is_digit
atoi_from acc [] = acc
atoi_from acc (c ∷ s) =
    let rest = atoi_from (acc * 10 + (c - b'0')) s in if is_digit c then rest else acc

-- `strchr(ip, '/')`: what stands before the first slash, and behind it.
unfoldable pub split_slash : Bytes → Option (Bytes × Bytes)
split_slash [] = none
split_slash (c ∷ s) =
    if c == b'/'
    then some ([], s)
    else elim (split_slash s) [ none ↦ none | some (ip, mask) ↦ some (c ∷ ip, mask) ]

-- `isdigit(mask[i])`, where the text ends with NUL.
digit_at : Bytes → ℕ → Bool
unfolding is_digit
digit_at mask i = elim (get_elem? mask i) [ none ↦ false | some c ↦ is_digit c ]

pub data Parsed : Type 0 where
  parsed : SpCidr → Parsed
  invalid : Parsed
  assert_failed : Parsed

-- The checks of the text behind the slash; `some` is the mask.
unfoldable pub mask_of : Bytes → Option ℕ
unfolding digit_at atoi_from
mask_of mask =
    let masklen = length mask in
    let imask = atoi_from 0 mask in
    if ltb masklen 1
      || ltb 3 masklen
      || not (digit_at mask 0)
      || leb 2 masklen && not (digit_at mask 1)
      || masklen == 3 && not (digit_at mask 2)
      || ltb 128 imask
    then none
    else some imask

-- What the two calls of `inet_pton` say of the family; `none` is -1.
unfoldable pub version_of : Option ℕ → Option (List ℕ) → Option Family
version_of (some _) out6 = some Family.inet4
version_of none (some _) = some Family.inet6
version_of none none = none

-- The switch of `cidr_match`, with what `inet_pton` reads in the family of the case. `none` is a
-- read of an address that was not written, or behind its end. A text that is no address is an error,
-- which ends the request if errors are fatal.
unfoldable pub match_as :
    Bool → Option Family → Option ℕ → Option (List ℕ) → Address → ℕ → Run (Option Bool)
match_as fatal_errors (some Family.inet4) (some a) out6 (ipv4 net) bits =
    pure (some (cidr4_match a net bits))
match_as fatal_errors (some Family.inet4) none out6 (ipv4 net) bits = pure none
match_as fatal_errors (some Family.inet6) out4 (some a) (ipv6 net) bits =
    pure (cidr6_match a net bits)
match_as fatal_errors (some Family.inet6) out4 none (ipv6 net) bits = pure none
match_as fatal_errors none out4 out6 net bits =
    sp_log_err fatal_errors "cidr_match" >> pure (some false)
match_as fatal_errors (some _) out4 out6 net bits = pure (some false)

module _ (inet : Inet) where
  unfoldable pub get_ip_version : Bytes → Option Family
  unfolding version_of
  get_ip_version ip = version_of (inet.pton4 ip) (inet.pton6 ip)

  unfoldable pub cidr_match : Bool → Bytes → SpCidr → Run (Option Bool)
  unfolding get_ip_version match_as
  cidr_match fatal_errors ip cidr =
      match_as fatal_errors (get_ip_version ip) (inet.pton4 ip) (inet.pton6 ip) cidr.ip cidr.mask

  -- What follows the call of `get_ip_version`, on its result.
  address_of : Option Family → Bytes → ℕ → Parsed
  address_of none ip mask = assert_failed
  address_of (some Family.inet4) ip mask = if ltb 32 mask then invalid else elim (inet.pton4 ip) [
    | none ↦ assert_failed
    | some a ↦ parsed (record { ip = ipv4 a; mask = mask })
  ]
  address_of (some Family.inet6) ip mask = elim (inet.pton6 ip) [
    | none ↦ assert_failed
    | some a ↦ parsed (record { ip = ipv6 a; mask = mask })
  ]

  unfoldable pub get_ip_and_cidr : Bytes → Parsed
  unfolding split_slash mask_of address_of get_ip_version
  get_ip_and_cidr text = elim (split_slash text) [
    | none ↦ invalid
    | some (ip, mask) ↦ elim (mask_of mask) [
      | none ↦ invalid
      | some imask ↦ address_of (get_ip_version ip) ip imask
    ]
  ]
