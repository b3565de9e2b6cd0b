-- ===== src/Disabled/Failing.antt =====
-- The tests of a rule in src/sp_disabled_functions.c that end the request by an error.
use snuffleupagus.Base.{
  ℕ, ◌≡◌, refl, ◌↔◌, ◌⊎◌, inl, inr, Bool, true, false, ◌&&◌, List, Option, none, some, Bytes, arith,
  if◌then◌else◌,
}
use snuffleupagus.Disabled.{Request, get_ipaddr}
use snuffleupagus.Disabled.Rules.{
  client_matches, hash_matches, place_matches, var_matches, context_matches, own_place,
  return_matches,
}
use snuffleupagus.Frames.{Frame}
use snuffleupagus.Globals.{SpDisabledFunction}
use snuffleupagus.Log.{Run, ◌>>=◌, pure}
use snuffleupagus.Network.{SpCidr, Family, Address, match_as, cidr_match, get_ip_version}
use snuffleupagus.Zval.{Zval}

module _ (req : Request) where
  -- The address of the client is none, and the rule asks for one.
  abbrev pub HasNoAddress : Option SpCidr → Type 0
  HasNoAddress none = ⊥
  HasNoAddress (some cidr) =
      get_ip_version req.inet (get_ipaddr req.sapi_addr req.remote_addr req.forwarded) ≡ none

  -- The file cannot be opened, and the rule asks for its hash.
  abbrev pub HasNoHash : Option Bytes → Bytes → Type 0
  HasNoHash none current = ⊥
  HasNoHash (some hash) current = req.file_hash current ≡ none

  matched :
      (version : Option Family) (out4 : Option ℕ) (out6 : Option (List ℕ)) (net : Address)
      (bits : ℕ) (f : Option Bool → Bool)
      → ((match_as req.fatal_errors version out4 out6 net bits >>= λ r. pure (f r)).1 ≡ none)
        ↔ ((req.fatal_errors ≡ true) × (version ≡ none))
  unfolding match_as
  matched version out4 out6 net bits f = ground arith

  client_matches-none :
      (cidr : Option SpCidr)
      → ((client_matches req cidr).1 ≡ none) ↔ ((req.fatal_errors ≡ true) × HasNoAddress cidr)
  unfolding client_matches cidr_match
  client_matches-none none = ground arith
  client_matches-none (some c) = matched _ _ _ _ _ _

  hash_matches-none :
      (hash : Option Bytes) (current : Bytes)
      → ((hash_matches req hash current).1 ≡ none)
        ↔ ((req.fatal_errors ≡ true) × HasNoHash hash current)
  unfolding hash_matches
  hash_matches-none none current = ground arith
  hash_matches-none (some h) current = ground arith

  -- Errors are fatal, and a rule whose place is that of the call has no address to test, or, its
  -- network and its variable being as they should, no hash.
  abbrev pub CallFails : List Frame → Bytes → Bytes → SpDisabledFunction → Type 0
  CallFails frames path current df =
      (req.fatal_errors ≡ true)
      × (place_matches req frames path current df ≡ true)
      × (HasNoAddress df.cidr
          ⊎ (((client_matches req df.cidr).1 ≡ some true)
              × (var_matches req frames df ≡ true)
              × HasNoHash df.hash current))

  abbrev pub ReturnFails : List Frame → Bytes → Bytes → SpDisabledFunction → Type 0
  ReturnFails frames path current df =
      (req.fatal_errors ≡ true)
      × (own_place req frames path current df ≡ true)
      × HasNoHash df.hash current

  call_fails :
      (place var : Bool) (client hash : Run Bool) (fatal no_address no_hash : Type 0)
      → (client.1 ≡ none) ↔ (fatal × no_address)
      → (hash.1 ≡ none) ↔ (fatal × no_hash)
      → ((if place then (client >>= λ c. if c && var then hash else pure false) else pure false).1
          ≡ none)
        ↔ (fatal
            × (place ≡ true)
            × (no_address ⊎ ((client.1 ≡ some true) × (var ≡ true) × no_hash)))
  call_fails false var client hash fatal no_address no_hash c h = (λ e. cc, λ t. cc (t.1))
  call_fails true var (m, none) hash fatal no_address no_hash c h =
      (λ e. let (f, n) = c.0 refl in (f, refl, inl n), λ t. refl)
  call_fails true var (m, some false) hash fatal no_address no_hash c h =
      (λ e. cc, λ t. elim (t.2) [ inl n ↦ cc (c.1 (t.0, n)) | inr (s, _, _) ↦ cc s ])
  call_fails true false (m, some true) hash fatal no_address no_hash c h =
      (λ e. cc, λ t. elim (t.2) [ inl n ↦ cc (c.1 (t.0, n)) | inr (s, v, _) ↦ cc v ])
  call_fails true true (m, some true) hash fatal no_address no_hash c h = (
    λ e. let (f, n) = h.0 e in (f, refl, inr (refl, refl, n)),
    λ t. elim (t.2) [ inl n ↦ absurd (cc (c.1 (t.0, n))) | inr (s, v, n) ↦ h.1 (t.0, n) ],
  )

  return_fails :
      (place : Bool) (hash : Run Bool) (fatal no_hash : Type 0) (result : Bool)
      → (hash.1 ≡ none) ↔ (fatal × no_hash)
      → ((if place then (hash >>= λ s. pure (s && result)) else pure false).1 ≡ none)
        ↔ (fatal × (place ≡ true) × no_hash)
  return_fails false hash fatal no_hash result h = (λ e. cc, λ t. cc (t.1))
  return_fails true (m, none) fatal no_hash result h =
      (λ e. let (f, n) = h.0 refl in (f, refl, n), λ t. refl)
  return_fails true (m, some b) fatal no_hash result h =
      (λ e. cc, λ t. absurd (cc (h.1 (t.0, t.2))))

  pub context_matches-CallFails :
      (frames : List Frame) (path current : Bytes) (df : SpDisabledFunction)
      → ((context_matches req frames path current df).1 ≡ none) ↔ CallFails frames path current df
  unfolding context_matches
  context_matches-CallFails frames path current df =
      call_fails _ _ _ _ _ _ _ (client_matches-none df.cidr) (hash_matches-none df.hash current)

  pub return_matches-ReturnFails :
      (frames : List Frame) (path current : Bytes) (ret : Option Zval) (df : SpDisabledFunction)
      → ((return_matches req frames path current ret df).1 ≡ none)
        ↔ ReturnFails frames path current df
  unfolding return_matches
  return_matches-ReturnFails frames path current ret df =
      return_fails _ _ _ _ _ (hash_matches-none df.hash current)
