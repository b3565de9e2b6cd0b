-- ===== src/Tests/Text.antt =====
-- Texts, addresses, lists and messages.
use snuffleupagus.Base.{
  ℕ, ◌≡◌, refl, Bool, true, false, List, [], ◌∷◌, none, Bytes, codes, equals, ltb, arith,
}
use snuffleupagus.Config.{SpParsedKeyword}
use snuffleupagus.Filter.{encode, ServerConfig, Vars}
use snuffleupagus.Filter.Encode.{decode, decode-encode}
use snuffleupagus.Log.{Level, LogType, Message, LogState, MediaType}
use snuffleupagus.Network.{SpCidr, Address, cidr_match, get_ip_and_cidr}
use snuffleupagus.Network.Cidr.{Answers, Fits, client, get_ip_and_cidr-Fits, cidr_match-InNetwork}
use snuffleupagus.SpList.{sp_list_sort}
use snuffleupagus.SpList.Sort.{IsWeakOrder, IsSorted, ranked, sp_list_sort_stable}
use snuffleupagus.Tests.Samples.{one_inet, one_inet-IsInet, with_text, plain}
use snuffleupagus.Zval.{Zval}

abbrev ten : SpCidr
ten = record { ip = Address.ipv4 0x0a000001; mask = 8 }

cidr_match-InNetwork_example :
    Answers true ten.ip ten.mask
      (client (one_inet.pton4 (codes "10.0.0.1")) (one_inet.pton6 (codes "10.0.0.1")))
      (cidr_match one_inet true (codes "10.0.0.1") ten)
cidr_match-InNetwork_example =
    cidr_match-InNetwork one_inet one_inet-IsInet true (codes "10.0.0.1") ten
      (omega arith, omega arith)

-- A text that is no address ends the request with the default log medium.
no_address_ends : (cidr_match one_inet true (codes "x") ten).1 ≡ none
unfolding cidr_match equals
no_address_ends = refl

get_ip_and_cidr-Fits_example : Fits ten
unfolding get_ip_and_cidr equals
get_ip_and_cidr-Fits_example =
    get_ip_and_cidr-Fits one_inet one_inet-IsInet (codes "10.0.0.1/8") ten refl

decode-encode_example : decode (encode (codes "a<b>")) ≡ codes "a<b>"
decode-encode_example = decode-encode (codes "a<b>") (ground arith)

abbrev both : ServerConfig
both = record { server_strip = true; server_encode = true }

abbrev vars : Vars
vars = (codes "QUERY_STRING", Zval.string (codes "a=<b>")) ∷ []

ltb-IsWeakOrder : IsWeakOrder ltb
ltb-IsWeakOrder = record { asymm = λ x y h. ground arith; neg_trans = λ x y z h k. ground arith }

sp_list_sort_stable_example :
    IsSorted ltb (sp_list_sort ltb (3 ∷ 1 ∷ 2 ∷ []))
    × ((a : ℕ) → ranked ltb a (sp_list_sort ltb (3 ∷ 1 ∷ 2 ∷ [])) ≡ ranked ltb a (3 ∷ 1 ∷ 2 ∷ []))
sp_list_sort_stable_example = sp_list_sort_stable ltb ltb-IsWeakOrder (3 ∷ 1 ∷ 2 ∷ [])

abbrev rule : List SpParsedKeyword
rule = with_text (codes "function") (codes "system") ∷ plain (codes "drop") ∷ []

abbrev to_log : LogState
to_log = record { media = record { type = MediaType.log_zend; path = none }; nonfatal = false }

abbrev dropping : Message
dropping = record { feature = "ini_protection"; level = Level.error; kind = LogType.drop }

abbrev simulated : Message
simulated = record { feature = "ini_protection"; level = Level.warning; kind = LogType.simulation }

abbrev nothing_opens : Bytes → Bool
nothing_opens path = false

abbrev errors_end : Level → Bool
errors_end Level.error = true
errors_end _ = false
