-- ===== src/Tests/Secrets.antt =====
-- Cookies, sessions and serialized data at concrete inputs. The libraries are replaced by ones that
-- keep the laws: a base64 that marks a text, a box that shows what is in it, a hash of 64 digits.
use snuffleupagus.Base.{
  ◌≡◌, ◌↔◌, refl, arith, true, false, List, [], ◌∷◌, ◌++◌, Option, none, some, Bytes, codes, pos,
  equals,
}
use snuffleupagus.Cookies.{
  Conversions, CookieArgs, CookieConfig, SetCookie, Sent, Kept, Warning, sp_setcookie,
  sp_lookup_cookie_config, encrypts, decrypt_cookie,
}
use snuffleupagus.Cookies.Protection.{decrypt_cookie-sp_setcookie}
use snuffleupagus.Crypt.{Crypto, KeyConfig, IsCrypto, keep, zeros, decrypt_zval}
use snuffleupagus.Crypt.RoundTrip.{IsAuthentic, decrypt_zval-IsAuthentic}
use snuffleupagus.Globals.{SpCookie, SameSite, ConfigSession}
use snuffleupagus.Match.{sp_match_value}
use snuffleupagus.Session.{PsModule, check_sid_length, sp_hook_s_read, sp_hook_s_write}
use snuffleupagus.Session.Stored.{sp_hook_s_read-sp_hook_s_write}
use snuffleupagus.Tests.Samples.{texts}
use snuffleupagus.Unserialize.{HashOps, Hmac, UnserializeConfig, Options, sp_unserialize}
use snuffleupagus.Unserialize.Authentic.{HasSha256, signature, sp_unserialize-signature}
use snuffleupagus.Zval.{Zval, Key}

abbrev unmarked : Bytes → Option Bytes
unmarked [] = none
unmarked (_ ∷ s) = some s

abbrev pub lib : Crypto
lib = record {
  fatal_errors = true;
  getenv = λ name. none;
  sha256 = λ s. codes "key";
  base64_encode = λ s. 61 ∷ s;
  base64_decode = unmarked;
  secretbox = λ m n k. some m;
  secretbox_open = λ c n k. some c;
}

lib-IsCrypto : IsCrypto lib
lib-IsCrypto = record {
  decodes = λ s. refl;
  encodes = λ c s h. cc h;
  boxes = λ m n k h. refl;
  same_length = λ m n k c h. cc h;
  opens = λ s n k c h. ground arith;
}

abbrev key : KeyConfig
key = record { cookies_env_var = none; encryption_key = some (codes "secret") }

abbrev nonce : Bytes
nonce = codes "abcdefghijklmnopqrstuvwx"

abbrev rule : SpCookie
rule = record {
  samesite = some SameSite.lax;
  encrypt = true;
  name = some (codes "id");
  name_r = none;
  simulation = false;
}

abbrev cookies : CookieConfig
cookies = record { cookies = rule ∷ []; auto_cookie_secure = true; https = true; key = key }

abbrev conv : Conversions
conv = record { get_long = λ v. pos 0; get_string = λ v. []; is_true = λ v. false }

abbrev set_id : SetCookie
set_id = record {
  name = codes "id";
  value = some (codes "42");
  expires_or_options = none;
  path = none;
  domain = none;
  secure = false;
  httponly = false;
  num_args = 2;
}

encrypted_id : encrypts (sp_lookup_cookie_config texts cookies.cookies set_id.name) ≡ true
unfolding sp_lookup_cookie_config sp_match_value equals
encrypted_id = refl

decrypt_cookie-sp_setcookie_example :
    (a : CookieArgs) × (w : List Warning) × (z : Bytes) × ((sp_setcookie texts conv lib cookies
        nonce set_id).1
      ≡ some (Sent.sent a w))
    × (a.value ≡ some z)
    × (a.httponly ≡ true)
    × ((decrypt_cookie texts lib cookies.key cookies.cookies
          (Key.str set_id.name)
          (Zval.string z)).1
        ≡ some (Kept.kept (Zval.string (codes "42"))))
decrypt_cookie-sp_setcookie_example =
    decrypt_cookie-sp_setcookie texts conv lib cookies nonce set_id (codes "42") lib-IsCrypto
      encrypted_id refl (omega arith) refl (omega arith)

abbrev sent_id : CookieArgs
sent_id = record {
  name = codes "id";
  value = some (61 ∷ (nonce ++ (zeros 32 ++ (codes "42" ++ zeros 1))));
  expires = pos 0;
  path = some [];
  domain = none;
  secure = true;
  httponly = true;
  samesite = some (codes "Lax");
}

sends_id : (sp_setcookie texts conv lib cookies nonce set_id).1 ≡ some (Sent.sent sent_id [])
unfolding sp_setcookie sp_lookup_cookie_config sp_match_value equals
sends_id = refl

in_box :
    (decrypt_zval lib key false (61 ∷ (nonce ++ (zeros 32 ++ (codes "42" ++ zeros 1))))).1
    ≡ some (keep (codes "42"))
unfolding decrypt_zval zeros
in_box = refl

decrypt_zval-IsAuthentic_example :
    IsAuthentic lib key (61 ∷ (nonce ++ (zeros 32 ++ (codes "42" ++ zeros 1)))) (codes "42")
decrypt_zval-IsAuthentic_example =
    decrypt_zval-IsAuthentic lib key (61 ∷ (nonce ++ (zeros 32 ++ (codes "42" ++ zeros 1))))
      (codes "42") in_box

-- A text that is no base64 ends the request, in simulation too.
no_base64 : (decrypt_zval lib key true []).1 ≡ none
unfolding decrypt_zval
no_base64 = refl

abbrev session : ConfigSession
session = record { encrypt = true; simulation = false; sid_min_length = 4; sid_max_length = 8 }

passes : (check_sid_length session (some (codes "abcde"))).1 ≡ some tt
unfolding check_sid_length
passes = refl

-- A store of one session.
abbrev memory : PsModule Bytes
memory = record { s_read = λ t sid. (true, some t); s_write = λ t sid v. (v, true) }

sp_hook_s_read-sp_hook_s_write_example :
    (t : Bytes) × ((sp_hook_s_write memory lib key session nonce []
        (codes "abcde")
        (codes "x|i:1;")).1
      ≡ some (t, true))
    × ((sp_hook_s_read memory lib key session t (codes "abcde")).1
        ≡ some (true, some (codes "x|i:1;")))
sp_hook_s_read-sp_hook_s_write_example =
    sp_hook_s_read-sp_hook_s_write lib key session lib-IsCrypto memory nonce (codes "abcde")
      (codes "x|i:1;") [] passes (λ v. refl) (λ v. refl) refl (omega arith)

abbrev digits : Bytes
digits = codes "0123456789abcdef0123456789abcdef0123456789abcdef0123456789abcdef"

abbrev ops : HashOps
ops = record { is_crypto = true; block_size = 64; hash = λ s. s; bin2hex = λ s. digits }

abbrev hmac : Hmac
hmac = record {
  fatal_errors = true;
  keys = record { prep_key = λ ops k. k; xor_char = λ k c n. k };
  ops = some ops;
}

hmac-HasSha256 : HasSha256 hmac ops
hmac-HasSha256 = record { fetched = refl; is_crypto = refl; digits = λ s. refl }

abbrev signing : UnserializeConfig
signing = record {
  unserialize = record {
    enable = true;
    simulation = false;
    dump = none;
    textual_representation = none;
  };
  unserialize_noclass = record { enable = false; textual_representation = none };
  encryption_key = codes "secret";
}

sp_unserialize-signature_example :
    ((sp_unserialize hmac signing (codes "i:1;" ++ digits)).1 ≡ some (codes "i:1;", Options.given))
    ↔ (codes "i:1;" ++ digits
        ≡ codes "i:1;" ++ signature hmac ops hmac-HasSha256 signing (codes "i:1;"))
sp_unserialize-signature_example =
    sp_unserialize-signature hmac ops hmac-HasSha256 signing (codes "i:1;" ++ digits) (codes "i:1;")
      (record { enabled = refl; enforced = refl; classes = refl })
