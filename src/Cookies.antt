-- ===== src/Cookies.antt =====
-- src/sp_cookie_encryption.c, from PHP 7.3 and below 8.5: the cookies of a request are decrypted, and
-- `setcookie` encrypts. PHP's conversions of values are parameters.
pub mod Protection
use snuffleupagus.Base.{
  ℕ, ◌+◌, ◌<◌, ℤ, pos, Bool, true, false, ◌&&◌, ◌||◌, not, List, [], ◌∷◌, Option, none, some, Bytes,
  codes, equals_ci, is_set, ltb, ◌==◌, if◌then◌else◌,
}
use snuffleupagus.Crypt.{Crypto, KeyConfig, Apply, keep, remove, decrypt_zval, encrypt_zval}
use snuffleupagus.Globals.{SpCookie, SameSite}
use snuffleupagus.Log.{Run, ◌>>=◌, pure}
use snuffleupagus.Match.{Texts, sp_match_value}
use snuffleupagus.Zval.{Key, Zval, Items}

unfoldable pub sp_lookup_cookie_config : Texts → List SpCookie → Bytes → Option SpCookie
unfolding sp_match_value
sp_lookup_cookie_config texts [] key = none
sp_lookup_cookie_config texts (config ∷ it) key =
    if sp_match_value texts key config.name config.name_r
    then some config
    else sp_lookup_cookie_config texts it key

-- `cookie && cookie->encrypt`.
abbrev pub encrypts : Option SpCookie → Bool
encrypts none = false
encrypts (some cookie) = cookie.encrypt

abbrev in_simulation : Option SpCookie → Bool
in_simulation none = false
in_simulation (some cookie) = cookie.simulation

-- What becomes of a cookie: it is kept with a value, or removed.
pub data Kept : Type 0 where
  kept : Zval → Kept
  removed : Kept

abbrev kept_text : Apply → Kept
kept_text (keep v) = Kept.kept (Zval.string v)
kept_text remove = Kept.removed

abbrev decrypt_text : Crypto → KeyConfig → Bool → Zval → Run Kept
unfolding decrypt_zval
decrypt_text lib cfg simulation (Zval.string []) = pure (Kept.kept (Zval.string []))
decrypt_text lib cfg simulation (Zval.string (c ∷ s)) = do
  ret ← decrypt_zval lib cfg simulation (c ∷ s)
  pure (kept_text ret)
decrypt_text lib cfg simulation v = pure (Kept.kept v)

-- A numeric key is `NULL`.
unfoldable pub decrypt_cookie : Texts → Crypto → KeyConfig → List SpCookie → Key → Zval → Run Kept
unfolding sp_lookup_cookie_config decrypt_text
decrypt_cookie texts lib cfg cookies (Key.idx i) v = pure (Kept.kept v)
decrypt_cookie texts lib cfg cookies (Key.str key) v =
    let cookie = sp_lookup_cookie_config texts cookies key in
    if encrypts cookie then decrypt_text lib cfg (in_simulation cookie) v else pure (Kept.kept v)

-- The arguments of `php_setcookie`; a `zend_string` may be NULL.
pub record CookieArgs : Type 0 where
  pub name : Bytes
  pub value : Option Bytes
  pub expires : ℤ
  pub path : Option Bytes
  pub domain : Option Bytes
  pub secure : Bool
  pub httponly : Bool
  pub samesite : Option Bytes

-- `zval_get_long`, `zval_get_string` and `zend_is_true`.
pub record Conversions : Type 0 where
  pub get_long : Zval → ℤ
  pub get_string : Zval → Bytes
  pub is_true : Zval → Bool

-- The warnings of `php_error_docref`.
pub data Warning : Type 0 where
  unrecognized_key : Bytes → Warning
  numeric_key no_valid_options arguments_behind_options : Warning

-- The arguments, the warnings and the number of known keys so far.
pub record Parsing : Type 0 where
  pub args : CookieArgs
  pub warnings : List Warning
  pub found : ℕ

abbrev has_no_options : Items → Bool
has_no_options Items.nil = true
has_no_options (Items.item _ _ _) = false

abbrev known : Bytes → Parsing → Option CookieArgs → Parsing
known key p none = record p { warnings = Warning.unrecognized_key key ∷ p.warnings }
known key p (some a) = record p { args = a; found = p.found + 1 }

module _ (conv : Conversions) where
  -- The body of the loop at one key; `none` is a key that is not known.
  abbrev option : Bytes → Zval → CookieArgs → Option CookieArgs
  option key value a =
      if equals_ci key (codes "expires")
      then some (record a { expires = conv.get_long value })
      else if equals_ci key (codes "path")
      then some (record a { path = some (conv.get_string value) })
      else if equals_ci key (codes "domain")
      then some (record a { domain = some (conv.get_string value) })
      else if equals_ci key (codes "secure")
      then some (record a { secure = conv.is_true value })
      else if equals_ci key (codes "httponly")
      then some (record a { httponly = conv.is_true value })
      else if equals_ci key (codes "samesite")
      then some (record a { samesite = some (conv.get_string value) })
      else none

  abbrev parse_option : Key → Zval → Parsing → Parsing
  parse_option (Key.str key) value p = known key p (option key value p.args)
  parse_option (Key.idx i) value p = record p { warnings = Warning.numeric_key ∷ p.warnings }

  unfoldable pub parse_options : Items → Parsing → Parsing
  unfolding equals_ci
  parse_options Items.nil p = p
  parse_options (Items.item key value items) p = parse_options items (parse_option key value p)

  unfoldable pub php_head_parse_cookie_options_array :
      Items → CookieArgs → CookieArgs × List Warning
  unfolding parse_options
  php_head_parse_cookie_options_array options a =
      let p = parse_options options (record { args = a; warnings = []; found = 0 }) in
      if p.found == 0 && not (has_no_options options)
      then (p.args, Warning.no_valid_options ∷ p.warnings)
      else (p.args, p.warnings)

-- The arguments of the call behind the name, and `ZEND_NUM_ARGS()`.
pub record SetCookie : Type 0 where
  pub name : Bytes
  pub value : Option Bytes
  pub expires_or_options : Option Zval
  pub path : Option Bytes
  pub domain : Option Bytes
  pub secure : Bool
  pub httponly : Bool
  pub num_args : ℕ

-- The configuration, and whether `HTTPS` is in the server variables of the request.
pub record CookieConfig : Type 0 where
  pub cookies : List SpCookie
  pub auto_cookie_secure : Bool
  pub https : Bool
  pub key : KeyConfig

-- What is given to `php_setcookie`, with the warnings before; or the call is refused.
pub data Sent : Type 0 where
  sent : CookieArgs → List Warning → Sent
  refused : Warning → Sent

abbrev args_of : SetCookie → CookieArgs
args_of c = record {
  name = c.name;
  value = c.value;
  expires = pos 0;
  path = c.path;
  domain = c.domain;
  secure = c.secure;
  httponly = c.httponly;
  samesite = none;
}

abbrev with_options : Conversions → ℕ → CookieArgs → Option Zval → Sent
unfolding php_head_parse_cookie_options_array
with_options conv num_args a none = Sent.sent a []
with_options conv num_args a (some (Zval.array options)) =
    if ltb 3 num_args
    then Sent.refused Warning.arguments_behind_options
    else Sent.sent (php_head_parse_cookie_options_array conv options a).0
        (php_head_parse_cookie_options_array conv options a).1
with_options conv num_args a (some v) = Sent.sent (record a { expires = conv.get_long v }) []

abbrev pub same_site_text : SameSite → Bytes
same_site_text SameSite.lax = codes "Lax"
same_site_text SameSite.strict = codes "Strict"

abbrev path_or_empty : Option Bytes → Option Bytes
path_or_empty none = some []
path_or_empty (some path) = some path

abbrev impose : Option SameSite → CookieArgs → CookieArgs
impose none a = a
impose (some s) a = record a { path = path_or_empty a.path; samesite = some (same_site_text s) }

abbrev pub configured_samesite : Option SpCookie → Option SameSite
configured_samesite none = none
configured_samesite (some cookie) = cookie.samesite

abbrev encrypted : Bool → Crypto → KeyConfig → Bytes → Option Bytes → Run (Option Bytes)
unfolding encrypt_zval
encrypted true lib cfg nonce (some value) = do
  value_enc ← encrypt_zval lib cfg nonce value
  pure (some value_enc)
encrypted _ lib cfg nonce value = pure value

-- From the comment on HTTPS to the call of `php_setcookie`.
abbrev protect : Crypto → CookieConfig → Bytes → Option SpCookie → Sent → Run Sent
unfolding encrypted
protect lib cfg nonce cookie (Sent.refused w) = pure (Sent.refused w)
protect lib cfg nonce cookie (Sent.sent a warnings) = do
  value ← encrypted (encrypts cookie) lib cfg.key nonce a.value
  pure (
      Sent.sent
        (impose (configured_samesite cookie) (record a {
          value = value;
          secure = (cfg.auto_cookie_secure && cfg.https) || a.secure;
          httponly = encrypts cookie || a.httponly;
        }))
        warnings)

-- `nonce` is what the encryption takes from `php_random_bytes`.
unfoldable pub sp_setcookie :
    Texts → Conversions → Crypto → CookieConfig → Bytes → SetCookie → Run Sent
unfolding sp_lookup_cookie_config with_options protect
sp_setcookie texts conv lib cfg nonce c =
    protect lib cfg nonce (sp_lookup_cookie_config texts cfg.cookies c.name)
      (with_options conv c.num_args (args_of c) c.expires_or_options)
