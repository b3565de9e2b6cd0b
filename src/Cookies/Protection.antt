-- ===== src/Cookies/Protection.antt =====
-- The cookies that are sent, and what comes back from them.
use snuffleupagus.Base.{
  ℕ, ◌+◌, ◌^◌, ◌<◌, ◌≤◌, ◌≡◌, ◌≢◌, refl, ◌∙◌, arith, Bool, true, false, List, [], ◌∷◌, Option, none,
  some, Bytes, length, is_set, ltb, ◌||◌, ◌&&◌,
}
use snuffleupagus.Cookies.{
  sp_lookup_cookie_config, encrypts, in_simulation, Kept, decrypt_text, decrypt_cookie, CookieArgs,
  Conversions, Warning, SetCookie, CookieConfig, Sent, args_of, with_options, same_site_text,
  configured_samesite, encrypted, impose, protect, sp_setcookie, parse_options, parse_option,
  option, Parsing, known, php_head_parse_cookie_options_array,
}
use snuffleupagus.Crypt.{Crypto, KeyConfig, IsCrypto, keep, encrypt_zval, decrypt_zval, nonce_bytes}
use snuffleupagus.Crypt.RoundTrip.{decrypt_zval-encrypt_zval}
use snuffleupagus.Globals.{SpCookie, SameSite}
use snuffleupagus.Log.{◌>>=◌, pure, bind_returns, bind_returned}
use mathlib.Core.Path.{subst}
use snuffleupagus.Match.{Texts}
use snuffleupagus.Zval.{Key, Zval, Items}

-- The options of a cookie do not touch its value.
option-value :
    (conv : Conversions) (key : Bytes) (v : Zval) (a b : CookieArgs)
    → option conv key v a ≡ some b
    → b.value ≡ a.value
option-value conv key v a b h = ground arith

known-value :
    (key : Bytes) (p : Parsing) (o : Option CookieArgs)
    → ((b : CookieArgs) → o ≡ some b → b.value ≡ p.args.value)
    → (known key p o).args.value ≡ p.args.value
known-value key p none h = refl
known-value key p (some b) h = h b refl

parse_option-value :
    (conv : Conversions) (key : Key) (v : Zval) (p : Parsing)
    → (parse_option conv key v p).args.value ≡ p.args.value
parse_option-value conv (Key.idx i) v p = refl
parse_option-value conv (Key.str key) v p =
    known-value key p (option conv key v p.args) (option-value conv key v p.args)

parse_options-value :
    (conv : Conversions) (items : Items) (p : Parsing)
    → (parse_options conv items p).args.value ≡ p.args.value
unfolding parse_options
parse_options-value conv Items.nil p = refl
parse_options-value conv (Items.item key v items) p =
    parse_options-value conv items (parse_option conv key v p) ∙ parse_option-value conv key v p

parse-value :
    (conv : Conversions) (items : Items) (a : CookieArgs)
    → (php_head_parse_cookie_options_array conv items a).0.value ≡ a.value
unfolding php_head_parse_cookie_options_array
parse-value conv items a =
    let p : Parsing = record { args = a; warnings = []; found = 0 } in
    ground (arith, parse_options-value conv items p)

-- Options that are not refused leave the value as it is.
with_options-value :
    (conv : Conversions) (n : ℕ) (a : CookieArgs) (o : Option Zval)
    → n ≤ 3
    → (b : CookieArgs) × (w : List Warning) × (with_options conv n a o ≡ Sent.sent b w)
      × (b.value ≡ a.value)
unfolding with_options
with_options-value conv n a none h = (a, [], refl, refl)
with_options-value conv n a (some (Zval.array items)) h =
    let few : ltb 3 n ≡ false = ground arith in
    (
      (php_head_parse_cookie_options_array conv items a).0,
      (php_head_parse_cookie_options_array conv items a).1,
      rw few,
      parse-value conv items a,
    )
with_options-value conv n a (some v) h = (record a { expires = conv.get_long v }, [], refl, refl)

impose-value :
    (s : Option SameSite) (a : CookieArgs)
    → ((impose s a).value ≡ a.value)
      × ((impose s a).httponly ≡ a.httponly)
      × ((impose s a).secure ≡ a.secure)
impose-value none a = (refl, refl, refl)
impose-value (some s) a = (refl, refl, refl)

decrypt_text-string :
    (lib : Crypto) (key : KeyConfig) (simulation : Bool) (z value : Bytes)
    → z ≢ []
    → (decrypt_zval lib key simulation z).1 ≡ some (keep value)
    → (decrypt_text lib key simulation (Zval.string z)).1 ≡ some (Kept.kept (Zval.string value))
unfolding decrypt_text
decrypt_text-string lib key simulation [] value filled d = absurd (filled refl)
decrypt_text-string lib key simulation (c ∷ z) value filled d = rw (d, ◌>>=◌)

decrypt_cookie-text :
    (texts : Texts) (lib : Crypto) (key : KeyConfig) (cookies : List SpCookie) (name : Bytes)
    (z value : Bytes)
    → encrypts (sp_lookup_cookie_config texts cookies name) ≡ true
    → z ≢ []
    → (decrypt_zval lib key (in_simulation (sp_lookup_cookie_config texts cookies name)) z).1
      ≡ some (keep value)
    → (decrypt_cookie texts lib key cookies (Key.str name) (Zval.string z)).1
      ≡ some (Kept.kept (Zval.string value))
unfolding decrypt_cookie
decrypt_cookie-text texts lib key cookies name z value e filled d =
    let cookie = sp_lookup_cookie_config texts cookies name in
    rw e (decrypt_text-string lib key (in_simulation cookie) z value filled d)

encrypted-some :
    (encrypt : Bool) (lib : Crypto) (key : KeyConfig) (nonce : Bytes) (o : Option Bytes)
    (value z : Bytes)
    → encrypt ≡ true
    → o ≡ some value
    → (encrypt_zval lib key nonce value).1 ≡ some z
    → (encrypted encrypt lib key nonce o).1 ≡ some (some z)
unfolding encrypted
encrypted-some encrypt lib key nonce o value z e v enc = rw (e, v) (rw (enc, ◌>>=◌))

-- The arguments that are sent with a value.
abbrev guarded : CookieConfig → Option SpCookie → CookieArgs → Option Bytes → CookieArgs
guarded cfg cookie b value = record b {
  value = value;
  secure = (cfg.auto_cookie_secure && cfg.https) || b.secure;
  httponly = encrypts cookie || b.httponly;
}

protect-encrypts :
    (lib : Crypto) (cfg : CookieConfig) (nonce : Bytes) (cookie : Option SpCookie) (b : CookieArgs)
    (w : List Warning) (value z : Bytes)
    → encrypts cookie ≡ true
    → b.value ≡ some value
    → (encrypt_zval lib cfg.key nonce value).1 ≡ some z
    → (a : CookieArgs) × ((protect lib cfg nonce cookie (Sent.sent b w)).1 ≡ some (Sent.sent a w))
      × (a.value ≡ some z)
      × (a.httponly ≡ true)
unfolding protect
protect-encrypts lib cfg nonce cookie b w value z e v enc =
    let unchanged = impose-value (configured_samesite cookie) (guarded cfg cookie b (some z)) in
    (
      impose (configured_samesite cookie) (guarded cfg cookie b (some z)),
      bind_returns (encrypted (encrypts cookie) lib cfg.key nonce b.value)
          (λ value'.
            pure (Sent.sent (impose (configured_samesite cookie) (guarded cfg cookie b value')) w))
          (some z) (encrypted-some (encrypts cookie) lib cfg.key nonce b.value value z e v enc),
      unchanged.0,
      unchanged.1 ∙ rw e,
    )

-- If the libraries keep their laws, the rule for a cookie encrypts it, the call has a value shorter
-- than 2^64 - 89 bytes and at most three arguments, and the nonce has 24 bytes, then `setcookie` sends
-- a cookie for HTTP only whose value the next request decrypts to the value of the call.
pub decrypt_cookie-sp_setcookie :
    (texts : Texts) (conv : Conversions) (lib : Crypto) (cfg : CookieConfig) (nonce : Bytes)
    (c : SetCookie) (value : Bytes)
    → IsCrypto lib
    → encrypts (sp_lookup_cookie_config texts cfg.cookies c.name) ≡ true
    → c.value ≡ some value
    → c.num_args ≤ 3
    → length nonce ≡ nonce_bytes
    → length value + 89 < 2 ^ 64
    → (a : CookieArgs) × (w : List Warning) × (z : Bytes) × ((sp_setcookie texts conv lib cfg nonce
          c).1
        ≡ some (Sent.sent a w))
      × (a.value ≡ some z)
      × (a.httponly ≡ true)
      × ((decrypt_cookie texts lib cfg.key cfg.cookies (Key.str c.name) (Zval.string z)).1
          ≡ some (Kept.kept (Zval.string value)))
unfolding sp_setcookie
decrypt_cookie-sp_setcookie texts conv lib cfg nonce c value laws e v few n h =
    let cookie = sp_lookup_cookie_config texts cfg.cookies c.name in
    let (z, enc, filled, d) =
      decrypt_zval-encrypt_zval lib cfg.key laws (in_simulation cookie) nonce value n h in
    let (b, w, accepted, bv) =
      with_options-value conv c.num_args (args_of c) c.expires_or_options few in
    let (a, sent_a, av, ah) = protect-encrypts lib cfg nonce cookie b w value z e (bv ∙ v) enc in
    (
      a,
      w,
      z,
      rw accepted sent_a,
      av,
      ah,
      decrypt_cookie-text texts lib cfg.key cfg.cookies c.name z value e filled d,
    )

-- What the configuration asks of a cookie that is sent.
abbrev pub IsImposed : Option SameSite → CookieArgs → Type 0
IsImposed none a = Unit
IsImposed (some s) a = (a.samesite ≡ some (same_site_text s)) × (is_set a.path ≡ true)

impose-IsImposed : (s : Option SameSite) (a : CookieArgs) → IsImposed s (impose s a)
impose-IsImposed none a = tt
impose-IsImposed (some s) a = (refl, ground arith)

some-sent_injective :
    {a b : CookieArgs} {w x : List Warning} → some (Sent.sent a w) ≡ some (Sent.sent b x) → a ≡ b
some-sent_injective h = cc

protect-IsImposed :
    (lib : Crypto) (cfg : CookieConfig) (nonce : Bytes) (cookie : Option SpCookie) (before : Sent)
    (a : CookieArgs) (w : List Warning)
    → (protect lib cfg nonce cookie before).1 ≡ some (Sent.sent a w)
    → IsImposed (configured_samesite cookie) a
unfolding protect
protect-IsImposed lib cfg nonce cookie (Sent.refused r) a w h = cc
protect-IsImposed lib cfg nonce cookie (Sent.sent b x) a w h =
    let send = λ (value : Option Bytes).
      pure (Sent.sent (impose (configured_samesite cookie) (guarded cfg cookie b value)) x) in
    let (value, _, last) =
      bind_returned (encrypted (encrypts cookie) lib cfg.key nonce b.value) send (Sent.sent a w)
        h in
    subst (IsImposed (configured_samesite cookie)) (some-sent_injective last)
      (impose-IsImposed (configured_samesite cookie) (guarded cfg cookie b value))

-- Whatever the options of the call say, a cookie whose rule has a `samesite` is sent with that one,
-- and with a path.
pub sp_setcookie-IsImposed :
    (texts : Texts) (conv : Conversions) (lib : Crypto) (cfg : CookieConfig) (nonce : Bytes)
    (c : SetCookie) (a : CookieArgs) (w : List Warning)
    → (sp_setcookie texts conv lib cfg nonce c).1 ≡ some (Sent.sent a w)
    → IsImposed (configured_samesite (sp_lookup_cookie_config texts cfg.cookies c.name)) a
unfolding sp_setcookie
sp_setcookie-IsImposed texts conv lib cfg nonce c a w h =
    protect-IsImposed lib cfg nonce (sp_lookup_cookie_config texts cfg.cookies c.name)
      (with_options conv c.num_args (args_of c) c.expires_or_options) a w h
