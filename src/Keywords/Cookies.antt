-- ===== src/Keywords/Cookies.antt =====
-- `parse_cookie`.
pub mod Distinct
use snuffleupagus.Base.{
  Bool, true, false, not, ◌&&◌, ◌||◌, List, [], ◌∷◌, Option, none, some, is_set, if◌then◌else◌,
  Bytes, codes, equals, equals_ci,
}
use snuffleupagus.Config.{
  Status, ZendResult, Handler, Table, sp_process_rule, parse_empty, parse_str, parse_regexp,
}
use snuffleupagus.Globals.{SpGlobals, Libs, SpCookie, SameSite}
use snuffleupagus.Ini.{SpRegexp}
use snuffleupagus.SpList.{sp_list_insert}

-- The locals of `parse_cookie`.
pub record CookieRule : Type 0 where
  pub cookie : SpCookie
  pub samesite : Option Bytes

abbrev pub new_cookie : SpCookie
new_cookie = record {
  samesite = none;
  encrypt = false;
  name = none;
  name_r = none;
  simulation = false;
}

abbrev on_cookie : (SpCookie → SpCookie) → CookieRule → CookieRule
on_cookie f r = record r { cookie = f r.cookie }

abbrev pub cookie_keywords : Libs → Table CookieRule
cookie_keywords libs =
    (codes "name", parse_str (λ r. r.cookie.name) (λ v. on_cookie (λ c. record c { name = v })))
    ∷ (
      codes "name_r",
      parse_regexp libs.compiles (λ r. r.cookie.name_r)
          (λ v. on_cookie (λ c. record c { name_r = v })),
    )
    ∷ (codes "samesite", parse_str (λ r. r.samesite) (λ v r. record r { samesite = v }))
    ∷ (codes "encrypt", parse_empty (on_cookie (λ c. record c { encrypt = true })))
    ∷ (codes "simulation", parse_empty (on_cookie (λ c. record c { simulation = true })))
    ∷ (codes "sim", parse_empty (on_cookie (λ c. record c { simulation = true })))
    ∷ []

abbrev pub is_empty_name : Option Bytes → Bool
is_empty_name none = true
is_empty_name (some []) = true
is_empty_name (some (_ ∷ _)) = false

-- The checks in front of the one of `samesite`.
unfoldable pub accepted : CookieRule → SpGlobals → Bool
accepted r s =
    (if r.cookie.encrypt
      then is_set s.cookies_env_var && is_set s.encryption_key
      else is_set r.samesite)
    && not (is_empty_name r.cookie.name && not (is_set r.cookie.name_r))
    && not (is_set r.cookie.name && is_set r.cookie.name_r)

-- The policy that a text names, `none` for an invalid one.
unfoldable pub samesite_of : Bytes → Option SameSite
samesite_of text =
    if equals_ci text (codes "Lax")
    then some SameSite.lax
    else if equals_ci text (codes "Strict")
    then some SameSite.strict
    else none

-- Both set and equal.
abbrev pub same_name : Option Bytes → Option Bytes → Bool
same_name (some a) (some b) = equals a b
same_name _ _ = false

abbrev pub same_pattern : Option SpRegexp → Option SpRegexp → Bool
same_pattern (some a) (some b) = equals a.pattern b.pattern
same_pattern _ _ = false

abbrev pub same_cookie : SpCookie → SpCookie → Bool
same_cookie entry cookie =
    same_name entry.name cookie.name || same_pattern entry.name_r cookie.name_r

abbrev pub override : SpCookie → SpCookie → SpCookie
override entry cookie = record entry {
  samesite = (if is_set cookie.samesite then cookie.samesite else entry.samesite);
  encrypt = cookie.encrypt || entry.encrypt;
  simulation = cookie.simulation || entry.simulation;
}

-- The search for an entry of the same name or expression, which is overridden, and the insertion of
-- the cookie behind the last entry if there is none.
unfoldable pub merge_cookie : List SpCookie → SpCookie → List SpCookie
merge_cookie [] cookie = sp_list_insert [] cookie
merge_cookie (entry ∷ list) cookie =
    if same_cookie entry cookie
    then override entry cookie ∷ list
    else entry ∷ merge_cookie list cookie

-- What follows the check of `samesite`.
unfoldable pub store : SpCookie → SpGlobals → Status × SpGlobals
unfolding merge_cookie
store cookie s = (Status.stop, record s { cookies = merge_cookie s.cookies cookie })

abbrev pub with_policy : SpCookie → Option SameSite → SpGlobals → Status × SpGlobals
with_policy cookie none s = (Status.error, s)
with_policy cookie (some policy) s = store (record cookie { samesite = some policy }) s

unfoldable pub check_samesite : SpCookie → Option Bytes → SpGlobals → Status × SpGlobals
unfolding store samesite_of
check_samesite cookie none s = store cookie s
check_samesite cookie (some text) s = with_policy cookie (samesite_of text) s

unfoldable pub finish_cookie : ZendResult × CookieRule → SpGlobals → Status × SpGlobals
unfolding accepted check_samesite
finish_cookie (ZendResult.failed, r) s = (Status.error, s)
finish_cookie (ZendResult.succeeded, r) s =
    if accepted r s then check_samesite r.cookie r.samesite s else (Status.error, s)

unfoldable pub parse_cookie : Libs → Handler SpGlobals
unfolding finish_cookie
parse_cookie libs k rule s =
    finish_cookie
      (sp_process_rule (cookie_keywords libs) rule
        (record { cookie = new_cookie; samesite = none }))
      s
