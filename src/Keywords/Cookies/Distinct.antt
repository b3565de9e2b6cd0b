-- ===== src/Keywords/Cookies/Distinct.antt =====
-- The list of cookies stays without repetitions.
use snuffleupagus.Base.{
  ◌≡◌, refl, ◌⊎◌, inl, inr, true, false, ◌||◌, List, [], ◌∷◌, Option, none, some, Bytes, All,
  Bool-cases, Option-cases, arith, is_set,
}
use snuffleupagus.Config.{ZendResult, SpParsedKeyword, sp_process_rule}
use snuffleupagus.Globals.{SpGlobals, Libs, SpCookie, SameSite}
use snuffleupagus.Keywords.Cookies.{
  CookieRule, new_cookie, cookie_keywords, same_cookie, override, merge_cookie, accepted, store,
  samesite_of, with_policy, check_samesite, finish_cookie, parse_cookie,
}
use snuffleupagus.SpList.{sp_list_insert}

-- A cookie that a request can be checked against: one name or one expression, and something to do.
pub record IsUsable (cookie : SpCookie) : Type 0 where
  pub one_name : (is_set cookie.name ≡ false) ⊎ (is_set cookie.name_r ≡ false)
  pub some_name : is_set cookie.name || is_set cookie.name_r ≡ true
  pub some_use : cookie.encrypt || is_set cookie.samesite ≡ true

-- No cookie of the list has the name or the expression of one behind it, and each is usable.
abbrev pub AreDistinct : List SpCookie → Type 0
AreDistinct [] = Unit
AreDistinct (x ∷ list) = IsUsable x × All (λ y. same_cookie x y ≡ false) list × AreDistinct list

All-merge_cookie :
    (x c : SpCookie) (list : List SpCookie)
    → All (λ y. same_cookie x y ≡ false) list
    → same_cookie x c ≡ false
    → All (λ y. same_cookie x y ≡ false) (merge_cookie list c)
unfolding merge_cookie sp_list_insert
All-merge_cookie x c [] h e = (e, tt)
All-merge_cookie x c (entry ∷ list) (g, h) e = elim (Bool-cases (same_cookie entry c)) [
  | inl s ↦ rw s (g, h)
  | inr s ↦ rw s (g, All-merge_cookie x c list h e)
]

override-IsUsable : (entry c : SpCookie) → IsUsable entry → IsUsable (override entry c)
override-IsUsable entry c u = record {
  one_name = u.one_name;
  some_name = u.some_name;
  some_use = ground (arith, u.some_use);
}

-- Merging a usable cookie into the list leaves usable cookies without a repeated name.
merge_cookie-AreDistinct :
    (list : List SpCookie) (c : SpCookie)
    → IsUsable c
    → AreDistinct list
    → AreDistinct (merge_cookie list c)
unfolding merge_cookie sp_list_insert
merge_cookie-AreDistinct [] c u h = (u, tt, tt)
merge_cookie-AreDistinct (entry ∷ list) c u (v, g, h) = elim (Bool-cases (same_cookie entry c)) [
  | inl s ↦ rw s (override-IsUsable entry c v, g, h)
  | inr s ↦ rw s (v, All-merge_cookie entry c list g s, merge_cookie-AreDistinct list c u h)
]

accepted-IsUsable :
    (r : CookieRule) (s : SpGlobals) (policy : Option SameSite)
    → accepted r s ≡ true
    → is_set policy ≡ is_set r.samesite
    → IsUsable (record (r.cookie) { samesite = policy })
unfolding accepted
accepted-IsUsable r s policy a e = record {
  one_name = ground arith;
  some_name = ground arith;
  some_use = ground arith;
}

accepted-encrypted :
    (r : CookieRule) (s : SpGlobals) → accepted r s ≡ true → r.samesite ≡ none → IsUsable r.cookie
unfolding accepted
accepted-encrypted r s a e = record {
  one_name = ground arith;
  some_name = ground arith;
  some_use = ground arith;
}

store-AreDistinct :
    (c : SpCookie) (s : SpGlobals)
    → IsUsable c
    → AreDistinct s.cookies
    → AreDistinct (store c s).1.cookies
unfolding store
store-AreDistinct c s u h = merge_cookie-AreDistinct s.cookies c u h

policy-AreDistinct :
    (r : CookieRule) (s : SpGlobals) (text : Bytes) (policy : Option SameSite)
    → accepted r s ≡ true
    → r.samesite ≡ some text
    → AreDistinct s.cookies
    → AreDistinct (with_policy r.cookie policy s).1.cookies
policy-AreDistinct r s text none a e h = h
policy-AreDistinct r s text (some policy) a e h =
    store-AreDistinct _ s (accepted-IsUsable r s (some policy) a (rw e refl)) h

finish_cookie-AreDistinct :
    (r : ZendResult × CookieRule) (s : SpGlobals)
    → AreDistinct s.cookies
    → AreDistinct (finish_cookie r s).1.cookies
unfolding finish_cookie check_samesite
finish_cookie-AreDistinct (ZendResult.failed, r) s h = h
finish_cookie-AreDistinct (ZendResult.succeeded, r) s h = elim (Bool-cases (accepted r s)) [
  | inr a ↦ rw a h
  | inl a ↦ rw a (elim (Option-cases r.samesite) [
    | inl e ↦ rw e (store-AreDistinct r.cookie s (accepted-encrypted r s a e) h)
    | inr (text, e) ↦ rw e (policy-AreDistinct r s text (samesite_of text) a e h)
  ])
]

-- Whatever a rule of `sp.cookie` says, reading it keeps the list of cookies right: each cookie has
-- exactly one of a name and an expression and is encrypted or has a samesite policy, and none has
-- the name or the expression of another.
pub parse_cookie-AreDistinct :
    (libs : Libs) (k : SpParsedKeyword) (rule : List SpParsedKeyword) (s : SpGlobals)
    → AreDistinct s.cookies
    → AreDistinct (parse_cookie libs k rule s).1.cookies
unfolding parse_cookie
parse_cookie-AreDistinct libs k rule s h =
    finish_cookie-AreDistinct
      (sp_process_rule (cookie_keywords libs) rule
        (record { cookie = new_cookie; samesite = none }))
      s h
