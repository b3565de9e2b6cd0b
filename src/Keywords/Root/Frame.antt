-- ===== src/Keywords/Root/Frame.antt =====
-- What the rules for functions, cookies and INI entries leave alone.
use snuffleupagus.Base.{
  ◌≡◌, refl, inl, inr, Bool-cases, Bool, true, false, ◌&&◌, List, ◌∷◌, Option, none, some, Bytes,
}
use snuffleupagus.Config.{Status, ZendResult, SpParsedKeyword, sp_process_rule}
use snuffleupagus.Config.Preserve.{Keeps, if-Keeps, sp_process_rule-Keeps, parse_empty-Keeps}
use snuffleupagus.Globals.{SpGlobals, Libs, SpCookie, SameSite, SpDisabledFunction}
use snuffleupagus.Ini.{ConfigIni}
use snuffleupagus.Keywords.Cookies.{
  CookieRule, new_cookie, cookie_keywords, accepted, store, with_policy, samesite_of,
  check_samesite, finish_cookie, parse_cookie,
}
use snuffleupagus.Keywords.Enable.{
  Rule, new_rule, processed, set_enable_disable, enable_keywords, parse_enable,
}
use snuffleupagus.Keywords.FunctionTable.{FunctionRule, new_function_rule, function_keywords}
use snuffleupagus.Keywords.Functions.{
  file_under, checked_rule, file, finish_function, parse_disabled_functions, on_return,
}
use snuffleupagus.Keywords.IniRules.{
  Access, EntryRule, new_access, new_entry, entry_keywords, add_entry, with_ini, finish_entry,
  read_entry, parse_ini_entry,
}
use snuffleupagus.SpTree.{SpTree}

module _ {S : Type 0} (P : S → Type 0) where
  pub processed-Keeps :
      (r : ZendResult × S) (next : S → Status × S)
      → P r.1
      → ((t : S) → P t → P (next t).1)
      → P (processed r next).1
  unfolding processed
  processed-Keeps (ZendResult.failed, s) next p h = p
  processed-Keeps (ZendResult.succeeded, s) next p h = h s p

  pub set_enable_disable-Keeps :
      (enable disable : Bool) (write : Bool → S → S) (s : S) (next : S → Status × S)
      → P s
      → ((b : Bool) → P (write b s))
      → ((t : S) → P t → P (next t).1)
      → P (set_enable_disable enable disable write s next).1
  unfolding set_enable_disable
  set_enable_disable-Keeps true true write s next p w h = p
  set_enable_disable-Keeps true false write s next p w h = h _ (w true)
  set_enable_disable-Keeps false true write s next p w h = h _ (w false)
  set_enable_disable-Keeps false false write s next p w h = h s p

module _ {S : Type 0} (P : S → Type 0) where
  -- `parse_enable` keeps what its write keeps.
  pub parse_enable-Keeps :
      (write : Bool → S → S)
      → ((b : Bool) (s : S) → P s → P (write b s))
      → Keeps P (parse_enable write)
  unfolding parse_enable
  parse_enable-Keeps write w k rule s p =
      processed-Keeps (λ (r : Rule S). P r.cfg) (sp_process_rule enable_keywords rule (new_rule s))
        _
        (sp_process_rule-Keeps (λ (r : Rule S). P r.cfg) enable_keywords rule (new_rule s)
          (
            parse_empty-Keeps (λ (r : Rule S). P r.cfg) _ (λ r q. q),
            (parse_empty-Keeps (λ (r : Rule S). P r.cfg) _ (λ r q. q), tt),
          )
          p)
        (λ r q.
          set_enable_disable-Keeps (λ (r : Rule S). P r.cfg) r.enable r.disable
            (λ b t. record t { cfg = write b t.cfg }) r (λ t. (Status.stop, t)) q (λ b. w b r.cfg q)
            (λ t u. u))

module _ (P : SpGlobals → Type 0) where
  with_policy-Keeps :
      (cookie : SpCookie) (policy : Option SameSite) (s : SpGlobals)
      → ((c : List SpCookie) → P (record s { cookies = c }))
      → P s
      → P (with_policy cookie policy s).1
  unfolding store
  with_policy-Keeps cookie none s w p = p
  with_policy-Keeps cookie (some policy) s w p = w _

  check_samesite-Keeps :
      (cookie : SpCookie) (samesite : Option Bytes) (s : SpGlobals)
      → ((c : List SpCookie) → P (record s { cookies = c }))
      → P s
      → P (check_samesite cookie samesite s).1
  unfolding check_samesite store
  check_samesite-Keeps cookie none s w p = w _
  check_samesite-Keeps cookie (some text) s w p = with_policy-Keeps cookie (samesite_of text) s w p

  finish_cookie-Keeps :
      (r : ZendResult × CookieRule) (s : SpGlobals)
      → ((c : List SpCookie) → P (record s { cookies = c }))
      → P s
      → P (finish_cookie r s).1
  unfolding finish_cookie
  finish_cookie-Keeps (ZendResult.failed, r) s w p = p
  finish_cookie-Keeps (ZendResult.succeeded, r) s w p =
      if-Keeps P (accepted r s) _ _ (check_samesite-Keeps r.cookie r.samesite s w p) p

  -- A rule for a cookie writes the list of cookies only.
  pub parse_cookie-Keeps :
      (libs : Libs)
      → ((c : List SpCookie) (s : SpGlobals) → P s → P (record s { cookies = c }))
      → Keeps P (parse_cookie libs)
  unfolding parse_cookie
  parse_cookie-Keeps libs w k rule s p =
      finish_cookie-Keeps
        (sp_process_rule (cookie_keywords libs) rule
          (record { cookie = new_cookie; samesite = none }))
        s (λ c. w c s p) p

  with_ini-Keeps :
      (result : Option ConfigIni) (s : SpGlobals)
      → ((c : ConfigIni) → P (record s { ini = c }))
      → P s
      → P (with_ini result s).1
  with_ini-Keeps none s w p = p
  with_ini-Keeps (some ini) s w p = w ini

  read_entry-Keeps :
      (r : ZendResult × Access EntryRule) (s : SpGlobals)
      → ((c : ConfigIni) → P (record s { ini = c }))
      → P s
      → P (read_entry r s).1
  unfolding read_entry finish_entry
  read_entry-Keeps (ZendResult.failed, a) s w p = p
  read_entry-Keeps (ZendResult.succeeded, a) s w p =
      with_ini-Keeps (add_entry a.cfg.key a s.ini) s w p

  -- A rule for an INI entry writes the INI configuration only.
  pub parse_ini_entry-Keeps :
      (libs : Libs)
      → ((c : ConfigIni) (s : SpGlobals) → P s → P (record s { ini = c }))
      → Keeps P (parse_ini_entry libs)
  unfolding parse_ini_entry
  parse_ini_entry-Keeps libs w k rule s p =
      read_entry-Keeps (sp_process_rule (entry_keywords libs) rule (new_access new_entry)) s
        (λ c. w c s p) p

-- The cookies and the INI configuration of two states are the same.
abbrev pub SameRest : SpGlobals → SpGlobals → Type 0
SameRest s t = (t.cookies ≡ s.cookies) × (t.ini ≡ s.ini)

file_under-SameRest :
    (key : Option Bytes) (df : SpDisabledFunction) (s : SpGlobals)
    → SameRest s (file_under key df s)
file_under-SameRest (some key) df s = elim (Bool-cases (on_return df)) [
  | inl e ↦ rw e (refl, refl)
  | inr e ↦ rw e (refl, refl)
]
file_under-SameRest none df s = elim (Bool-cases (on_return df)) [
  | inl e ↦ rw e (refl, refl)
  | inr e ↦ rw e (refl, refl)
]

file-SameRest :
    (parse_var : Bytes → SpTree) (df : Option SpDisabledFunction) (s : SpGlobals)
    → SameRest s (file parse_var df s).1
unfolding file
file-SameRest parse_var none s = (refl, refl)
file-SameRest parse_var (some df) s = file_under-SameRest _ df s

finish_function-SameRest :
    (parse_var : Bytes → SpTree) (text : List SpParsedKeyword) (r : ZendResult × FunctionRule)
    (s : SpGlobals)
    → SameRest s (finish_function parse_var text r s).1
unfolding finish_function
finish_function-SameRest parse_var text (ZendResult.failed, r) s = (refl, refl)
finish_function-SameRest parse_var text (ZendResult.succeeded, r) s =
    if-Keeps (SameRest s) (r.enable && r.disable) _ _ (refl, refl)
      (if-Keeps (SameRest s) r.disable _ _ (refl, refl)
        (file-SameRest parse_var (checked_rule parse_var text r) s))

-- A rule for functions leaves the cookies and the INI configuration alone.
pub parse_disabled_functions-SameRest :
    (parse_var : Bytes → SpTree) (libs : Libs) (k : SpParsedKeyword) (rule : List SpParsedKeyword)
    (s : SpGlobals)
    → SameRest s (parse_disabled_functions parse_var libs k rule s).1
unfolding parse_disabled_functions
parse_disabled_functions-SameRest parse_var libs k rule s =
    finish_function-SameRest parse_var (k ∷ rule)
      (sp_process_rule (function_keywords libs) rule new_function_rule) s
