-- ===== src/Keywords/Root/Sound/Handlers.antt =====
-- Each handler of a rule in src/sp_config_keywords.c keeps the configuration well formed.
use mathlib.Core.Path.{subst}
use snuffleupagus.Base.{
  c_string, sym, true, false, ◌&&◌, not, List, Option, none, some, Bytes, All, is_set,
}
use snuffleupagus.Config.{Status, SpParsedKeyword, sp_process_rule, sp_get_arg_string}
use snuffleupagus.Config.Preserve.{
  Keeps, if-Keeps, arg-Keeps, sp_process_rule-Keeps, parse_empty-Keeps, parse_str-Keeps,
  parse_list-Keeps, parse_uint-Keeps, parse_ulong-Keeps,
}
use snuffleupagus.Globals.{SpGlobals, Libs}
use snuffleupagus.Ini.{ConfigIni}
use snuffleupagus.Keywords.Cookies.Distinct.{AreDistinct, parse_cookie-AreDistinct}
use snuffleupagus.Keywords.Enable.{Rule, new_rule}
use snuffleupagus.Keywords.Functions.Stored.{
  TableFiled, IsFiled, IsIndexed, parse_disabled_functions-IsIndexed,
}
use snuffleupagus.Keywords.Functions.{parse_disabled_functions}
use snuffleupagus.Keywords.Cookies.{parse_cookie}
use snuffleupagus.Keywords.Global.{
  media_of, parse_log_media, check_key, global_keywords, parse_global,
}
use snuffleupagus.Keywords.IniRules.{
  Access, new_access, ini_keywords, check_policy, parse_ini_protection, parse_ini_entry,
}
use snuffleupagus.Keywords.IniRules.Distinct.{AreKeyed, parse_ini_entry-AreKeyed}
use snuffleupagus.Keywords.Root.Frame.{
  processed-Keeps, set_enable_disable-Keeps, parse_enable-Keeps, parse_cookie-Keeps,
  parse_ini_entry-Keeps, parse_disabled_functions-SameRest,
}
use snuffleupagus.Keywords.Switches.{
  session_keywords, parse_session, eval_keywords, parse_eval_filter_conf, wrapper_keywords,
  parse_wrapper_whitelist,
}
use snuffleupagus.Log.{LogMedia}
use snuffleupagus.SpTree.{SpTree}

-- The tables of disabled functions.
abbrev pub Tables : SpGlobals → Type 0
Tables s =
    TableFiled false s.disabled_functions
    × (TableFiled true s.disabled_functions_ret
        × (All (IsFiled false none) s.disabled_functions_reg
            × All (IsFiled true none) s.disabled_functions_reg_ret))

-- The disabled functions are filed as they should be, no cookie and no INI key stands twice.
abbrev pub IsSound : SpGlobals → Type 0
IsSound s = Tables s × (AreDistinct s.cookies × AreKeyed s.ini.entries)

pub indexed : (s : SpGlobals) → Tables s → IsIndexed s
indexed s (a, (b, (c, d))) = record {
  calls = a;
  returns = b;
  call_patterns = c;
  return_patterns = d;
}

pub tables : (s : SpGlobals) → IsIndexed s → Tables s
tables s h = (h.calls, (h.returns, (h.call_patterns, h.return_patterns)))

pub media-Keeps :
    (media : Option LogMedia) (s u : SpGlobals)
    → IsSound s
    → ((m : LogMedia) → IsSound u)
    → IsSound
        (elim media as (λ o. Status × SpGlobals) [
          | none ↦ (Status.error, s)
          | some m ↦ (Status.stop, record u { log_media = m })
        ]).1
media-Keeps none s u p h = p
media-Keeps (some m) s u p h = h m

pub parse_log_media-IsSound : Keeps IsSound parse_log_media
unfolding parse_log_media
parse_log_media-IsSound k rule s h =
    arg-Keeps IsSound (sp_get_arg_string k) _ _ h
      (λ value. media-Keeps (media_of (c_string value)) _ s h (λ m. h))

module _ (libs : Libs) where
  pub parse_global-IsSound : Keeps IsSound (parse_global libs)
  unfolding parse_global check_key
  parse_global-IsSound k rule s h =
      processed-Keeps IsSound (sp_process_rule (global_keywords libs) rule s) check_key
        (sp_process_rule-Keeps IsSound (global_keywords libs) rule s
          (
            parse_str-Keeps IsSound _ _ (λ v t q. q),
            (
              parse_str-Keeps IsSound _ _ (λ v t q. q),
              (
                parse_log_media-IsSound,
                (
                  parse_uint-Keeps IsSound libs.strtoimax libs.strtoul _ (λ v t q. q),
                  (
                    parse_uint-Keeps IsSound libs.strtoimax libs.strtoul _ (λ v t q. q),
                    (
                      parse_enable-Keeps IsSound _ (λ b t q. q),
                      (parse_enable-Keeps IsSound _ (λ b t q. q), tt),
                    ),
                  ),
                ),
              ),
            ),
          )
          h)
        (λ t q. q)

  pub parse_session-IsSound : Keeps IsSound (parse_session libs)
  unfolding parse_session
  parse_session-IsSound k rule s h =
      processed-Keeps IsSound (sp_process_rule (session_keywords libs) rule s) _
        (sp_process_rule-Keeps IsSound (session_keywords libs) rule s
          (
            parse_empty-Keeps IsSound _ (λ t q. q),
            (
              parse_empty-Keeps IsSound _ (λ t q. q),
              (
                parse_empty-Keeps IsSound _ (λ t q. q),
                (
                  parse_ulong-Keeps IsSound libs.strtoimax libs.strtoul _ (λ v t q. q),
                  (parse_ulong-Keeps IsSound libs.strtoimax libs.strtoul _ (λ v t q. q), tt),
                ),
              ),
            ),
          )
          h)
        (λ t q.
          if-Keeps IsSound
            (t.session.encrypt && not (is_set t.cookies_env_var && is_set t.encryption_key))
            (Status.error, t) (Status.stop, t) q q)

pub parse_eval_filter_conf-IsSound :
    (read : SpGlobals → List Bytes) (write : List Bytes → SpGlobals → SpGlobals)
    → ((v : List Bytes) (s : SpGlobals) → IsSound s → IsSound (write v s))
    → Keeps IsSound (parse_eval_filter_conf read write)
unfolding parse_eval_filter_conf
parse_eval_filter_conf-IsSound read write w k rule s h =
    processed-Keeps IsSound (sp_process_rule (eval_keywords read write) rule s) _
      (sp_process_rule-Keeps IsSound (eval_keywords read write) rule s
        (
          parse_list-Keeps IsSound read write w,
          (
            parse_empty-Keeps IsSound _ (λ t q. q),
            (
              parse_empty-Keeps IsSound _ (λ t q. q),
              (parse_str-Keeps IsSound _ _ (λ v t q. q), tt),
            ),
          ),
        )
        h)
      (λ t q. q)

pub parse_wrapper_whitelist-IsSound : Keeps IsSound parse_wrapper_whitelist
unfolding parse_wrapper_whitelist
parse_wrapper_whitelist-IsSound k rule s h =
    processed-Keeps IsSound (sp_process_rule wrapper_keywords rule s) _
      (sp_process_rule-Keeps IsSound wrapper_keywords rule s
        (parse_list-Keeps IsSound _ _ (λ v t q. q), (parse_list-Keeps IsSound _ _ (λ v t q. q), tt))
        h)
      (λ t q. q)

-- The entries of the INI configuration that a rule of the policy works on.
abbrev pub Entries : Access (Rule ConfigIni) → Type 0
Entries a = AreKeyed a.cfg.cfg.entries

pub check_policy-Entries : (a : Access (Rule ConfigIni)) → Entries a → Entries (check_policy a).1
check_policy-Entries a q = if-Keeps Entries (a.ro && a.rw) _ _ q q

pub policy-Entries :
    (rule : List SpParsedKeyword) (a : Access (Rule ConfigIni))
    → Entries a
    → Entries (sp_process_rule ini_keywords rule a).1
policy-Entries rule a h =
    let e =
      λ (write : Access (Rule ConfigIni) → Access (Rule ConfigIni))
          (w : (a : Access (Rule ConfigIni)) → Entries a → Entries (write a)).
        parse_empty-Keeps Entries write w in
    sp_process_rule-Keeps Entries ini_keywords rule a
      (
        e _ (λ t q. q),
        (
          e _ (λ t q. q),
          (
            e _ (λ t q. q),
            (
              e _ (λ t q. q),
              (
                e _ (λ t q. q),
                (
                  e _ (λ t q. q),
                  (
                    e _ (λ t q. q),
                    (
                      e _ (λ t q. q),
                      (e _ (λ t q. q), (e _ (λ t q. q), (e _ (λ t q. q), (e _ (λ t q. q), tt)))),
                    ),
                  ),
                ),
              ),
            ),
          ),
        ),
      )
      h

pub parse_ini_protection-IsSound : Keeps IsSound parse_ini_protection
unfolding parse_ini_protection
parse_ini_protection-IsSound k rule s (a, (b, c)) = (
  a,
  (
    b,
    processed-Keeps Entries (sp_process_rule ini_keywords rule (new_access (new_rule s.ini))) _
        (policy-Entries rule (new_access (new_rule s.ini)) c)
        (λ t q.
          set_enable_disable-Keeps Entries t.cfg.enable t.cfg.disable
            (λ x u. record u { cfg = record (u.cfg) { cfg = record (u.cfg.cfg) { enable = x } } }) t
            check_policy q (λ x. q) check_policy-Entries),
  ),
)

pub parse_cookie-IsSound : (libs : Libs) → Keeps IsSound (parse_cookie libs)
parse_cookie-IsSound libs k rule s (a, (b, c)) = (
  parse_cookie-Keeps Tables libs (λ d t q. q) k rule s a,
  (
    parse_cookie-AreDistinct libs k rule s b,
    parse_cookie-Keeps (λ t. AreKeyed t.ini.entries) libs (λ d t q. q) k rule s c,
  ),
)

pub parse_ini_entry-IsSound : (libs : Libs) → Keeps IsSound (parse_ini_entry libs)
parse_ini_entry-IsSound libs k rule s (a, (b, c)) = (
  parse_ini_entry-Keeps Tables libs (λ d t q. q) k rule s a,
  (
    parse_ini_entry-Keeps (λ t. AreDistinct t.cookies) libs (λ d t q. q) k rule s b,
    parse_ini_entry-AreKeyed libs k rule s c,
  ),
)

pub parse_disabled_functions-IsSound :
    (parse_var : Bytes → SpTree) (libs : Libs)
    → Keeps IsSound (parse_disabled_functions parse_var libs)
parse_disabled_functions-IsSound parse_var libs k rule s (a, (b, c)) =
    let same = parse_disabled_functions-SameRest parse_var libs k rule s in
    (
      tables _ (parse_disabled_functions-IsIndexed parse_var libs k rule s (indexed s a)),
      (subst AreDistinct (sym same.0) b, subst (λ i. AreKeyed i.entries) (sym same.1) c),
    )
