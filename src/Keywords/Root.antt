-- ===== src/Keywords/Root.antt =====
-- `sp_process_config_root` of src/sp_config.c.
pub mod Frame
pub mod Sound
use snuffleupagus.Base.{List, [], ◌∷◌, Bytes, codes}
use snuffleupagus.Config.{ZendResult, SpParsedKeyword, Table, sp_process_rule, parse_uint}
use snuffleupagus.Globals.{SpGlobals, Libs}
use snuffleupagus.Keywords.Cookies.{parse_cookie}
use snuffleupagus.Keywords.Enable.{parse_enable}
use snuffleupagus.Keywords.Functions.{parse_disabled_functions}
use snuffleupagus.Keywords.Global.{parse_global, parse_log_media}
use snuffleupagus.Keywords.IniRules.{parse_ini_protection, parse_ini_entry}
use snuffleupagus.Keywords.Switches.{
  parse_unserialize, parse_unserialize_noclass, parse_readonly_exec, parse_session,
  parse_eval_filter_conf, parse_wrapper_whitelist, parse_upload_validation,
}
use snuffleupagus.SpTree.{SpTree}

module _ (parse_var : Bytes → SpTree) (libs : Libs) where
  abbrev pub sp_func : Table SpGlobals
  sp_func =
      (codes "unserialize_hmac", parse_unserialize)
      ∷ (codes "unserialize_noclass", parse_unserialize_noclass)
      ∷ (codes "harden_random", parse_enable (λ b s. record s { random_enable = b }))
      ∷ (codes "log_media", parse_log_media)
      ∷ (
        codes "log_max_len",
        parse_uint libs.strtoimax libs.strtoul (λ n s. record s { log_max_len = n }),
      )
      ∷ (codes "disable_function", parse_disabled_functions parse_var libs)
      ∷ (codes "readonly_exec", parse_readonly_exec)
      ∷ (codes "global_strict", parse_enable (λ b s. record s { global_strict_enable = b }))
      ∷ (codes "upload_validation", parse_upload_validation libs)
      ∷ (codes "cookie", parse_cookie libs)
      ∷ (codes "global", parse_global libs)
      ∷ (
        codes "auto_cookie_secure",
        parse_enable (λ b s. record s { auto_cookie_secure_enable = b }),
      )
      ∷ (codes "xxe_protection", parse_enable (λ b s. record s { xxe_protection_enable = b }))
      ∷ (
        codes "eval_blacklist",
        parse_eval_filter_conf (λ s. s.eval.blacklist)
            (λ v s. record s { eval = record (s.eval) { blacklist = v } }),
      )
      ∷ (
        codes "eval_whitelist",
        parse_eval_filter_conf (λ s. s.eval.whitelist)
            (λ v s. record s { eval = record (s.eval) { whitelist = v } }),
      )
      ∷ (codes "session", parse_session libs)
      ∷ (codes "sloppy_comparison", parse_enable (λ b s. record s { sloppy_enable = b }))
      ∷ (codes "wrappers_whitelist", parse_wrapper_whitelist)
      ∷ (codes "ini_protection", parse_ini_protection)
      ∷ (codes "ini", parse_ini_entry libs)
      ∷ []

  unfoldable pub sp_process_config_root : List SpParsedKeyword → SpGlobals → ZendResult × SpGlobals
  sp_process_config_root rule s = sp_process_rule sp_func rule s
