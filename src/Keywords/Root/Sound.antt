-- ===== src/Keywords/Root/Sound.antt =====
-- The invariant of the whole configuration.
pub mod Handlers
use snuffleupagus.Base.{not, List, Bytes}
use snuffleupagus.Config.{SpParsedKeyword}
use snuffleupagus.Config.Preserve.{TableKeeps, sp_process_rule-Keeps, parse_uint-Keeps}
use snuffleupagus.Globals.{SpGlobals, Libs}
use snuffleupagus.Keywords.Root.{sp_func, sp_process_config_root}
use snuffleupagus.Keywords.Root.Frame.{parse_enable-Keeps}
use snuffleupagus.Keywords.Switches.{
  parse_unserialize, parse_unserialize_noclass, parse_readonly_exec, parse_upload_validation,
}
use snuffleupagus.SpTree.{SpTree}
use snuffleupagus.Keywords.Root.Sound.Handlers.{
  parse_global-IsSound, parse_session-IsSound, IsSound, parse_log_media-IsSound,
  parse_eval_filter_conf-IsSound, parse_wrapper_whitelist-IsSound, parse_ini_protection-IsSound,
  parse_cookie-IsSound, parse_ini_entry-IsSound, parse_disabled_functions-IsSound,
}

sp_func-IsSound :
    (parse_var : Bytes → SpTree) (libs : Libs) → TableKeeps IsSound (sp_func parse_var libs)
unfolding parse_unserialize parse_unserialize_noclass parse_readonly_exec parse_upload_validation
sp_func-IsSound parse_var libs = (
  λ k rule s h. h,
  (
    λ k rule s h. h,
    (
      parse_enable-Keeps IsSound _ (λ b t q. q),
      (
        parse_log_media-IsSound,
        (
          parse_uint-Keeps IsSound libs.strtoimax libs.strtoul _ (λ v t q. q),
          (
            parse_disabled_functions-IsSound parse_var libs,
            (
              λ k rule s h. h,
              (
                parse_enable-Keeps IsSound _ (λ b t q. q),
                (
                  λ k rule s h. h,
                  (
                    parse_cookie-IsSound libs,
                    (
                      parse_global-IsSound libs,
                      (
                        parse_enable-Keeps IsSound _ (λ b t q. q),
                        (
                          parse_enable-Keeps IsSound _ (λ b t q. q),
                          (
                            parse_eval_filter_conf-IsSound _ _ (λ v t q. q),
                            (
                              parse_eval_filter_conf-IsSound _ _ (λ v t q. q),
                              (
                                parse_session-IsSound libs,
                                (
                                  parse_enable-Keeps IsSound _ (λ b t q. q),
                                  (
                                    parse_wrapper_whitelist-IsSound,
                                    (
                                      parse_ini_protection-IsSound,
                                      (parse_ini_entry-IsSound libs, tt),
                                    ),
                                  ),
                                ),
                              ),
                            ),
                          ),
                        ),
                      ),
                    ),
                  ),
                ),
              ),
            ),
          ),
        ),
      ),
    ),
  ),
)

-- Whatever rule is read, with success or not, the configuration stays sound: every rule for
-- functions is well formed and stands in the table and under the name that the runtime looks up, no
-- two cookies have the same name or expression and each is usable, and no INI key stands twice.
pub sp_process_config_root-IsSound :
    (parse_var : Bytes → SpTree) (libs : Libs) (rule : List SpParsedKeyword) (s : SpGlobals)
    → IsSound s
    → IsSound (sp_process_config_root parse_var libs rule s).1
unfolding sp_process_config_root
sp_process_config_root-IsSound parse_var libs rule s h =
    sp_process_rule-Keeps IsSound (sp_func parse_var libs) rule s (sp_func-IsSound parse_var libs) h
