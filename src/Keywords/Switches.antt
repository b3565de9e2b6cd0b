-- ===== src/Keywords/Switches.antt =====
-- `parse_unserialize_noclass`, `parse_unserialize`, `parse_readonly_exec`, `parse_session`,
-- `parse_eval_filter_conf`, `parse_wrapper_whitelist` and `parse_upload_validation`.
use snuffleupagus.Base.{
  Bool, true, false, not, ◌&&◌, List, [], ◌∷◌, ◌++◌, Option, none, some, is_set, if◌then◌else◌,
  Bytes, codes,
}
use snuffleupagus.Config.{
  Status, Handler, Table, sp_process_rule, parse_empty, parse_str, parse_list, parse_ulong,
  sp_get_textual_representation,
}
use snuffleupagus.Globals.{
  SpGlobals, Libs, ConfigUnserialize, ConfigReadonlyExec, ConfigUploadValidation,
}
use snuffleupagus.Keywords.Enable.{
  Rule, new_rule, processed, set_enable_disable, leave, enable_keywords,
}

unfoldable pub parse_unserialize_noclass : Handler SpGlobals
unfolding processed set_enable_disable
parse_unserialize_noclass k rule s =
    leave (λ r. record s { unserialize_noclass = r.cfg })
      (processed (sp_process_rule enable_keywords rule (new_rule s.unserialize_noclass)) (λ r.
        set_enable_disable r.enable r.disable
          (λ b t. record t { cfg = record (t.cfg) { enable = b } }) r
          (λ t. (
            Status.stop,
            record t {
              cfg = record (t.cfg) {
                textual_representation = some (sp_get_textual_representation (k ∷ rule));
              };
            },
          ))))

abbrev unserialize_keywords : Table (Rule ConfigUnserialize)
unserialize_keywords =
    enable_keywords
    ++ ((
      codes "simulation",
      parse_empty (λ r. record r { cfg = record (r.cfg) { simulation = true } }),
    )
        ∷ (codes "sim", parse_empty (λ r. record r { cfg = record (r.cfg) { simulation = true } }))
        ∷ (
          codes "dump",
          parse_str (λ r. r.cfg.dump) (λ v r. record r { cfg = record (r.cfg) { dump = v } }),
        )
        ∷ [])

unfoldable pub parse_unserialize : Handler SpGlobals
unfolding processed set_enable_disable
parse_unserialize k rule s =
    leave (λ r. record s { unserialize = r.cfg })
      (processed (sp_process_rule unserialize_keywords rule (new_rule s.unserialize)) (λ r.
        set_enable_disable r.enable r.disable
          (λ b t. record t { cfg = record (t.cfg) { enable = b } }) r
          (λ t. (
            Status.stop,
            record t {
              cfg = record (t.cfg) {
                textual_representation = some (sp_get_textual_representation (k ∷ rule));
              };
            },
          ))))

-- The locals of `parse_readonly_exec`, with those of every rule.
pub record Readonly : Type 0 where
  pub rule : Rule ConfigReadonlyExec
  pub xchecks : Bool
  pub no_xchecks : Bool

abbrev on_cfg : (ConfigReadonlyExec → ConfigReadonlyExec) → Readonly → Readonly
on_cfg f r = record r { rule = record (r.rule) { cfg = f r.rule.cfg } }

abbrev readonly_keywords : Table Readonly
readonly_keywords =
    (codes "enable", parse_empty (λ r. record r { rule = record (r.rule) { enable = true } }))
    ∷ (codes "disable", parse_empty (λ r. record r { rule = record (r.rule) { disable = true } }))
    ∷ (codes "simulation", parse_empty (on_cfg (λ c. record c { simulation = true })))
    ∷ (codes "sim", parse_empty (on_cfg (λ c. record c { simulation = true })))
    ∷ (codes "dump", parse_str (λ r. r.rule.cfg.dump) (λ v. on_cfg (λ c. record c { dump = v })))
    ∷ (codes "extended_checks", parse_empty (λ r. record r { xchecks = true }))
    ∷ (codes "xchecks", parse_empty (λ r. record r { xchecks = true }))
    ∷ (codes "no_extended_checks", parse_empty (λ r. record r { no_xchecks = true }))
    ∷ (codes "noxchecks", parse_empty (λ r. record r { no_xchecks = true }))
    ∷ []

abbrev set_xchecks : Readonly → Readonly
set_xchecks r =
    if r.xchecks
    then on_cfg (λ c. record c { extended_checks = true }) r
    else if r.no_xchecks
    then on_cfg (λ c. record c { extended_checks = false }) r
    else r

-- The text of the rule is kept before the flags are checked.
unfoldable pub parse_readonly_exec : Handler SpGlobals
unfolding processed set_enable_disable
parse_readonly_exec k rule s =
    let text = sp_get_textual_representation (k ∷ rule) in
    leave (λ r. record s { readonly_exec = r.rule.cfg })
      (processed
        (sp_process_rule readonly_keywords rule
          (record { rule = new_rule s.readonly_exec; xchecks = false; no_xchecks = false }))
        (λ r.
          set_enable_disable r.rule.enable r.rule.disable
            (λ b. on_cfg (λ c. record c { enable = b }))
            (on_cfg (λ c. record c { textual_representation = some text }) r)
            (λ t. (Status.stop, set_xchecks t))))

module _ (libs : Libs) where
  abbrev pub session_keywords : Table SpGlobals
  session_keywords =
      (
        codes "encrypt",
        parse_empty (λ s. record s { session = record (s.session) { encrypt = true } }),
      )
      ∷ (
        codes "simulation",
        parse_empty (λ s. record s { session = record (s.session) { simulation = true } }),
      )
      ∷ (
        codes "sim",
        parse_empty (λ s. record s { session = record (s.session) { simulation = true } }),
      )
      ∷ (
        codes "sid_min_length",
        parse_ulong libs.strtoimax libs.strtoul
            (λ n s. record s { session = record (s.session) { sid_min_length = n } }),
      )
      ∷ (
        codes "sid_max_length",
        parse_ulong libs.strtoimax libs.strtoul
            (λ n s. record s { session = record (s.session) { sid_max_length = n } }),
      )
      ∷ []

  unfoldable pub parse_session : Handler SpGlobals
  unfolding processed
  parse_session k rule s = processed (sp_process_rule session_keywords rule s) (λ t.
      if t.session.encrypt && not (is_set t.cookies_env_var && is_set t.encryption_key)
      then (Status.error, t)
      else (Status.stop, t))

-- `retval` is one of the two lists of `SPCFG(eval)`.
abbrev pub eval_keywords :
    (SpGlobals → List Bytes) → (List Bytes → SpGlobals → SpGlobals) → Table SpGlobals
eval_keywords read write =
    (codes "list", parse_list read write)
    ∷ (
      codes "simulation",
      parse_empty (λ s. record s { eval = record (s.eval) { simulation = true } }),
    )
    ∷ (codes "sim", parse_empty (λ s. record s { eval = record (s.eval) { simulation = true } }))
    ∷ (
      codes "dump",
      parse_str (λ s. s.eval.dump) (λ v s. record s { eval = record (s.eval) { dump = v } }),
    )
    ∷ []

unfoldable pub parse_eval_filter_conf :
    (SpGlobals → List Bytes) → (List Bytes → SpGlobals → SpGlobals) → Handler SpGlobals
unfolding processed
parse_eval_filter_conf read write k rule s =
    processed (sp_process_rule (eval_keywords read write) rule s) (λ t. (
      Status.stop,
      record t {
        eval = record (t.eval) {
          textual_representation = some (sp_get_textual_representation (k ∷ rule));
        };
      },
    ))

abbrev pub wrapper_keywords : Table SpGlobals
wrapper_keywords =
    (
      codes "list",
      parse_list (λ s. s.wrapper.whitelist)
          (λ v s. record s { wrapper = record (s.wrapper) { whitelist = v } }),
    )
    ∷ (
      codes "php_list",
      parse_list (λ s. s.wrapper.php_stream_allowlist)
          (λ v s. record s { wrapper = record (s.wrapper) { php_stream_allowlist = v } }),
    )
    ∷ []

unfoldable pub parse_wrapper_whitelist : Handler SpGlobals
unfolding processed
parse_wrapper_whitelist k rule s =
    processed (sp_process_rule wrapper_keywords rule s)
      (λ t. (Status.stop, record t { wrapper = record (t.wrapper) { enabled = true } }))

abbrev upload_keywords : Table (Rule ConfigUploadValidation)
upload_keywords =
    enable_keywords
    ++ ((
      codes "script",
      parse_str (λ r. r.cfg.script) (λ v r. record r { cfg = record (r.cfg) { script = v } }),
    )
        ∷ (
          codes "simulation",
          parse_empty (λ r. record r { cfg = record (r.cfg) { simulation = true } }),
        )
        ∷ (codes "sim", parse_empty (λ r. record r { cfg = record (r.cfg) { simulation = true } }))
        ∷ [])

-- The script must be given, and `access(script, F_OK)` find it.
abbrev script_found : Libs → Option Bytes → Bool
script_found libs none = false
script_found libs (some script) = libs.exists script

unfoldable pub parse_upload_validation : Libs → Handler SpGlobals
unfolding processed set_enable_disable
parse_upload_validation libs k rule s =
    leave (λ r. record s { upload_validation = r.cfg })
      (processed (sp_process_rule upload_keywords rule (new_rule s.upload_validation)) (λ r.
        set_enable_disable r.enable r.disable
          (λ b t. record t { cfg = record (t.cfg) { enable = b } }) r
          (λ t. (if script_found libs t.cfg.script then Status.stop else Status.error, t))))
