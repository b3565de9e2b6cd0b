-- ===== src/Keywords/Global.antt =====
-- `parse_log_media` and `parse_global`.
pub mod Keys
use snuffleupagus.Base.{
  c_string, ℕ, Bool, true, false, not, ◌&&◌, ◌||◌, List, [], ◌∷◌, Option, none, some, ltb, length,
  drop, is_set, if◌then◌else◌, Bytes, codes, equals, starts_with,
}
use snuffleupagus.Config.{Status, Handler, Table, sp_process_rule, parse_str, parse_uint, with_arg}
use snuffleupagus.Globals.{SpGlobals, Libs}
use snuffleupagus.Keywords.Enable.{processed, parse_enable}
use snuffleupagus.Log.{LogMedia, MediaType}

-- The medium that a text names: `php`, `syslog`, or `file:` and a path.
unfoldable pub media_of : Bytes → Option LogMedia
media_of value =
    if equals value (codes "php")
    then some (record { type = MediaType.log_zend; path = none })
    else if equals value (codes "syslog")
    then some (record { type = MediaType.log_syslog; path = none })
    else if starts_with (codes "file:") value
    then some (record { type = MediaType.log_file; path = some (drop 5 value) })
    else none

-- The path is forgotten first. A text that names a medium ends the rule.
unfoldable pub parse_log_media : Handler SpGlobals
unfolding media_of
parse_log_media k rule s =
    let cleared = record s { log_media = record (s.log_media) { path = none } } in
    with_arg k cleared (λ value. elim (media_of (c_string value)) [
      | none ↦ (Status.error, cleared)
      | some media ↦ (Status.stop, record s { log_media = media })
    ])

-- The two keys of the shipped rules files.
abbrev pub is_dummy : Bytes → Bool
is_dummy key =
    equals key (codes "YOU _DO_ NEED TO CHANGE THIS WITH SOME RANDOM CHARACTERS.")
    || equals key (codes "c6a0e02b3b818f7559d5f85303d8fe44")

abbrev pub weak_key : Option Bytes → Bool
weak_key none = false
weak_key (some key) = ltb (length key) 10 || is_dummy key

-- The check of the key behind the keywords.
unfoldable pub check_key : SpGlobals → Status × SpGlobals
check_key t = (if weak_key t.encryption_key then Status.error else Status.stop, t)

module _ (libs : Libs) where
  abbrev pub global_keywords : Table SpGlobals
  global_keywords =
      (
        codes "secret_key",
        parse_str (λ s. s.encryption_key) (λ v s. record s { encryption_key = v }),
      )
      ∷ (
        codes "cookie_env_var",
        parse_str (λ s. s.cookies_env_var) (λ v s. record s { cookies_env_var = v }),
      )
      ∷ (codes "log_media", parse_log_media)
      ∷ (
        codes "log_max_len",
        parse_uint libs.strtoimax libs.strtoul (λ n s. record s { log_max_len = n }),
      )
      ∷ (
        codes "max_execution_depth",
        parse_uint libs.strtoimax libs.strtoul (λ n s. record s { max_execution_depth = n }),
      )
      ∷ (codes "server_encode", parse_enable (λ b s. record s { server_encode = b }))
      ∷ (codes "server_strip", parse_enable (λ b s. record s { server_strip = b }))
      ∷ []

  unfoldable pub parse_global : Handler SpGlobals
  unfolding processed check_key
  parse_global k rule s = processed (sp_process_rule global_keywords rule s) check_key
