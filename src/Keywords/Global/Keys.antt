-- ===== src/Keywords/Global/Keys.antt =====
-- What a rule of `sp.global` leaves behind.
use snuffleupagus.Base.{
  c_string, ◌≡◌, refl, sym, ap, ◌∙◌, ◌≤◌, false, List, [], ◌∷◌, some, Bytes, equals, length,
  Bool-cases, arith, codes, inl, inr,
}
use snuffleupagus.Config.{
  Status, ZendResult, SpParsedKeyword, sp_process_rule, find_handler, sp_get_arg_string,
}
use snuffleupagus.Config.Rules.{sp_process_rule-stop}
use snuffleupagus.Globals.{SpGlobals, Libs}
use snuffleupagus.Keywords.Enable.{processed}
use snuffleupagus.Keywords.Global.{
  media_of, parse_log_media, weak_key, check_key, global_keywords, parse_global,
}
use snuffleupagus.Log.{LogMedia}

-- A key of ten bytes or more that is none of the documentation's.
abbrev pub IsStrong : Bytes → Type 0
IsStrong key =
    (10 ≤ length key)
    × (equals key (codes "YOU _DO_ NEED TO CHANGE THIS WITH SOME RANDOM CHARACTERS.") ≡ false)
    × (equals key (codes "c6a0e02b3b818f7559d5f85303d8fe44") ≡ false)

weak_key-IsStrong : (key : Bytes) → weak_key (some key) ≡ false → IsStrong key
weak_key-IsStrong key h = ground arith

stopped :
    (r : ZendResult × SpGlobals) (t : SpGlobals)
    → processed r check_key ≡ (Status.stop, t)
    → weak_key t.encryption_key ≡ false
unfolding processed check_key
stopped (ZendResult.failed, u) t e = ground arith
stopped (ZendResult.succeeded, u) t e = elim (Bool-cases (weak_key u.encryption_key)) [
  | inl w ↦ ground arith
  | inr w ↦ ap (λ p. weak_key p.1.encryption_key) (sym e) ∙ w
]

parse_log_media-stop :
    (m : SpParsedKeyword) (rule : List SpParsedKeyword) (s : SpGlobals) (value : Bytes)
    (media : LogMedia)
    → sp_get_arg_string m ≡ some value
    → media_of (c_string value) ≡ some media
    → parse_log_media m rule s ≡ (Status.stop, record s { log_media = media })
unfolding parse_log_media
parse_log_media-stop m rule s value media arg known = ground arith

module _ (libs : Libs) where
  ends :
      (k m : SpParsedKeyword) (rule : List SpParsedKeyword) (s : SpGlobals) (value : Bytes)
      (media : LogMedia)
      → m.kw ≡ codes "log_media"
      → sp_get_arg_string m ≡ some value
      → media_of (c_string value) ≡ some media
      → sp_process_rule (global_keywords libs) (m ∷ rule) s
        ≡ (ZendResult.succeeded, record s { log_media = media })
  unfolding find_handler equals
  ends k m rule s value media named arg known =
      sp_process_rule-stop (global_keywords libs) m parse_log_media rule s
        (record s { log_media = media }) (rw named refl)
        (parse_log_media-stop m rule s value media arg known)

  -- If a rule of `sp.global` is accepted, the secret key that is set afterwards, if any, has ten
  -- bytes or more and is none of the two keys of the shipped rules files. (The key may be missing.)
  pub parse_global-IsStrong :
      (k : SpParsedKeyword) (rule : List SpParsedKeyword) (s t : SpGlobals) (key : Bytes)
      → parse_global libs k rule s ≡ (Status.stop, t)
      → t.encryption_key ≡ some key
      → IsStrong key
  unfolding parse_global
  parse_global-IsStrong k rule s t key e set =
      weak_key-IsStrong key
        (ap weak_key (sym set) ∙ stopped (sp_process_rule (global_keywords libs) rule s) t e)

  -- A keyword `log_media` with a medium ends the rule of `sp.global` it stands in: the keywords
  -- behind it are not read, and the outcome is the same without them.
  pub parse_global-log_media :
      (k m : SpParsedKeyword) (rule : List SpParsedKeyword) (s : SpGlobals) (value : Bytes)
      (media : LogMedia)
      → m.kw ≡ codes "log_media"
      → sp_get_arg_string m ≡ some value
      → media_of (c_string value) ≡ some media
      → parse_global libs k (m ∷ rule) s ≡ parse_global libs k (m ∷ []) s
  unfolding parse_global
  parse_global-log_media k m rule s value media named arg known =
      ap (λ r. processed r check_key)
        (ends k m rule s value media named arg known
          ∙ sym (ends k m [] s value media named arg known))
