-- ===== src/Keywords/Enable.antt =====
-- The macros of src/sp_config_keywords.c, and `parse_enable`.
use snuffleupagus.Base.{Bool, true, false, not, ◌&&◌, ◌||◌, [], ◌∷◌, if◌then◌else◌, codes}
use snuffleupagus.Config.{Status, ZendResult, Handler, Table, sp_process_rule, parse_empty}

-- `enable` and `disable` of a rule, and the configuration that the rule fills.
pub record Rule (C : Type 0) : Type 0 where
  pub enable : Bool
  pub disable : Bool
  pub cfg : C

abbrev pub new_rule : {C : Type 0} → C → Rule C
new_rule cfg = record { enable = false; disable = false; cfg = cfg }

module _ {S : Type 0} where
  -- SP_PROCESS_CONFIG_KEYWORDS_ERR, and what follows it.
  unfoldable pub processed : ZendResult × S → (S → Status × S) → Status × S
  processed (ZendResult.failed, s) next = (Status.error, s)
  processed (ZendResult.succeeded, s) next = next s

  -- SP_SET_ENABLE_DISABLE, and what follows it.
  unfoldable pub set_enable_disable :
      Bool → Bool → (Bool → S → S) → S → (S → Status × S) → Status × S
  set_enable_disable enable disable write s next =
      if enable && disable
      then (Status.error, s)
      else next (if enable || disable then write (enable || not disable) s else s)

-- The state behind a table's locals.
abbrev pub leave : {S L : Type 0} → (L → S) → Status × L → Status × S
leave back r = (r.0, back r.1)

abbrev pub enable_keywords : {C : Type 0} → Table (Rule C)
enable_keywords =
    (codes "enable", parse_empty (λ r. record r { enable = true }))
    ∷ (codes "disable", parse_empty (λ r. record r { disable = true }))
    ∷ []

-- `retval` is the flag that `write` writes.
unfoldable pub parse_enable : {S : Type 0} → (Bool → S → S) → Handler S
unfolding processed set_enable_disable
parse_enable write k rule s =
    leave (λ r. r.cfg)
      (processed (sp_process_rule enable_keywords rule (new_rule s)) (λ r.
        set_enable_disable r.enable r.disable (λ b t. record t { cfg = write b t.cfg }) r
          (λ t. (Status.stop, t))))
