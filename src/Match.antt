-- ===== src/Match.antt =====
-- src/sp_utils.c: what a rule's value or key is compared with. `matches` is PCRE's answer for a
-- pattern and a text; `long_text`, `double_text` and `ulong_text` are `spprintf` of "%ld", "%f" and
-- "%lu".
pub mod Arrays
use snuffleupagus.Base.{
  ℕ, Bool, true, false, List, [], ◌∷◌, ◌++◌, Option, none, some, ◌||◌, if◌then◌else◌, ℤ, Bytes,
  codes, equals,
}
use snuffleupagus.Ini.{SpRegexp}
use snuffleupagus.Zval.{Zval, Items, Key}

pub record Texts : Type 0 where
  pub matches : Bytes → Bytes → Bool
  pub long_text : ℤ → Bytes
  pub double_text : ℕ → Bytes
  pub ulong_text : ℕ → Bytes

module _ (texts : Texts) where
  unfoldable pub sp_zval_to_zend_string : Zval → Bytes
  sp_zval_to_zend_string (Zval.long n) = texts.long_text n
  sp_zval_to_zend_string (Zval.double d) = texts.double_text d
  sp_zval_to_zend_string (Zval.string s) = s
  sp_zval_to_zend_string Zval.false = codes "FALSE"
  sp_zval_to_zend_string Zval.true = codes "TRUE"
  sp_zval_to_zend_string Zval.null = codes "NULL"
  sp_zval_to_zend_string (Zval.object _) = codes "OBJECT"
  sp_zval_to_zend_string (Zval.array _) = codes "ARRAY"
  sp_zval_to_zend_string (Zval.resource _) = codes "RESOURCE"
  sp_zval_to_zend_string Zval.undef = []
  sp_zval_to_zend_string (Zval.reference _) = []

  unfoldable pub sp_match_value : Bytes → Option Bytes → Option SpRegexp → Bool
  sp_match_value value (some to_match) rx = equals to_match value
  sp_match_value value none (some rx) = texts.matches rx.pattern value
  sp_match_value value none none = true

  abbrev pub key_text : Key → Bytes
  key_text (Key.str s) = s
  key_text (Key.idx i) = texts.ulong_text i

  module _ (to_match : Option Bytes) (rx : Option SpRegexp) where
    -- The loop over the keys, one level deep.
    unfoldable pub sp_match_array_key : Items → Bool
    unfolding sp_match_value
    sp_match_array_key Items.nil = false
    sp_match_array_key (Items.item key value items) =
        if sp_match_value (key_text key) to_match rx then true else sp_match_array_key items

    unfoldable mutual
      unfolding sp_match_value sp_zval_to_zend_string

      -- One turn of the loop over the values.
      pub match_one : Zval → Bool
      match_one (Zval.array items) = sp_match_array_value items
      match_one (Zval.long n) = sp_match_value (sp_zval_to_zend_string (Zval.long n)) to_match rx
      match_one (Zval.double d) =
          sp_match_value (sp_zval_to_zend_string (Zval.double d)) to_match rx
      match_one (Zval.string s) =
          sp_match_value (sp_zval_to_zend_string (Zval.string s)) to_match rx
      match_one (Zval.object o) =
          sp_match_value (sp_zval_to_zend_string (Zval.object o)) to_match rx
      match_one (Zval.resource r) =
          sp_match_value (sp_zval_to_zend_string (Zval.resource r)) to_match rx
      match_one (Zval.reference r) =
          sp_match_value (sp_zval_to_zend_string (Zval.reference r)) to_match rx
      match_one Zval.undef = sp_match_value (sp_zval_to_zend_string Zval.undef) to_match rx
      match_one Zval.null = sp_match_value (sp_zval_to_zend_string Zval.null) to_match rx
      match_one Zval.true = sp_match_value (sp_zval_to_zend_string Zval.true) to_match rx
      match_one Zval.false = sp_match_value (sp_zval_to_zend_string Zval.false) to_match rx

      pub sp_match_array_value : Items → Bool
      sp_match_array_value Items.nil = false
      sp_match_array_value (Items.item key value items) =
          let rest = sp_match_array_value items in if match_one value then true else rest
