-- ===== src/Match/Arrays.antt =====
-- `sp_match_array_value` looks at every value that is no array, however deep it stands.
use snuffleupagus.Base.{
  ◌≡◌, refl, ◌∙◌, sym, Bool, true, false, ◌||◌, List, [], ◌∷◌, ◌++◌, Option, Bytes, arith,
  if◌then◌else◌,
}
use snuffleupagus.Ini.{SpRegexp}
use snuffleupagus.Match.{
  Texts, sp_zval_to_zend_string, sp_match_value, match_one, sp_match_array_value,
}
use snuffleupagus.Zval.{Zval, Items}

module _ (texts : Texts) where
  mutual
    unfolding sp_zval_to_zend_string

    -- The texts of the values in an array and in the arrays in it, from left to right.
    pub leaf : Zval → List Bytes
    leaf (Zval.array items) = leaves items
    leaf (Zval.long n) = sp_zval_to_zend_string texts (Zval.long n) ∷ []
    leaf (Zval.double d) = sp_zval_to_zend_string texts (Zval.double d) ∷ []
    leaf (Zval.string s) = sp_zval_to_zend_string texts (Zval.string s) ∷ []
    leaf (Zval.object o) = sp_zval_to_zend_string texts (Zval.object o) ∷ []
    leaf (Zval.resource r) = sp_zval_to_zend_string texts (Zval.resource r) ∷ []
    leaf (Zval.reference r) = sp_zval_to_zend_string texts (Zval.reference r) ∷ []
    leaf Zval.undef = sp_zval_to_zend_string texts Zval.undef ∷ []
    leaf Zval.null = sp_zval_to_zend_string texts Zval.null ∷ []
    leaf Zval.true = sp_zval_to_zend_string texts Zval.true ∷ []
    leaf Zval.false = sp_zval_to_zend_string texts Zval.false ∷ []

    pub leaves : Items → List Bytes
    leaves Items.nil = []
    leaves (Items.item key value items) = leaf value ++ leaves items

abbrev pub any {ℓ} : {A : Type ℓ} → (A → Bool) → List A → Bool
any f [] = false
any f (x ∷ list) = f x || any f list

any-append : {A : Type 0} (f : A → Bool) (xs ys : List A) → any f (xs ++ ys) ≡ any f xs || any f ys
any-append f [] ys = refl
any-append f (x ∷ xs) ys = ground (arith, any-append f xs ys)

if_true : (a b c d : Bool) → a ≡ c → b ≡ d → (if a then true else b) ≡ c || d
if_true a b c d p q = ground arith

one : (b : Bool) → b ≡ b || false
one b = ground arith

module _ (texts : Texts) (to_match : Option Bytes) (rx : Option SpRegexp) where
  abbrev pub fits : Bytes → Bool
  fits value = sp_match_value texts value to_match rx

  mutual
    unfolding match_one sp_match_array_value leaf leaves

    match_one-leaf :
        (value : Zval) → match_one texts to_match rx value ≡ any fits (leaf texts value)
    match_one-leaf (Zval.array items) = items-leaves items
    match_one-leaf (Zval.long n) = one _
    match_one-leaf (Zval.double d) = one _
    match_one-leaf (Zval.string s) = one _
    match_one-leaf (Zval.object o) = one _
    match_one-leaf (Zval.resource r) = one _
    match_one-leaf (Zval.reference r) = one _
    match_one-leaf Zval.undef = one _
    match_one-leaf Zval.null = one _
    match_one-leaf Zval.true = one _
    match_one-leaf Zval.false = one _

    items-leaves :
        (items : Items)
        → sp_match_array_value texts to_match rx items ≡ any fits (leaves texts items)
    items-leaves Items.nil = refl
    items-leaves (Items.item key value items) =
        if_true _ _ _ _ (match_one-leaf value) (items-leaves items)
        ∙ sym (any-append fits (leaf texts value) (leaves texts items))

  -- The recursion over an array and the arrays in it finds a value exactly if the text of one of the
  -- values that are no arrays, at whatever depth, fits the rule.
  pub sp_match_array_value-any :
      (items : Items) → sp_match_array_value texts to_match rx items ≡ any fits (leaves texts items)
  sp_match_array_value-any items = items-leaves items
