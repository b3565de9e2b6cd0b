-- ===== src/Zval.antt =====
-- The PHP values that the extension looks at. PHP's own types are seen as far as the source reads
-- them: an array is its keys and values in order, an object or a resource an opaque handle, a double
-- the number of its bit pattern.
use snuffleupagus.Base.{ℕ, ℤ, Bytes}

pub data Key : Type 0 where
  str : Bytes → Key
  idx : ℕ → Key

mutual
  pub data Zval : Type 0 where
    undef null false true : Zval
    long : ℤ → Zval
    double : ℕ → Zval
    string : Bytes → Zval
    array : Items → Zval
    object resource reference : ℕ → Zval

  pub data Items : Type 0 where
    nil : Items
    item : Key → Zval → Items → Items

-- `sp_php_type`: the type of a PHP value, as a rule names it.
pub data SpPhpType : Type 0 where
  undef null false true long double string array object resource reference : SpPhpType

-- `Z_TYPE_P`.
unfoldable pub type_of : Zval → SpPhpType
type_of Zval.undef = SpPhpType.undef
type_of Zval.null = SpPhpType.null
type_of Zval.false = SpPhpType.false
type_of Zval.true = SpPhpType.true
type_of (Zval.long _) = SpPhpType.long
type_of (Zval.double _) = SpPhpType.double
type_of (Zval.string _) = SpPhpType.string
type_of (Zval.array _) = SpPhpType.array
type_of (Zval.object _) = SpPhpType.object
type_of (Zval.resource _) = SpPhpType.resource
type_of (Zval.reference _) = SpPhpType.reference
