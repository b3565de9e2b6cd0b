-- ===== src/Base/Text.antt =====
-- C strings and `zend_string`s as lists of bytes. A C string is its bytes before the NUL.
use Prim.Native.Nat.{ℕ, ◌+◌}
use Prim.Native.Char.{code}
use Prim.Native.String.{String}
use mathlib.Core.Path.{◌≡◌, refl}
use mathlib.Core.Logic.{◌↔◌}
use mathlib.Core.Bool.{Bool, true, false, ◌&&◌}
use mathlib.Core.List.{List, [], ◌∷◌}
use native.Mathlib.Omega.{arith}
use snuffleupagus.Base.Tests.{leb, ◌==◌, if◌then◌else◌}

abbrev pub Bytes : Type 0
Bytes = List ℕ

-- A string literal of the source; every one is ASCII.
abbrev pub codes : String → Bytes
codes String.[] = []
codes (String.◌∷◌ c s) = code c ∷ codes s

-- The C string in the memory of a text: the bytes before the first NUL.
unfoldable pub c_string : Bytes → Bytes
c_string [] = []
c_string (c ∷ s) = if c == 0 then [] else c ∷ c_string s

-- `strcmp(a, b) == 0` and `zend_string_equals`.
unfoldable pub equals : Bytes → Bytes → Bool
equals [] [] = true
equals (x ∷ xs) (y ∷ ys) = x == y && equals xs ys
equals _ _ = false

abbrev pub to_lower : ℕ → ℕ
to_lower c = if leb b'A' c && leb c b'Z' then c + 32 else c

-- `strcasecmp(a, b) == 0` and `zend_string_equals_ci`.
unfoldable pub equals_ci : Bytes → Bytes → Bool
equals_ci [] [] = true
equals_ci (x ∷ xs) (y ∷ ys) = to_lower x == to_lower y && equals_ci xs ys
equals_ci _ _ = false

-- `strncmp(s, p, strlen(p)) == 0`.
unfoldable pub starts_with : Bytes → Bytes → Bool
starts_with [] s = true
starts_with (p ∷ ps) [] = false
starts_with (p ∷ ps) (c ∷ cs) = p == c && starts_with ps cs

-- `strncasecmp(s, p, strlen(p)) == 0`.
unfoldable pub starts_with_ci : Bytes → Bytes → Bool
starts_with_ci [] s = true
starts_with_ci (p ∷ ps) [] = false
starts_with_ci (p ∷ ps) (c ∷ cs) = to_lower p == to_lower c && starts_with_ci ps cs

pub equals_iff : (a b : Bytes) → (equals a b ≡ true) ↔ (a ≡ b)
unfolding equals
equals_iff (x ∷ a) (y ∷ b) = ground (arith, equals_iff a b)
equals_iff _ _ = ground arith

pub equals_refl : (a : Bytes) → equals a a ≡ true
equals_refl a = (equals_iff a a).1 refl

pub equals_ci_refl : (a : Bytes) → equals_ci a a ≡ true
unfolding equals_ci
equals_ci_refl [] = refl
equals_ci_refl (x ∷ a) = ground (arith, equals_ci_refl a)
