-- ===== src/Filter/Variables.antt =====
-- What registration does to each server variable.
use mathlib.Core.Option
use snuffleupagus.Base.{
  ◌≡◌, Bool, false, ◌&&◌, ◌||◌, List, [], ◌∷◌, Option, none, some, refl, ap, arith, Bytes,
  if◌then◌else◌, equals, equals_iff,
}
use snuffleupagus.Zval.{Zval}
use snuffleupagus.Filter.{
  strip, encode, on_string, Vars, lookup, change, ServerConfig, for_each, encoded_keys,
  stripped_keys, sp_register_server_variables,
}
use snuffleupagus.Filter.Encode.{strip-strip, encode-encode}

unfoldable pub contains : List Bytes → Bytes → Bool
contains [] key = false
contains (k ∷ keys) key = equals k key || contains keys key

lookup-change :
    (f : Bytes → Bytes) (k j : Bytes) (m : Vars)
    → lookup j (change f k m)
      ≡ (if equals k j then Option.map (on_string f) (lookup j m) else lookup j m)
unfolding lookup change
lookup-change f k j [] = ground arith
lookup-change f k j ((i, v) ∷ m) =
    ground (arith, equals_iff k j, equals_iff i k, equals_iff i j, lookup-change f k j m)

on_string_idem :
    (f : Bytes → Bytes)
    → ((s : Bytes) → f (f s) ≡ f s)
    → (o : Option Zval)
    → Option.map (on_string f) (Option.map (on_string f) o) ≡ Option.map (on_string f) o
unfolding on_string
on_string_idem f idem none = refl
on_string_idem f idem (some (Zval.string s)) = ap (λ x. some (Zval.string x)) (idem s)
on_string_idem f idem (some other) = refl

-- The effect of changing the values of some keys in turn.
lookup-for_each :
    (f : Bytes → Bytes)
    → ((s : Bytes) → f (f s) ≡ f s)
    → (keys : List Bytes) (j : Bytes) (m : Vars)
    → lookup j (for_each (λ m k. change f k m) keys m)
      ≡ (if contains keys j then Option.map (on_string f) (lookup j m) else lookup j m)
unfolding for_each contains
lookup-for_each f idem [] j m = refl
lookup-for_each f idem (k ∷ keys) j m = ground (
  arith,
  lookup-for_each f idem keys j (change f k m),
  lookup-change f k j m,
  on_string_idem f idem (lookup j m),
)

-- What becomes of the value of one variable.
abbrev pub filtered : ServerConfig → Bytes → Option Zval → Option Zval
filtered cfg j v =
    let encoded =
      if cfg.server_encode && contains encoded_keys j then Option.map (on_string encode) v else v in
    if cfg.server_strip && contains stripped_keys j
    then Option.map (on_string strip) encoded
    else encoded

-- After registration every variable has the value it had before, encoded if encoding is on and it is
-- the URI or the query string, and stripped if stripping is on and it is one of the seven names that
-- are stripped; no other variable changes, and none appears or disappears.
pub lookup-sp_register_server_variables :
    (cfg : ServerConfig) (j : Bytes) (m : Vars)
    → lookup j (sp_register_server_variables cfg m) ≡ filtered cfg j (lookup j m)
unfolding sp_register_server_variables
lookup-sp_register_server_variables cfg j m = ground (
  arith,
  lookup-for_each encode encode-encode encoded_keys j m,
  lookup-for_each strip strip-strip stripped_keys j m,
  lookup-for_each strip strip-strip stripped_keys j
      (for_each (λ m k. change encode k m) encoded_keys m),
)
