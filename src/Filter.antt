-- ===== src/Filter.antt =====
-- src/sp_ifilter.c: stripping and encoding of server variables.
pub mod Encode
pub mod Variables
use snuffleupagus.Base.{
  ℕ, zero, suc, ◌+◌, ◌-◌, ◌*◌, ◌/◌, ◌%◌, Bool, ◌||◌, List, [], ◌∷◌, ◌++◌, map, Option, none, some,
  ltb, ◌==◌, if◌then◌else◌, Bytes, codes, equals,
}
use snuffleupagus.Zval.{Zval}

-- The table: a line feed, a carriage return, `"`, `'`, `<`, `>` and a backtick.
unfoldable pub sp_is_dangerous_char : ℕ → Bool
sp_is_dangerous_char c =
    c == 0x0a || c == 0x0d || c == 0x22 || c == 0x27 || c == 0x3c || c == 0x3e || c == 0x60

-- `sp_hexchars[i]`.
unfoldable pub hex_char : ℕ → ℕ
hex_char i = if ltb i 10 then b'0' + i else b'A' + (i - 10)

-- The loop of `sp_server_strip`, in place.
unfoldable pub strip : Bytes → Bytes
strip [] = []
strip (c ∷ p) = (if sp_is_dangerous_char c then b'_' else c) ∷ strip p

-- The first loop of `sp_server_encode`: the bytes that the encoding adds.
unfoldable pub extra : Bytes → ℕ
extra [] = 0
extra (c ∷ p) = (if sp_is_dangerous_char c then 1 else 0) * 2 + extra p

-- The second loop: the bytes written at `n`.
unfoldable pub encode_from : Bytes → Bytes
encode_from [] = []
encode_from (c ∷ p) =
    (if sp_is_dangerous_char c then b'%' ∷ hex_char (c / 16) ∷ hex_char (c % 16) ∷ [] else c ∷ [])
    ++ encode_from p

unfoldable pub encode : Bytes → Bytes
unfolding extra encode_from
encode s = if extra s == 0 then s else encode_from s

-- Only a string is changed.
unfoldable pub on_string : (Bytes → Bytes) → Zval → Zval
on_string f (Zval.string s) = Zval.string (f s)
on_string f other = other

abbrev pub Vars : Type 0
Vars = List (Bytes × Zval)

-- `zend_hash_str_find`.
unfoldable pub lookup : Bytes → Vars → Option Zval
lookup key [] = none
lookup key ((k, v) ∷ svars) = if equals k key then some v else lookup key svars

-- The value found is changed where it stands.
unfoldable pub change : (Bytes → Bytes) → Bytes → Vars → Vars
unfolding on_string
change f key [] = []
change f key ((k, v) ∷ svars) =
    if equals k key then (k, on_string f v) ∷ svars else (k, v) ∷ change f key svars

unfoldable pub sp_server_strip : Vars → Bytes → Vars
unfolding strip change
sp_server_strip svars key = change strip key svars

unfoldable pub sp_server_encode : Vars → Bytes → Vars
unfolding encode change
sp_server_encode svars key = change encode key svars

pub record ServerConfig : Type 0 where
  pub server_encode : Bool
  pub server_strip : Bool

-- A call for each of the keys in turn.
unfoldable pub for_each : (Vars → Bytes → Vars) → List Bytes → Vars → Vars
for_each call [] svars = svars
for_each call (key ∷ keys) svars = for_each call keys (call svars key)

abbrev pub encoded_keys : List Bytes
encoded_keys = codes "REQUEST_URI" ∷ codes "QUERY_STRING" ∷ []

abbrev pub stripped_keys : List Bytes
stripped_keys =
    codes "PHP_SELF"
    ∷ codes "HTTP_HOST"
    ∷ codes "HTTP_USER_AGENT"
    ∷ codes "PATH_INFO"
    ∷ codes "PATH_TRANSLATED"
    ∷ codes "ORIG_PATH_TRANSLATED"
    ∷ codes "ORIG_PATH_INFO"
    ∷ []

-- What happens to the variables that the original function has registered.
unfoldable pub sp_register_server_variables : ServerConfig → Vars → Vars
unfolding sp_server_encode sp_server_strip for_each
sp_register_server_variables cfg svars =
    let encoded =
      if cfg.server_encode then for_each sp_server_encode encoded_keys svars else svars in
    if cfg.server_strip then for_each sp_server_strip stripped_keys encoded else encoded
