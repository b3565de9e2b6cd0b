-- ===== src/Dump.antt =====
-- `dump_config` and `add_df_to_arr` of src/snuffleupagus.c: the configuration as a PHP array. The
-- printing of the array by PHP is left out. The numbers of PHP's types are a parameter.
pub mod Rules
pub mod Secret
use Prim.Native.String.{String}
use snuffleupagus.Base.{
  ℕ, ◌+◌, ◌-◌, ◌^◌, Bool, true, false, List, [], ◌∷◌, ◌++◌, Option, none, some, ℤ, pos, negsuc, ltb,
  ◌==◌, equals, length, codes, Bytes, is_set, if◌then◌else◌,
}
use snuffleupagus.Globals.{SpGlobals, SpDisabledFunction, SpCookie, SameSite, DisabledTable}
use snuffleupagus.Ini.{SpRegexp, IniEntry, Permission}
use snuffleupagus.Log.{MediaType}
use snuffleupagus.Network.{Address, SpCidr}
use snuffleupagus.Network.Written.{get_ip_str}
use snuffleupagus.SpTree.{SpTree, null, node}
use snuffleupagus.VarValue.{is_key}
use snuffleupagus.Zval.{Key, Zval, Items, SpPhpType}

-- A value under a name: what was there is replaced where it stands, or the value comes last.
unfoldable pub add_assoc : Bytes → Zval → Items → Items
add_assoc key v Items.nil = Items.item (Key.str key) v Items.nil
add_assoc key v (Items.item k old rest) =
    let added = add_assoc key v rest in
    if is_key k key then Items.item k v rest else Items.item k old added

-- A value under the next number, in an array that has only such values.
unfoldable pub count : Items → ℕ
count Items.nil = 0
count (Items.item k v rest) = count rest + 1

unfoldable pub add_last : Key → Zval → Items → Items
add_last key v Items.nil = Items.item key v Items.nil
add_last key v (Items.item k old rest) = Items.item k old (add_last key v rest)

unfoldable pub add_next_index : Zval → Items → Items
unfolding count add_last
add_next_index v arr = add_last (Key.idx (count arr)) v arr

unfoldable pub add_each : List Zval → Items → Items
unfolding add_next_index
add_each [] arr = arr
add_each (v ∷ vs) arr = add_each vs (add_next_index v arr)

-- The calls one behind the other.
abbrev pub Assoc : Type 0
Assoc = Bytes × Zval

unfoldable pub add_all : List Assoc → Items → Items
unfolding add_assoc
add_all [] arr = arr
add_all ((key, v) ∷ calls) arr = add_all calls (add_assoc key v arr)

-- The values that the calls take. A `u_long` or `size_t` becomes a signed number of 64 bits.
abbrev pub bool : Bool → Zval
bool true = Zval.true
bool false = Zval.false

abbrev pub as_long : ℕ → Zval
as_long n = Zval.long (if ltb n (2 ^ 63) then pos n else negsuc (2 ^ 64 - 1 - n))

-- An `int` of 32 bits.
abbrev pub as_int : ℕ → Zval
as_int n = Zval.long (if ltb n (2 ^ 31) then pos n else negsuc (2 ^ 32 - 1 - n))

abbrev pub zstr : Option Bytes → Zval
zstr none = Zval.null
zstr (some s) = Zval.string s

abbrev pub regexp : Option SpRegexp → Zval
regexp none = Zval.null
regexp (some r) = Zval.string r.pattern

abbrev pub text : Bytes → Zval
text s = Zval.string s

-- ADD_ASSOC_SPLIST, and the list of functions of a rule.
abbrev pub splist : List Zval → Zval
unfolding add_each
splist [] = Zval.null
splist (v ∷ vs) = Zval.array (add_each (v ∷ vs) Items.nil)

abbrev pub each {ℓ} : {A : Type ℓ} → (A → Zval) → List A → List Zval
each f [] = []
each f (a ∷ as') = f a ∷ each f as'

abbrev pub tree : SpTree → Zval
tree null = Zval.null
tree (node type value idx next) = Zval.string value

abbrev pub samesite : Option SameSite → Zval
samesite none = Zval.long (pos 0)
samesite (some SameSite.strict) = Zval.long (pos 1)
samesite (some SameSite.lax) = Zval.long (pos 2)

abbrev pub access : Permission → Zval
access Permission.unset = Zval.long (pos 0)
access Permission.readonly = Zval.long (pos 1)
access Permission.readwrite = Zval.long (negsuc 0)

abbrev pub media : MediaType → Zval
media MediaType.log_zend = Zval.long (pos 0)
media MediaType.log_syslog = Zval.long (pos 1)
media MediaType.log_file = Zval.long (pos 2)

-- The path replaces the number of the medium.
abbrev pub media_path : MediaType → Option Bytes → List Assoc
media_path MediaType.log_file path = (codes "global.log_media", zstr path) ∷ []
media_path _ path = []

-- Whether there is a key that is not empty.
abbrev pub has_key : Option Bytes → Bool
has_key none = false
has_key (some []) = false
has_key (some (_ ∷ _)) = true

unfoldable pub ini_entry_calls : IniEntry → List Assoc
ini_entry_calls e =
    (codes "sim", bool e.simulation)
    ∷ (codes "key", text e.key)
    ∷ (codes "msg", zstr e.msg)
    ∷ (codes "set", zstr e.set)
    ∷ (codes "min", zstr e.min)
    ∷ (codes "max", zstr e.max)
    ∷ (codes "access", access e.access)
    ∷ (codes "drop", bool e.drop)
    ∷ (codes "allow_null", bool e.allow_null)
    ∷ (codes "regexp", regexp e.regexp)
    ∷ []

unfoldable pub cookie_calls : SpCookie → List Assoc
cookie_calls c =
    (codes "samesite", samesite c.samesite)
    ∷ (codes "encrypt", bool c.encrypt)
    ∷ (codes "name", zstr c.name)
    ∷ (codes "name_r", regexp c.name_r)
    ∷ (codes "sim", bool c.simulation)
    ∷ []

abbrev pub array_of {ℓ} : {A : Type ℓ} → (A → List Assoc) → A → Zval
unfolding add_all
array_of calls a = Zval.array (add_all (calls a) Items.nil)

abbrev pub entries_of : List (Bytes × IniEntry) → List IniEntry
entries_of [] = []
entries_of ((_, e) ∷ es) = e ∷ entries_of es

-- The array `arr_dfs`, with the number of rules in it.
abbrev pub Dumped : Type 0
Dumped = Items × ℕ

abbrev pub rules_value : Dumped → Zval
rules_value (arr, num_df) = if num_df == 0 then Zval.null else Zval.array arr

module _ (ntop : Address → Option Bytes) (type_number : SpPhpType → ℤ) where
  abbrev pub cidr_value : Option SpCidr → Zval
  unfolding get_ip_str
  cidr_value none = Zval.null
  cidr_value (some c) = zstr (get_ip_str ntop 51 c)

  unfoldable pub df_calls : SpDisabledFunction → List Assoc
  unfolding cidr_value
  df_calls df =
      (codes "filename", zstr df.filename)
      ∷ (codes "filename_r", regexp df.r_filename)
      ∷ (codes "function", zstr df.function)
      ∷ (codes "function_r", regexp df.r_function)
      ∷ (codes "function_list", splist (each text df.functions_list))
      ∷ (codes "hash", zstr df.hash)
      ∷ (codes "sim", bool df.simulation)
      ∷ (codes "param", tree df.param)
      ∷ (codes "param_r", regexp df.r_param)
      ∷ (codes "param_type", Zval.long (type_number df.param_type))
      ∷ (codes "pos", Zval.long df.position)
      ∷ (codes "line", as_long df.line)
      ∷ (codes "ret", zstr df.ret)
      ∷ (codes "ret_r", regexp df.r_ret)
      ∷ (codes "ret_type", Zval.long (type_number df.ret_type))
      ∷ (codes "value", zstr df.value)
      ∷ (codes "value_r", regexp df.r_value)
      ∷ (codes "key", zstr df.key)
      ∷ (codes "key_r", regexp df.r_key)
      ∷ (codes "dump", zstr df.dump)
      ∷ (codes "alias", zstr df.alias)
      ∷ (codes "param_is_array", bool false)
      ∷ (codes "var_is_array", bool false)
      ∷ (codes "allow", bool df.allow)
      ∷ (codes "var", tree df.var)
      ∷ (codes "param", tree df.param)
      ∷ (codes "cidr", cidr_value df.cidr)
      ∷ []

  unfoldable pub add_df_to_arr : SpDisabledFunction → Items → Items
  unfolding add_next_index add_all df_calls
  add_df_to_arr df arr = add_next_index (array_of df_calls df) arr

  unfoldable pub add_rules : List SpDisabledFunction → Dumped → Dumped
  unfolding add_df_to_arr
  add_rules [] d = d
  add_rules (df ∷ dfs) (arr, num_df) = add_rules dfs (add_df_to_arr df arr, num_df + 1)

  unfoldable pub add_table : DisabledTable → Dumped → Dumped
  unfolding add_rules
  add_table [] d = d
  add_table ((name, dfs) ∷ table) d = add_table table (add_rules dfs d)

  unfoldable pub dump_rules : SpGlobals → Dumped
  unfolding add_table
  dump_rules g = add_rules g.disabled_functions_reg_ret (
      add_rules g.disabled_functions_reg
        (add_table g.disabled_functions_ret (add_table g.disabled_functions (Items.nil, 0))))

  unfoldable pub config_calls : SpGlobals → List Assoc
  unfolding ini_entry_calls cookie_calls
  config_calls g =
      (codes "version", text (codes "0.14.0"))
      ∷ (codes "unserialize_noclass.enable", bool g.unserialize_noclass.enable)
      ∷ (codes "unserialize_hmac.enable", bool g.unserialize.enable)
      ∷ (codes "unserialize_hmac.sim", bool g.unserialize.simulation)
      ∷ (codes "unserialize_hmac.dump", zstr g.unserialize.dump)
      ∷ (codes "harden_random.enable", bool g.random_enable)
      ∷ (codes "readonly_exec.enable", bool g.readonly_exec.enable)
      ∷ (codes "readonly_exec.sim", bool g.readonly_exec.simulation)
      ∷ (codes "readonly_exec.dump", zstr g.readonly_exec.dump)
      ∷ (codes "readonly_exec.extended_checks", bool g.readonly_exec.extended_checks)
      ∷ (codes "global_strict.enable", bool g.global_strict_enable)
      ∷ (codes "upload_validation.enable", bool g.upload_validation.enable)
      ∷ (codes "upload_validation.sim", bool g.upload_validation.simulation)
      ∷ (codes "upload_validation.script", zstr g.upload_validation.script)
      ∷ (codes "global.secret_key", bool (has_key g.encryption_key))
      ∷ (codes "global.cookie_env_var", zstr g.cookies_env_var)
      ∷ (codes "global.log_media", media g.log_media.type)
      ∷ (media_path g.log_media.type g.log_media.path
          ++ ((codes "global.log_max_len", as_int g.log_max_len)
              ∷ (codes "global.max_execution_depth", as_long g.max_execution_depth)
              ∷ (codes "global.server_encode", bool g.server_encode)
              ∷ (codes "global.server_strip", bool g.server_strip)
              ∷ (codes "auto_cookie_secure", bool g.auto_cookie_secure_enable)
              ∷ (codes "xxe_protection", bool g.xxe_protection_enable)
              ∷ (codes "eval_blacklist.sim", bool g.eval.simulation)
              ∷ (codes "eval_blacklist.dump", zstr g.eval.dump)
              ∷ (codes "eval_blacklist.list", splist (each text g.eval.blacklist))
              ∷ (codes "eval_whitelist.list", splist (each text g.eval.whitelist))
              ∷ (codes "session.encrypt", bool g.session.encrypt)
              ∷ (codes "session.sim", bool g.session.simulation)
              ∷ (codes "session.sid_min_length", as_long g.session.sid_min_length)
              ∷ (codes "session.sid_max_length", as_long g.session.sid_max_length)
              ∷ (codes "sloppy_comparison.enable", bool g.sloppy_enable)
              ∷ (codes "wrappers_whitelist.list", splist (each text g.wrapper.whitelist))
              ∷ (
                codes "wrappers_whitelist.php_list",
                splist (each text g.wrapper.php_stream_allowlist),
              )
              ∷ (codes "ini_protection.enable", bool g.ini.enable)
              ∷ (codes "ini_protection.sim", bool g.ini.simulation)
              ∷ (codes "ini_protection.policy_ro", bool g.ini.policy_readonly)
              ∷ (codes "ini_protection.policy_silent_ro", bool g.ini.policy_silent_ro)
              ∷ (codes "ini_protection.policy_silent_fail", bool g.ini.policy_silent_fail)
              ∷ (codes "ini_protection.policy_drop", bool g.ini.policy_drop)
              ∷ (codes "ini", splist (each (array_of ini_entry_calls) (entries_of g.ini.entries)))
              ∷ (codes "cookie", splist (each (array_of cookie_calls) g.cookies))
              ∷ []))

  -- The rules of `sp.disable_function` come last.
  unfoldable pub dump_config : SpGlobals → Items
  unfolding add_all config_calls dump_rules
  dump_config g =
      add_assoc (codes "disable_function") (rules_value (dump_rules g))
        (add_all (config_calls g) Items.nil)
