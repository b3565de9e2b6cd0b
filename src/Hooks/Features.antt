-- ===== src/Hooks/Features.antt =====
-- The hooks that `sp_load_config` of src/snuffleupagus.c sets on functions of PHP, feature by feature,
-- and those of src/sp_disabled_functions.c.
pub mod Reload
pub mod Shutdown
use snuffleupagus.Base.{
  ℕ, Bool, true, false, not, ◌&&◌, ◌||◌, List, [], ◌∷◌, ◌++◌, Option, none, some, Bytes, codes,
  c_string, equals, is_set, if◌then◌else◌,
}
use snuffleupagus.Globals.{SpGlobals, SpDisabledFunction, DisabledTable}
use snuffleupagus.HardenRand.{hook_rand}
use snuffleupagus.HashTable.{zend_hash_add, zend_hash_del}
use snuffleupagus.Hooks.{Fn, Functions, Saved, Hooked, hook_function, hook_regexp, unhook_functions}
use snuffleupagus.Ini.{SpRegexp}
use snuffleupagus.Log.{Message, Level, LogType, Run, ◌>>◌, pure, sp_log_warn}
use snuffleupagus.Sloppy.{hook_sloppy}
use snuffleupagus.Unserialize.{hook_serialize}

-- The extension's functions, by the name of the function of PHP that they stand for, and
-- PHP_FN(check_disabled_function) and PHP_FN(eval_blacklist_callback).
pub record Addresses : Type 0 where
  pub replacement : Bytes → ℕ
  pub check_disabled_function : ℕ
  pub eval_blacklist_callback : ℕ

-- What the hooks read of PHP: `CG(multibyte)`, whether there is XML, and PCRE.
pub record Php : Type 0 where
  pub multibyte : Bool
  pub has_xml : Bool
  pub matching : SpRegexp → Bytes → Bool

-- `sp_libxml_disable_entity_loader` and `sp_libxml_set_external_entity_loader`.
unfoldable pub sp_libxml_disable_entity_loader : Run Bool
sp_libxml_disable_entity_loader = sp_log_warn "xxe" >> pure true

unfoldable pub sp_libxml_set_external_entity_loader : Run Bool
sp_libxml_set_external_entity_loader = sp_log_warn "xxe" >> pure true

abbrev no_xml : Message
no_xml = record { feature = "xxe"; level = Level.warning; kind = LogType.log }

-- The function table with `disabled_functions_hook`, and the two tables of `hook_functions`.
pub record Moving : Type 0 where
  pub state : Hooked
  pub to_hook : DisabledTable
  pub hooked : DisabledTable

-- The function table, the three tables of hooks, and the four tables of rules.
pub record HookTables : Type 0 where
  pub functions : Functions
  pub internal : Saved
  pub disabled : Saved
  pub eval : Saved
  pub messages : List Message
  pub to_hook : DisabledTable
  pub hooked : DisabledTable
  pub ret_to_hook : DisabledTable
  pub ret_hooked : DisabledTable

module _ (php : Php) (at : Addresses) where
  -- HOOK_FUNCTION with the function of the extension that has the name.
  abbrev pub replace : Bytes → Hooked → Hooked
  unfolding hook_function
  replace name s = (hook_function php.multibyte name (at.replacement name) s).0

  -- (The call that turns the loading of entities off is PHP's.)
  unfoldable pub hook_libxml_disable_entity_loader : Hooked → Hooked
  unfolding replace
  hook_libxml_disable_entity_loader s = replace (codes "libxml_set_external_entity_loader") (
      replace (codes "libxml_disable_entity_loader")
        (if php.has_xml then s else record s { messages = s.messages ++ no_xml ∷ [] }))

  -- (The `php` wrapper, which is registered behind it, is in Wrapper.)
  unfoldable pub hook_stream_wrappers : Hooked → Hooked
  unfolding replace
  hook_stream_wrappers s =
      replace (codes "stream_wrapper_restore") (replace (codes "stream_wrapper_register") s)

  unfoldable pub hook_cookies : Hooked → Hooked
  unfolding replace
  hook_cookies s = replace (codes "setcookie") s

  abbrev when : Bool → (Hooked → Hooked) → Hooked → Hooked
  when test hook s = if test then hook s else s

  abbrev sloppy : Hooked → Hooked
  unfolding hook_sloppy
  sloppy s =
      hook_sloppy php.multibyte
        (record {
          sp_in_array = at.replacement (codes "in_array");
          sp_array_search = at.replacement (codes "array_search");
          sp_array_keys = at.replacement (codes "array_keys");
        })
        s

  abbrev rand : Hooked → Hooked
  unfolding hook_rand
  rand s =
      hook_rand php.multibyte (at.replacement (codes "rand")) (at.replacement (codes "mt_rand")) s

  abbrev serialize : Hooked → Hooked
  unfolding hook_serialize
  serialize s =
      hook_serialize php.multibyte (at.replacement (codes "serialize"))
        (at.replacement (codes "unserialize")) s

  abbrev pub signs : SpGlobals → Bool
  signs g = (is_set g.encryption_key && g.unserialize.enable) || g.unserialize_noclass.enable

  -- The hooks in the table `sp_internal_functions_hook`, in the order of `sp_load_config`.
  unfoldable pub hook_features : SpGlobals → Hooked → Hooked
  unfolding sloppy rand serialize hook_libxml_disable_entity_loader hook_stream_wrappers
      hook_cookies
  hook_features g s =
      let s1 = when g.sloppy_enable sloppy s in
      let s2 = when g.random_enable rand s1 in
      let s3 = when g.xxe_protection_enable hook_libxml_disable_entity_loader s2 in
      let s4 = when g.wrapper.enabled hook_stream_wrappers s3 in
      let s5 = when (signs g) serialize s4 in hook_cookies s5

  abbrev is_builtin : Bytes → Bool
  unfolding equals
  is_builtin name =
      equals name (codes "include")
      || equals name (codes "include_once")
      || equals name (codes "require")
      || equals name (codes "require_once")
      || equals name (codes "echo")

  -- The name of a rule: that of its last function in a chain.
  abbrev builtin_option : Option Bytes → Bool
  unfolding is_builtin
  builtin_option none = false
  builtin_option (some name) = is_builtin (c_string name)

  abbrev builtin_name : List Bytes → Option Bytes → Bool
  unfolding builtin_option c_string
  builtin_name (name ∷ _) function = builtin_option (some name)
  builtin_name [] function = builtin_option function

  unfoldable pub check_is_builtin_name : SpDisabledFunction → Bool
  unfolding builtin_name
  check_is_builtin_name df = builtin_name df.functions_list df.function

  abbrev builtin_first : List SpDisabledFunction → Bool
  unfolding check_is_builtin_name
  builtin_first [] = false
  builtin_first (df ∷ _) = check_is_builtin_name df

  abbrev added : DisabledTable → Option DisabledTable → DisabledTable
  added ht none = ht
  added ht (some ht') = ht'

  -- An entry is moved if its function is hooked or a builtin.
  abbrev move : Bytes → List SpDisabledFunction → Bool → Hooked → Moving → Moving
  unfolding zend_hash_add zend_hash_del
  move key value moves state m =
      if moves
      then record m {
        state = state;
        to_hook = zend_hash_del key m.to_hook;
        hooked = added m.hooked (zend_hash_add key value m.hooked);
      }
      else record m { state = state }

  abbrev hook_entry : Bytes → List SpDisabledFunction → Moving → Moving
  unfolding hook_function builtin_first move c_string
  hook_entry key value m =
      let (state, hooked) =
        hook_function php.multibyte (c_string key) at.check_disabled_function m.state in
      move key value (hooked || builtin_first value) state m

  -- The loop over the table as it is at the start.
  unfoldable pub hook_functions : DisabledTable → Moving → Moving
  unfolding hook_entry
  hook_functions [] m = m
  hook_functions ((key, value) ∷ ht) m = hook_functions ht (hook_entry key value m)

  -- A rule has a function or an expression, which the code asserts.
  abbrev hook_rule : Option Bytes → Option SpRegexp → Hooked → Hooked
  unfolding hook_function hook_regexp c_string
  hook_rule (some name) rx s =
      (hook_function php.multibyte (c_string name) at.check_disabled_function s).0
  hook_rule none (some rx) s =
      hook_regexp php.multibyte (php.matching rx) at.check_disabled_function s
  hook_rule none none s = s

  unfoldable pub hook_functions_regexp : List SpDisabledFunction → Hooked → Hooked
  unfolding hook_rule
  hook_functions_regexp [] s = s
  hook_functions_regexp (df ∷ config) s =
      hook_functions_regexp config (hook_rule df.function df.r_function s)

  -- The loop over the blacklist of `eval`.
  unfoldable pub hook_blacklist : List Bytes → Hooked → Hooked
  unfolding hook_function c_string
  hook_blacklist [] s = s
  hook_blacklist (it ∷ list) s =
      hook_blacklist list (hook_function php.multibyte (c_string it) at.eval_blacklist_callback s).0

  unfoldable pub hook_disabled_functions : SpGlobals → HookTables → HookTables
  unfolding hook_functions hook_functions_regexp hook_blacklist
  hook_disabled_functions g t =
      let start : Hooked = record {
        functions = t.functions;
        saved = t.disabled;
        messages = t.messages;
      } in
      let calls =
        hook_functions t.to_hook
          (record { state = start; to_hook = t.to_hook; hooked = t.hooked }) in
      let returns =
        hook_functions t.ret_to_hook
          (record { state = calls.state; to_hook = t.ret_to_hook; hooked = t.ret_hooked }) in
      let by_rule =
        hook_functions_regexp g.disabled_functions_reg_ret
          (hook_functions_regexp g.disabled_functions_reg returns.state) in
      let evals =
        hook_blacklist g.eval.blacklist
          (record { functions = by_rule.functions; saved = t.eval; messages = by_rule.messages }) in
      record {
        functions = evals.functions;
        internal = t.internal;
        disabled = by_rule.saved;
        eval = evals.saved;
        messages = evals.messages;
        to_hook = calls.to_hook;
        hooked = calls.hooked;
        ret_to_hook = returns.to_hook;
        ret_hooked = returns.hooked;
      }

  -- All hooks on functions, in the order of `sp_load_config`.
  unfoldable pub hook_all : SpGlobals → HookTables → HookTables
  unfolding hook_features hook_disabled_functions
  hook_all g t =
      let features =
        hook_features g
          (record { functions = t.functions; saved = t.internal; messages = t.messages }) in
      hook_disabled_functions g (record t {
        functions = features.functions;
        internal = features.saved;
        messages = features.messages;
      })

-- `unhook_functions` as `sp_load_config` calls it, on the three tables.
unfoldable pub unhook_all : HookTables → Functions
unfolding unhook_functions
unhook_all t =
    unhook_functions t.internal (unhook_functions t.disabled (unhook_functions t.eval t.functions))

-- As PHP_MSHUTDOWN_FUNCTION calls it.
unfoldable pub unhook_shutdown : HookTables → Functions
unfolding unhook_functions
unhook_shutdown t =
    unhook_functions t.eval (unhook_functions t.disabled (unhook_functions t.internal t.functions))
