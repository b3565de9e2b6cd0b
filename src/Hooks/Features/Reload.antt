-- ===== src/Hooks/Features/Reload.antt =====
-- A reload of the configuration gives PHP its functions back.
use snuffleupagus.Base.{
  ◌≡◌, ◌≢◌, ap, ◌∙◌, Bool, true, false, ◌||◌, List, [], ◌∷◌, ◌++◌, Option, none, some, Bytes, codes,
  c_string, if◌then◌else◌, Bool-cases, inl, inr,
}
use snuffleupagus.Globals.{SpGlobals, SpDisabledFunction, DisabledTable}
use snuffleupagus.Hooks.{Functions, Hooked, hook_function, unhook_functions}
use snuffleupagus.Hooks.Features.{
  no_xml, Addresses, Php, replace, hook_libxml_disable_entity_loader, hook_stream_wrappers,
  hook_cookies, sloppy, rand, serialize, when, signs, hook_features, Moving, hook_functions,
  hook_entry, builtin_first, move, hook_rule, hook_functions_regexp, hook_blacklist, HookTables,
  hook_disabled_functions, hook_all, unhook_all,
}
use snuffleupagus.Hooks.Restore.{
  HaveHandlers, LeadsBack, hook_function-LeadsBack, hook_regexp-LeadsBack,
}
use snuffleupagus.HardenRand.{hook_rand}
use snuffleupagus.Ini.{SpRegexp}
use snuffleupagus.Sloppy.{hook_sloppy}
use snuffleupagus.Unserialize.{hook_serialize}

-- The functions of the extension have addresses.
pub record AreSet (at : Addresses) : Type 0 where
  pub replacement : (name : Bytes) → at.replacement name ≢ 0
  pub check_disabled_function : at.check_disabled_function ≢ 0
  pub eval_blacklist_callback : at.eval_blacklist_callback ≢ 0

module _ (php : Php) (at : Addresses) (set : AreSet at) (functions : Functions) where
  abbrev Back : Hooked → Type 0
  Back s = LeadsBack functions s

  replace-Back : (name : Bytes) (s : Hooked) → Back s → Back (replace php at name s)
  unfolding replace
  replace-Back name s b =
      hook_function-LeadsBack (at.replacement name) (set.replacement name) functions php.multibyte
        name s b

  when-Back :
      (test : Bool) (hook : Hooked → Hooked) (s : Hooked)
      → ((t : Hooked) → Back t → Back (hook t))
      → Back s
      → Back (when php at test hook s)
  when-Back true hook s h b = h s b
  when-Back false hook s h b = b

  sloppy-Back : (s : Hooked) → Back s → Back (sloppy php at s)
  unfolding sloppy hook_sloppy
  sloppy-Back s b =
      replace-Back (codes "array_keys") _
        (replace-Back (codes "array_search") _ (replace-Back (codes "in_array") s b))

  rand-Back : (s : Hooked) → Back s → Back (rand php at s)
  unfolding rand hook_rand
  rand-Back s b = replace-Back (codes "mt_rand") _ (replace-Back (codes "rand") s b)

  serialize-Back : (s : Hooked) → Back s → Back (serialize php at s)
  unfolding serialize hook_serialize
  serialize-Back s b = replace-Back (codes "unserialize") _ (replace-Back (codes "serialize") s b)

  libxml-Back : (s : Hooked) → Back s → Back (hook_libxml_disable_entity_loader php at s)
  unfolding hook_libxml_disable_entity_loader
  libxml-Back s b = replace-Back (codes "libxml_set_external_entity_loader") _ (
      replace-Back (codes "libxml_disable_entity_loader")
        (if php.has_xml then s else record s { messages = s.messages ++ no_xml ∷ [] })
        (elim (Bool-cases php.has_xml) [
          | inl e ↦ rw e b
          | inr e ↦ rw e (record { back = b.back; handlers = b.handlers })
        ]))

  wrappers-Back : (s : Hooked) → Back s → Back (hook_stream_wrappers php at s)
  unfolding hook_stream_wrappers
  wrappers-Back s b =
      replace-Back (codes "stream_wrapper_restore") _
        (replace-Back (codes "stream_wrapper_register") s b)

  hook_features-Back : (g : SpGlobals) (s : Hooked) → Back s → Back (hook_features php at g s)
  unfolding hook_features hook_cookies
  hook_features-Back g s b = replace-Back (codes "setcookie") _ (
      when-Back (signs php at g) (serialize php at) _ serialize-Back (
        when-Back g.wrapper.enabled (hook_stream_wrappers php at) _ wrappers-Back (
          when-Back g.xxe_protection_enable (hook_libxml_disable_entity_loader php at) _ libxml-Back
            (when-Back g.random_enable (rand php at) _ rand-Back
              (when-Back g.sloppy_enable (sloppy php at) s sloppy-Back b)))))

  move-Back :
      (key : Bytes) (value : List SpDisabledFunction) (moves : Bool) (s : Hooked) (m : Moving)
      → Back s
      → Back (move php at key value moves s m).state
  unfolding move
  move-Back key value true s m b = b
  move-Back key value false s m b = b

  hook_functions-Back :
      (ht : DisabledTable) (m : Moving) → Back m.state → Back (hook_functions php at ht m).state
  unfolding hook_functions hook_entry
  hook_functions-Back [] m b = b
  hook_functions-Back ((key, value) ∷ ht) m b =
      let hook = hook_function php.multibyte (c_string key) at.check_disabled_function m.state in
      hook_functions-Back ht (hook_entry php at key value m) (
        move-Back key value (hook.1 || builtin_first php at value) hook.0 m (
          hook_function-LeadsBack at.check_disabled_function set.check_disabled_function functions
            php.multibyte (c_string key) m.state b))

  hook_rule-Back :
      (name : Option Bytes) (rx : Option SpRegexp) (s : Hooked)
      → Back s
      → Back (hook_rule php at name rx s)
  unfolding hook_rule
  hook_rule-Back none none s b = b
  hook_rule-Back none (some rx) s b =
      hook_regexp-LeadsBack at.check_disabled_function set.check_disabled_function functions
        php.multibyte (php.matching rx) s b
  hook_rule-Back (some name) rx s b =
      hook_function-LeadsBack at.check_disabled_function set.check_disabled_function functions
        php.multibyte (c_string name) s b

  hook_functions_regexp-Back :
      (config : List SpDisabledFunction) (s : Hooked)
      → Back s
      → Back (hook_functions_regexp php at config s)
  unfolding hook_functions_regexp
  hook_functions_regexp-Back [] s b = b
  hook_functions_regexp-Back (df ∷ config) s b =
      hook_functions_regexp-Back config (hook_rule php at df.function df.r_function s)
        (hook_rule-Back df.function df.r_function s b)

  hook_blacklist-Back :
      (list : List Bytes) (s : Hooked) → Back s → Back (hook_blacklist php at list s)
  unfolding hook_blacklist
  hook_blacklist-Back [] s b = b
  hook_blacklist-Back (it ∷ list) s b = hook_blacklist-Back list _ (
      hook_function-LeadsBack at.eval_blacklist_callback set.eval_blacklist_callback functions
        php.multibyte (c_string it) s b)

-- No hook is set, and every function has a handler.
pub record IsClean (t : HookTables) : Type 0 where
  pub internal : t.internal ≡ []
  pub disabled : t.disabled ≡ []
  pub eval : t.eval ≡ []
  pub handlers : HaveHandlers t.functions

empty_back : (s : Hooked) → s.saved ≡ [] → HaveHandlers s.functions → LeadsBack s.functions s
unfolding unhook_functions
empty_back s e h = record { back = ap (λ ht. unhook_functions ht s.functions) e; handlers = h }

module _ (php : Php) (at : Addresses) (set : AreSet at) (g : SpGlobals) where
  -- The hooks of the rules are undone by the two tables that they fill.
  hook_disabled_functions-back :
      (t : HookTables)
      → t.disabled ≡ []
      → t.eval ≡ []
      → HaveHandlers t.functions
      → unhook_functions (hook_disabled_functions php at g t).disabled (
          unhook_functions
            (hook_disabled_functions php at g t).eval
            (hook_disabled_functions php at g t).functions)
        ≡ t.functions
  unfolding hook_disabled_functions
  hook_disabled_functions-back t d e h =
      let start : Hooked = record {
        functions = t.functions;
        saved = t.disabled;
        messages = t.messages;
      } in
      let calls =
        hook_functions php at t.to_hook
          (record { state = start; to_hook = t.to_hook; hooked = t.hooked }) in
      let again : Moving = record {
        state = calls.state;
        to_hook = t.ret_to_hook;
        hooked = t.ret_hooked;
      } in
      let rules = hook_functions_regexp php at g.disabled_functions_reg_ret (
        hook_functions_regexp php at g.disabled_functions_reg
          (hook_functions php at t.ret_to_hook again).state) in
      let by_rule =
        hook_functions_regexp-Back php at set t.functions g.disabled_functions_reg_ret _ (
          hook_functions_regexp-Back php at set t.functions g.disabled_functions_reg _ (
            hook_functions-Back php at set t.functions t.ret_to_hook again (
              hook_functions-Back php at set t.functions t.to_hook
                (record { state = start; to_hook = t.to_hook; hooked = t.hooked })
                (empty_back start d h)))) in
      let evals =
        hook_blacklist-Back php at set rules.functions g.eval.blacklist
          (record { functions = rules.functions; saved = t.eval; messages = rules.messages })
          (empty_back
            (record { functions = rules.functions; saved = t.eval; messages = rules.messages }) e
            by_rule.handlers) in
      ap (unhook_functions rules.saved) evals.back ∙ by_rule.back

  -- If no hook is set at the start, every function has a handler and so have the extension's, then the
  -- removal of the hooks, as a reload of the configuration does it, gives back the functions as they
  -- were, whatever the configuration that had set the hooks.
  pub unhook_all-hook_all :
      (t : HookTables) → IsClean t → unhook_all (hook_all php at g t) ≡ t.functions
  unfolding hook_all unhook_all
  unhook_all-hook_all t clean =
      let start : Hooked = record {
        functions = t.functions;
        saved = t.internal;
        messages = t.messages;
      } in
      let features = hook_features php at g start in
      let back =
        hook_features-Back php at set t.functions g start
          (empty_back start clean.internal clean.handlers) in
      let next : HookTables = record t {
        functions = features.functions;
        internal = features.saved;
        messages = features.messages;
      } in
      ap (unhook_functions features.saved)
        (hook_disabled_functions-back next clean.disabled clean.eval back.handlers)
      ∙ back.back
