-- ===== src/Lifecycle.antt =====
-- src/snuffleupagus.c: the setting `sp.configuration_file`, and the start of a request. The messages
-- are left out, and with them the variables that say where an error is.
pub mod Admission
use snuffleupagus.Base.{
  ℕ, Bool, true, false, not, ◌&&◌, List, [], ◌∷◌, Option, none, some, Bytes, length, ◌==◌, is_set,
  if◌then◌else◌,
}
use snuffleupagus.Config.{ZendResult}
use snuffleupagus.Cookies.{Kept, kept, removed, decrypt_cookie}
use snuffleupagus.Crypt.{Crypto, KeyConfig}
use snuffleupagus.Globals.{SpGlobals, Libs}
use snuffleupagus.Hooks.Features.{Addresses, Php}
use snuffleupagus.Load.{Extension, Files, Validity, sp_load_config}
use snuffleupagus.Log.{Level, LogType, Message, sp_log_msgf}
use snuffleupagus.Match.{Texts}
use snuffleupagus.SpTree.{SpTree}
use snuffleupagus.Wrapper.{Wrappers, sp_disable_wrapper}
use snuffleupagus.Zval.{Key, Zval, Items}

pub record Process : Type 0 where
  pub extension : Extension
  pub allow_broken_configuration : Bool
  pub config_nonfatal : Bool

-- What a request has: the counters, PHP's table of wrappers, and the cookies.
pub record Arrival : Type 0 where
  pub execution_depth : ℕ
  pub in_eval : ℕ
  pub wrappers : Wrappers
  pub cookies : Items

abbrev pub result_of : Validity → ZendResult
result_of Validity.valid = ZendResult.succeeded
result_of _ = ZendResult.failed

module _ (parse_var : Bytes → SpTree) (libs : Libs) (files : Files) (php : Php)
    (at : Addresses) where
  -- `config_nonfatal` is set for the time of the load.
  unfoldable pub on_update_configuration : Option Bytes → Process → ZendResult × Process
  unfolding sp_load_config
  on_update_configuration none p = (ZendResult.failed, p)
  on_update_configuration (some []) p = (ZendResult.failed, p)
  on_update_configuration (some (c ∷ s)) p =
      let e = sp_load_config parse_var libs files php at (c ∷ s) p.extension in
      (result_of e.is_config_valid, record p { extension = e; config_nonfatal = false })

-- `fatal` says whether `zend_error` at a level ends the request, which is `none`.
module _ (fatal : Level → Bool) (opens : Bytes → Bool) (texts : Texts) (lib : Crypto) where
  abbrev pub Start : Type 0
  Start = Option (Process × Arrival)

  abbrev pub behind : Option (Unit {0}) → Start → Start
  behind none r = none
  behind (some _) r = r

  -- A message of the start, and what follows.
  unfoldable pub logged : Process → Level → Start → Start
  unfolding sp_log_msgf
  logged p level next =
      behind
        (sp_log_msgf fatal opens
          (record { media = p.extension.globals.log_media; nonfatal = p.config_nonfatal })
          (record { feature = "config"; level = level; kind = LogType.log })).1
        next

  abbrev pub zend_error_e : Start → Start
  zend_error_e next = if fatal Level.error then none else next

  abbrev pub put : Key → Kept → Items → Items
  put k (kept v) rest = Items.item k v rest
  put k removed rest = rest

  -- `zend_hash_apply_with_arguments` over the cookies.
  unfoldable pub decrypt_all : SpGlobals → Items → Option Items
  unfolding decrypt_cookie
  decrypt_all g Items.nil = some Items.nil
  decrypt_all g (Items.item k v rest) =
      let others = decrypt_all g rest in
      elim (decrypt_cookie texts lib
        (record { cookies_env_var = g.cookies_env_var; encryption_key = g.encryption_key })
        g.cookies k v).1 [
          | none ↦ none
          | some r ↦ elim others [ none ↦ none | some items ↦ some (put k r items) ]
        ]

  abbrev pub with_cookies : Process → Arrival → Option Items → Start
  with_cookies p r none = none
  with_cookies p r (some items) = some (p, record r { cookies = items })

  abbrev pub has_cookies : SpGlobals → Bool
  has_cookies g = is_set g.encryption_key && (elim g.cookies [ [] ↦ false | _ ∷ _ ↦ true ])

  unfoldable pub start_cookies : Process → Arrival → Start
  unfolding decrypt_all
  start_cookies p r =
      if has_cookies p.extension.globals
      then with_cookies p r (decrypt_all p.extension.globals r.cookies)
      else some (p, r)

  -- The wrappers of PHP's table that are not listed are disabled, if their number has changed.
  abbrev pub disabled_wrappers : Process → Arrival → Process × Arrival
  unfolding sp_disable_wrapper
  disabled_wrappers p r =
      let out = sp_disable_wrapper p.extension.globals.wrapper r.wrappers in
      (
        record p {
          extension = record p.extension {
            globals = record p.extension.globals { wrapper = out.0 };
          };
        },
        record r { wrappers = out.1 },
      )

  unfoldable pub start_wrappers : Process → Arrival → Process × Arrival
  unfolding disabled_wrappers
  start_wrappers p r =
      let cfg = p.extension.globals.wrapper in
      if cfg.enabled && not (length r.wrappers == cfg.num_wrapper)
      then disabled_wrappers p r
      else (p, r)

  abbrev pub then_cookies : Process × Arrival → Start
  unfolding start_cookies
  then_cookies (p, r) = start_cookies p r

  unfoldable pub start_as : Validity → Process → Arrival → Start
  unfolding then_cookies start_wrappers
  start_as Validity.invalid p r =
      if p.allow_broken_configuration
      then some (p, r)
      else logged p Level.error (zend_error_e (some (p, r)))
  start_as Validity.none_loaded p r =
      if p.allow_broken_configuration
      then then_cookies (start_wrappers p r)
      else logged p Level.warning (some (p, r))
  start_as Validity.valid p r = then_cookies (start_wrappers p r)

  -- `PHP_RINIT_FUNCTION(snuffleupagus)`.
  unfoldable pub rinit : Process → Arrival → Start
  unfolding start_as
  rinit p r = start_as p.extension.is_config_valid p (record r { execution_depth = 0; in_eval = 0 })
