-- ===== src/Lifecycle/Admission.antt =====
-- The requests that src/snuffleupagus.c lets through, and how they start.
use snuffleupagus.Base.{
  ℕ, ◌≡◌, refl, ap, ◌∙◌, Bool, true, false, List, ◌∷◌, Option, none, some, Bytes, if◌then◌else◌,
}
use snuffleupagus.Crypt.{Crypto}
use snuffleupagus.Globals.{SpGlobals, Libs}
use snuffleupagus.Hooks.{Functions}
use snuffleupagus.Hooks.Features.{Addresses, Php}
use snuffleupagus.Hooks.Features.Reload.{AreSet}
use snuffleupagus.Hooks.Restore.{HaveHandlers}
use snuffleupagus.Lifecycle.{
  Process, Arrival, on_update_configuration, rinit, start_as, logged, zend_error_e, behind,
}
use snuffleupagus.Load.{Files, Validity, split_commas, parse_patterns}
use snuffleupagus.Load.Reload.{defaults, fresh, load_all, sp_load_config_refused}
use snuffleupagus.Log.{Level, LogType, sp_log_msgf}
use snuffleupagus.Match.{Texts}
use snuffleupagus.SpTree.{SpTree}

-- The counters of a request are reset.
abbrev pub reset : Arrival → Arrival
reset r = record r { execution_depth = 0; in_eval = 0 }

module _ (fatal : Level → Bool) (opens : Bytes → Bool) (texts : Texts) (lib : Crypto) where
  behind-none : (o : Option (Unit {0})) → behind fatal opens texts lib o none ≡ none
  behind-none none = refl
  behind-none (some u) = refl

  refused_if :
      (b : Bool) (p : Process) (r : Arrival)
      → fatal Level.error ≡ true
      → (if b
          then some (p, r)
          else logged fatal opens texts lib p Level.error
              (zend_error_e fatal opens texts lib (some (p, r))))
        ≡ (if b then some (p, r) else none)
  unfolding logged
  refused_if true p r f = refl
  refused_if false p r f =
      ap (λ t. logged fatal opens texts lib p Level.error (if t then none else some (p, r))) f
      ∙ behind-none
          (sp_log_msgf fatal opens
            (record { media = p.extension.globals.log_media; nonfatal = p.config_nonfatal })
            (record { feature = "config"; level = Level.error; kind = LogType.log })).1

  refused_as :
      (p : Process) (r : Arrival)
      → fatal Level.error ≡ true
      → start_as fatal opens texts lib Validity.invalid p r
        ≡ (if p.allow_broken_configuration then some (p, r) else none)
  unfolding start_as
  refused_as p r f = refused_if p.allow_broken_configuration p r f

  invalid_lem :
      (p : Process) (r : Arrival)
      → fatal Level.error ≡ true
      → p.extension.is_config_valid ≡ Validity.invalid
      → rinit fatal opens texts lib p r
        ≡ (if p.allow_broken_configuration then some (p, reset r) else none)
  unfolding rinit
  invalid_lem p r f e =
      ap (λ v. start_as fatal opens texts lib v p (reset r)) e ∙ refused_as p (reset r) f

  module _ (parse_var : Bytes → SpTree) (libs : Libs) (files : Files) (php : Php)
      (at : Addresses) where
    -- The process behind loads of the configurations that came before.
    abbrev pub before : Functions → SpGlobals → List Bytes → Bool → Bool → Process
    before functions g values allow nonfatal = record {
      extension =
          load_all parse_var libs files php at values
            (fresh parse_var libs files php at functions g);
      allow_broken_configuration = allow;
      config_nonfatal = nonfatal;
    }

    abbrev pub without_rules : Functions → SpGlobals → Bool → Process
    without_rules functions g allow = record {
      extension = record (fresh parse_var libs files php at functions g) {
        is_config_valid = Validity.invalid;
      };
      allow_broken_configuration = allow;
      config_nonfatal = false;
    }

    -- After a configuration that is refused, whatever was loaded before, every request is refused if
    -- an error of PHP ends it; where a broken configuration is allowed, every request goes on with no
    -- rule in force, and only its counters are changed.
    pub rinit-on_update_configuration :
        (functions : Functions)
        → AreSet at
        → HaveHandlers functions
        → fatal Level.error ≡ true
        → (values : List Bytes) (c : ℕ) (s : Bytes) (g : SpGlobals) (allow nonfatal : Bool)
          (r : Arrival)
        → (parse_patterns parse_var libs files php at (split_commas (c ∷ s)) (defaults g)).0 ≡ false
        → rinit fatal opens texts lib
            (on_update_configuration parse_var libs files php at
              (some (c ∷ s))
              (before functions g values allow nonfatal)).1
            r
          ≡ (if allow then some (without_rules functions g allow, reset r) else none)
    unfolding on_update_configuration
    rinit-on_update_configuration functions set handlers f values c s g allow nonfatal r h =
        ap
          (λ e.
            rinit fatal opens texts lib
              (record {
                extension = e;
                allow_broken_configuration = allow;
                config_nonfatal = false;
              })
              r)
          (sp_load_config_refused parse_var libs files php at set functions handlers values (c ∷ s)
            g h)
        ∙ invalid_lem (without_rules functions g allow) r f refl
