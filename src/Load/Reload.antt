-- ===== src/Load/Reload.antt =====
-- A load of a configuration does not depend on what was loaded before.
use mathlib.Core.Path.{subst}
use snuffleupagus.Base.{
  ◌≡◌, refl, sym, ap, ◌∙◌, Bool, true, false, List, [], ◌∷◌, Bytes, Bool-cases, inl, inr,
}
use snuffleupagus.Globals.{SpGlobals, Libs}
use snuffleupagus.Hooks.{Functions, unhook_functions}
use snuffleupagus.Hooks.Features.{Addresses, Php, unhook_all}
use snuffleupagus.Hooks.Features.Reload.{AreSet, unhook_all-hook_all}
use snuffleupagus.Hooks.Restore.{HaveHandlers}
use snuffleupagus.Load.{
  Extension, Files, Validity, sp_free_config, split_commas, parse_patterns, empty_tables,
  sp_config_failed, put_in_force, loaded, load_from, load_over, sp_load_config,
}
use snuffleupagus.SpTree.{SpTree}

-- The options with which the parsing starts.
abbrev pub defaults : SpGlobals → SpGlobals
defaults g =
    let cleared = sp_free_config g in
    record cleared { readonly_exec = record cleared.readonly_exec { extended_checks = true } }

module _ (parse_var : Bytes → SpTree) (libs : Libs) (files : Files) (php : Php)
    (at : Addresses) where
  -- The extension at the start of PHP: nothing is loaded, the options are at their defaults.
  abbrev pub fresh : Functions → SpGlobals → Extension
  fresh functions g = record {
    globals = sp_free_config g;
    is_config_valid = Validity.none_loaded;
    tables = empty_tables parse_var libs files php at functions (sp_free_config g);
    hook_execute = false;
  }

  -- The loads of several configurations, one behind the other.
  pub load_all : List Bytes → Extension → Extension
  load_all [] e = e
  load_all (value ∷ values) e = load_all values (sp_load_config parse_var libs files php at value e)

  module _ (set : AreSet at) (functions : Functions) (handlers : HaveHandlers functions) where
    -- Something was loaded, and its hooks lead back to the functions.
    record WasLoaded (e : Extension) : Type 0 where
      pub some_loaded :
          (value : Bytes)
          → sp_load_config parse_var libs files php at value e
            ≡ load_from parse_var libs files php at value
                (unhook_all e.tables)
                (sp_free_config e.globals)
      pub back : unhook_all e.tables ≡ functions

    empty_back :
        (g : SpGlobals)
        → unhook_all (empty_tables parse_var libs files php at functions g) ≡ functions
    unfolding unhook_all unhook_functions
    empty_back g = refl

    loaded-WasLoaded :
        (r : Bool × SpGlobals) → WasLoaded (loaded parse_var libs files php at functions r)
    unfolding loaded sp_config_failed put_in_force sp_load_config load_over
    loaded-WasLoaded (false, g) = record {
      some_loaded = λ value. refl;
      back = empty_back (sp_free_config g);
    }
    loaded-WasLoaded (true, g) = elim (Bool-cases files.dumps) [
      | inl e ↦ rw e (record { some_loaded = λ value. refl; back = empty_back g })
      | inr e ↦ rw e (record {
        some_loaded = λ value. refl;
        back =
            unhook_all-hook_all php at set g (empty_tables parse_var libs files php at functions g)
              (record { internal = refl; disabled = refl; eval = refl; handlers = handlers });
      })
    ]

    load_from-WasLoaded :
        (value : Bytes) (g : SpGlobals)
        → WasLoaded (load_from parse_var libs files php at value functions g)
    unfolding load_from
    load_from-WasLoaded value g = loaded-WasLoaded _

    -- What was loaded leaves no trace in the next load.
    sp_load_config-WasLoaded :
        (value : Bytes) (e : Extension) (g : SpGlobals)
        → WasLoaded e
        → sp_load_config parse_var libs files php at value e
          ≡ load_from parse_var libs files php at value functions (sp_free_config g)
    unfolding sp_free_config
    sp_load_config-WasLoaded value e g w =
        w.some_loaded value
        ∙ ap (λ fs. load_from parse_var libs files php at value fs (sp_free_config g)) w.back

    load_all-WasLoaded :
        (values : List Bytes) (value : Bytes) (e : Extension) (g : SpGlobals)
        → WasLoaded e
        → sp_load_config parse_var libs files php at value (load_all values e)
          ≡ load_from parse_var libs files php at value functions (sp_free_config g)
    unfolding load_all
    load_all-WasLoaded [] value e g w = sp_load_config-WasLoaded value e g w
    load_all-WasLoaded (v ∷ values) value e g w =
        load_all-WasLoaded values value (sp_load_config parse_var libs files php at v e) g (
          subst WasLoaded (sym (sp_load_config-WasLoaded v e g w))
            (load_from-WasLoaded v (sp_free_config g)))

    fresh_loads :
        (value : Bytes) (g : SpGlobals)
        → sp_load_config parse_var libs files php at value (fresh functions g)
          ≡ load_from parse_var libs files php at value functions (sp_free_config g)
    unfolding sp_load_config load_over
    fresh_loads value g = refl

    -- If every function of PHP has a handler and so have the extension's, the load of a configuration
    -- gives the same configuration, the same handlers of functions with the same tables of hooked
    -- functions, and the same `hook_execute`, whatever was loaded before it since the start,
    -- configurations that were refused included.
    pub sp_load_config-load_all :
        (values : List Bytes) (value : Bytes) (g : SpGlobals)
        → sp_load_config parse_var libs files php at value (load_all values (fresh functions g))
          ≡ sp_load_config parse_var libs files php at value (fresh functions g)
    unfolding load_all
    sp_load_config-load_all [] value g = refl
    sp_load_config-load_all (v ∷ values) value g =
        load_all-WasLoaded values value
          (sp_load_config parse_var libs files php at v (fresh functions g)) g
          (subst WasLoaded (sym (fresh_loads v g)) (load_from-WasLoaded v (sp_free_config g)))
        ∙ sym (fresh_loads value g)

    loaded_refused :
        (r : Bool × SpGlobals) (g : SpGlobals)
        → r.0 ≡ false
        → loaded parse_var libs files php at functions r
          ≡ record (fresh functions g) { is_config_valid = Validity.invalid }
    unfolding loaded sp_config_failed sp_free_config
    loaded_refused (false, h) g e = refl
    loaded_refused (true, h) g e = cc

    load_from_refused :
        (value : Bytes) (g : SpGlobals)
        → (parse_patterns parse_var libs files php at (split_commas value) (defaults g)).0 ≡ false
        → load_from parse_var libs files php at value functions (sp_free_config g)
          ≡ record (fresh functions g) { is_config_valid = Validity.invalid }
    unfolding load_from
    load_from_refused value g e = loaded_refused _ g e

    -- A configuration that is refused leaves no rule in force, every option at its default, and no hook
    -- on a function.
    pub sp_load_config_refused :
        (values : List Bytes) (value : Bytes) (g : SpGlobals)
        → (parse_patterns parse_var libs files php at (split_commas value) (defaults g)).0 ≡ false
        → sp_load_config parse_var libs files php at value (load_all values (fresh functions g))
          ≡ record (fresh functions g) { is_config_valid = Validity.invalid }
    sp_load_config_refused values value g h =
        sp_load_config-load_all values value g ∙ fresh_loads value g ∙ load_from_refused value g h
