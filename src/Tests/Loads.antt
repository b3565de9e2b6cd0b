-- ===== src/Tests/Loads.antt =====
-- Loads of configurations.
use snuffleupagus.Base.{
  ◌≡◌, ◌≢◌, refl, arith, Bool, true, none, false, [], ◌∷◌, some, Bytes, codes, equals, pos,
  if◌then◌else◌,
}
use snuffleupagus.Frames.{FuncType}
use snuffleupagus.Hooks.{Fn, Functions}
use snuffleupagus.Ini.{find}
use snuffleupagus.Lifecycle.{Process, Arrival, rinit, on_update_configuration}
use snuffleupagus.Lifecycle.Admission.{before, rinit-on_update_configuration}
use snuffleupagus.Load.{
  Files, Validity, split_commas, parse_patterns, sp_parse_config, sp_load_config,
}
use snuffleupagus.Load.Reload.{
  defaults, fresh, load_all, sp_load_config-load_all, sp_load_config_refused,
}
use snuffleupagus.Log.{Level}
use snuffleupagus.Tests.Samples.{at, at-AreSet, php, libs, tree_of, start, texts}
use snuffleupagus.Tests.Secrets.{lib}
use snuffleupagus.Zval.{Items}

abbrev functions : Functions
functions = (codes "rand", record { type = FuncType.internal; handler = 7 }) ∷ []

functions_set : (name : Bytes) (f : Fn) → find name functions ≡ some f → f.handler ≢ 0
unfolding find
functions_set name f h = ground arith

-- `good` has no rules, and no other file has anything that is read.
abbrev files : Files
files = record {
  glob = λ s. some (s ∷ []);
  read = λ s. some (if equals s (codes "good") then codes "# no rules" else codes "?");
  behind = [];
  overrun = λ g. (false, g);
  atoi = λ s. pos 0;
  extension_loaded = λ s. false;
  version = codes "80300";
  dumps = false;
}

sp_load_config-load_all_example :
    sp_load_config tree_of libs files php at (codes "good") (
      load_all tree_of libs files php at
        (codes "bad" ∷ codes "good" ∷ [])
        (fresh tree_of libs files php at functions start))
    ≡ sp_load_config tree_of libs files php at
        (codes "good")
        (fresh tree_of libs files php at functions start)
sp_load_config-load_all_example =
    sp_load_config-load_all tree_of libs files php at at-AreSet functions functions_set
      (codes "bad" ∷ codes "good" ∷ []) (codes "good") start

refused :
    (parse_patterns tree_of libs files php at (split_commas (codes "good,bad")) (defaults start)).0
    ≡ false
unfolding parse_patterns sp_parse_config split_commas equals
refused = refl

sp_load_config_refused_example :
    sp_load_config tree_of libs files php at (codes "good,bad") (
      load_all tree_of libs files php at
        (codes "good" ∷ [])
        (fresh tree_of libs files php at functions start))
    ≡ record (fresh tree_of libs files php at functions start) {
      is_config_valid = Validity.invalid;
    }
sp_load_config_refused_example =
    sp_load_config_refused tree_of libs files php at at-AreSet functions functions_set
      (codes "good" ∷ []) (codes "good,bad") start refused

-- `zend_error` ends a request at the level of an error.
abbrev fatal : Level → Bool
fatal Level.error = true
fatal _ = false

abbrev arrival : Arrival
arrival = record { execution_depth = 4; in_eval = 1; wrappers = []; cookies = Items.nil }

rinit-on_update_configuration_example :
    rinit fatal
      (λ s. true)
      texts
      lib
      (on_update_configuration tree_of libs files php at (some (codes "good,bad")) (
        before fatal
          (λ s. true)
          texts
          lib
          tree_of
          libs
          files
          php
          at
          functions
          start
          (codes "good" ∷ [])
          false
          true)).1
      arrival
    ≡ none
rinit-on_update_configuration_example =
    rinit-on_update_configuration fatal (λ s. true) texts lib tree_of libs files php at functions
      at-AreSet functions_set refl (codes "good" ∷ []) b'g' (codes "ood,bad") start false true
      arrival refused

-- One wrapper that the configuration has not listed.
abbrev running : Process
running = record {
  extension = record (fresh tree_of libs files php at functions start) {
    globals = record start {
      wrapper = record {
        whitelist = codes "file" ∷ [];
        php_stream_allowlist = [];
        enabled = true;
        num_wrapper = 1;
      };
      cookies = [];
    };
    is_config_valid = Validity.valid;
  };
  allow_broken_configuration = false;
  config_nonfatal = false;
}
