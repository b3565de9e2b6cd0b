-- ===== src/Wrapper.antt =====
-- src/sp_wrapper.c: the whitelist of stream wrappers, and the filter of `php://` streams. PHP's table
-- of wrappers is an association list; the functions that change it for a name are parameters.
pub mod Allowed
use snuffleupagus.Base.{
  Bool, true, false, not, ◌&&◌, ◌||◌, List, [], ◌∷◌, ◌++◌, Option, none, some, Bytes, codes,
  c_string, drop, equals_ci, starts_with_ci, length, is_set, if◌then◌else◌, ℕ,
}
use snuffleupagus.Globals.{ConfigWrapper}
use snuffleupagus.HashTable.{zend_hash_add}
use snuffleupagus.Log.{Run, ◌>>=◌, ◌>>◌, pure, sp_log_warn}

-- A wrapper: that of the extension for `php://`, or one of PHP.
pub data StreamWrapper : Type 0 where
  sp_php_stream_php_wrapper : StreamWrapper
  original : ℕ → StreamWrapper

abbrev pub Wrappers : Type 0
Wrappers = List (Bytes × StreamWrapper)

-- The loops over the list.
unfoldable pub in_list_ci : Bytes → List Bytes → Bool
in_list_ci name [] = false
in_list_ci name (it ∷ list) = if equals_ci name it then true else in_list_ci name list

unfoldable pub wrapper_is_whitelisted : ConfigWrapper → Option Bytes → Bool
unfolding in_list_ci
wrapper_is_whitelisted cfg none = false
wrapper_is_whitelisted cfg (some zs) = in_list_ci zs cfg.whitelist

unfoldable pub sp_php_stream_is_filtered : ConfigWrapper → Bool
sp_php_stream_is_filtered cfg = elim cfg.php_stream_allowlist [ [] ↦ false | _ ∷ _ ↦ true ]

unfoldable pub sp_php_stream_is_whitelisted : ConfigWrapper → Bytes → Bool
unfolding in_list_ci
sp_php_stream_is_whitelisted cfg kind = in_list_ci kind cfg.php_stream_allowlist

-- The branches of the opener.
pub data StreamKind : Type 0 where
  temp memory output input stdin stdout stderr fd filter : StreamKind

abbrev pub kind_name : StreamKind → Bytes
kind_name StreamKind.temp = codes "temp"
kind_name StreamKind.memory = codes "memory"
kind_name StreamKind.output = codes "output"
kind_name StreamKind.input = codes "input"
kind_name StreamKind.stdin = codes "stdin"
kind_name StreamKind.stdout = codes "stdout"
kind_name StreamKind.stderr = codes "stderr"
kind_name StreamKind.fd = codes "fd"
kind_name StreamKind.filter = codes "filter"

-- The conditions of the branches in their order; `none` is the last one.
unfoldable pub kind_of : Bytes → Option StreamKind
kind_of path =
    if starts_with_ci (codes "temp") path
    then some StreamKind.temp
    else if equals_ci path (codes "memory")
    then some StreamKind.memory
    else if equals_ci path (codes "output")
    then some StreamKind.output
    else if equals_ci path (codes "input")
    then some StreamKind.input
    else if equals_ci path (codes "stdin")
    then some StreamKind.stdin
    else if equals_ci path (codes "stdout")
    then some StreamKind.stdout
    else if equals_ci path (codes "stderr")
    then some StreamKind.stderr
    else if starts_with_ci (codes "fd/") path
    then some StreamKind.fd
    else if starts_with_ci (codes "filter/") path
    then some StreamKind.filter
    else none

abbrev pub strip_scheme : Bytes → Bytes
strip_scheme path = if starts_with_ci (codes "php://") path then drop 6 path else path

abbrev not_allowed : Run (Option Bytes)
not_allowed = sp_log_warn "wrappers_whitelist" >> pure none

abbrev open_kind : ConfigWrapper → Bytes → Option StreamKind → Run (Option Bytes)
open_kind cfg path none = not_allowed
open_kind cfg path (some kind) =
    if sp_php_stream_is_whitelisted cfg (kind_name kind) then pure (some path) else not_allowed

-- The path with which PHP's opener is called, or NULL.
unfoldable pub sp_php_stream_url_wrap_php : ConfigWrapper → Bytes → Run (Option Bytes)
unfolding sp_php_stream_is_filtered sp_php_stream_is_whitelisted kind_of
sp_php_stream_url_wrap_php cfg path =
    if not (sp_php_stream_is_filtered cfg)
    then pure (some path)
    else open_kind cfg (strip_scheme path) (kind_of (strip_scheme path))

-- The loop of `sp_disable_wrapper` over the copy; the table was cleaned before.
unfoldable pub add_whitelisted : ConfigWrapper → Wrappers → Wrappers → Wrappers
unfolding zend_hash_add wrapper_is_whitelisted
add_whitelisted cfg [] orig = orig
add_whitelisted cfg ((zs, zv) ∷ orig_complete) orig = add_whitelisted cfg orig_complete (
    if wrapper_is_whitelisted cfg (some zs)
    then (elim (zend_hash_add zs zv orig) [ none ↦ orig | some orig' ↦ orig' ])
    else orig)

unfoldable pub sp_disable_wrapper : ConfigWrapper → Wrappers → ConfigWrapper × Wrappers
unfolding add_whitelisted
sp_disable_wrapper cfg wrappers =
    let orig = add_whitelisted cfg wrappers [] in (record cfg { num_wrapper = length orig }, orig)

-- `php_unregister_url_stream_wrapper` and `php_register_url_stream_wrapper`; `none` is FAILURE.
pub record StreamApi : Type 0 where
  pub unregister : Bytes → Wrappers → Option Wrappers
  pub register : Bytes → StreamWrapper → Wrappers → Option Wrappers

module _ (api : StreamApi) where
  abbrev registered : Wrappers → Option Wrappers → Run Wrappers
  registered before none = sp_log_warn "wrappers_whitelist" >> pure before
  registered before (some wrappers) = pure wrappers

  abbrev unregistered : Wrappers → Option Wrappers → Run Wrappers
  unregistered before none = sp_log_warn "wrappers_whitelist" >> pure before
  unregistered before (some wrappers) =
      registered wrappers
        (api.register (codes "php") StreamWrapper.sp_php_stream_php_wrapper wrappers)

  unfoldable pub sp_reregister_php_wrapper : ConfigWrapper → Wrappers → Run Wrappers
  unfolding sp_php_stream_is_filtered
  sp_reregister_php_wrapper cfg wrappers =
      if not (sp_php_stream_is_filtered cfg)
      then pure wrappers
      else unregistered wrappers (api.unregister (codes "php") wrappers)

  -- `strcasecmp` ends at a NUL.
  abbrev is_php : Option Bytes → Bool
  unfolding c_string
  is_php none = false
  is_php (some name) = equals_ci (c_string name) (codes "php")

  -- `none` is a name that could not be parsed; `orig_handler` is the function of PHP.
  unfoldable pub sp_stream_wrapper_register :
      ConfigWrapper → (Wrappers → Wrappers) → Option Bytes → Wrappers → Wrappers
  unfolding wrapper_is_whitelisted sp_php_stream_is_filtered is_php
  sp_stream_wrapper_register cfg orig_handler protocol_name wrappers =
      if not (is_set protocol_name) || wrapper_is_whitelisted cfg protocol_name
      then (if is_php protocol_name && sp_php_stream_is_filtered cfg
          then wrappers
          else orig_handler wrappers)
      else wrappers

  unfoldable pub sp_stream_wrapper_restore :
      ConfigWrapper → (Wrappers → Wrappers) → Option Bytes → Wrappers → Run Wrappers
  unfolding sp_reregister_php_wrapper is_php
  sp_stream_wrapper_restore cfg orig_handler protocol_name wrappers =
      if is_php protocol_name
      then sp_reregister_php_wrapper cfg (orig_handler wrappers)
      else pure (orig_handler wrappers)
