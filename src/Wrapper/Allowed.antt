-- ===== src/Wrapper/Allowed.antt =====
-- The streams that can be opened, and the wrappers that are left.
pub mod Kinds
use snuffleupagus.Base.{
  ◌≡◌, refl, sym, ap, ◌↔◌, ◌⊎◌, inl, inr, arith, true, false, List, [], ◌∷◌, Option, none, some,
  Bytes, equals_iff, length, is_set, if◌then◌else◌, Bool-cases,
}
use snuffleupagus.Globals.{ConfigWrapper}
use snuffleupagus.HashTable.{zend_hash_add, find-append}
use snuffleupagus.Ini.{find}
use mathlib.Core.Path.{subst}
use snuffleupagus.Wrapper.{
  StreamWrapper, Wrappers, in_list_ci, wrapper_is_whitelisted, sp_php_stream_is_filtered,
  sp_php_stream_is_whitelisted, StreamKind, kind_name, kind_of, strip_scheme, open_kind,
  sp_php_stream_url_wrap_php, add_whitelisted, sp_disable_wrapper,
}
use snuffleupagus.Wrapper.Allowed.Kinds.{lower, equals_ci-lower, Spelled, kind_of-Spelled}

-- The name is on the list, in some case of its letters.
abbrev pub Listed : Bytes → List Bytes → Type 0
Listed name [] = ⊥
Listed name (it ∷ list) = (lower name ≡ lower it) ⊎ Listed name list

in_list_ci-Listed :
    (name : Bytes) (list : List Bytes) → (in_list_ci name list ≡ true) ↔ Listed name list
unfolding in_list_ci
in_list_ci-Listed name [] = ground arith
in_list_ci-Listed name (it ∷ list) = ground (
  arith,
  equals_ci-lower name it,
  equals_iff (lower name) (lower it),
  in_list_ci-Listed name list,
)

-- What PHP's opener may be called with: any path if no kinds are listed, and otherwise the path
-- behind the scheme if it spells a kind that is listed.
abbrev pub MayOpen : List Bytes → Bytes → Bytes → Type 0
MayOpen [] path opened = path ≡ opened
MayOpen (it ∷ list) path opened =
    (kind : StreamKind) × Spelled kind (lower (strip_scheme path))
    × Listed (kind_name kind) (it ∷ list)
    × (strip_scheme path ≡ opened)

abbrev Opens : ConfigWrapper → Bytes → Bytes → Option StreamKind → Type 0
Opens cfg path opened o =
    (kind : StreamKind) × (o ≡ some kind)
    × Listed (kind_name kind) cfg.php_stream_allowlist
    × (path ≡ opened)

open_kind-Opens :
    (cfg : ConfigWrapper) (path opened : Bytes) (o : Option StreamKind)
    → ((open_kind cfg path o).1 ≡ some (some opened)) ↔ Opens cfg path opened o
unfolding sp_php_stream_is_whitelisted
open_kind-Opens cfg path opened none = (λ h. cc h, λ (k, e, _, _). cc e)
open_kind-Opens cfg path opened (some kind) =
    let test = sp_php_stream_is_whitelisted cfg (kind_name kind) in
    elim (Bool-cases test) [
      | inl e ↦ rw e (
        λ h. (kind, refl, (in_list_ci-Listed _ cfg.php_stream_allowlist).0 e, cc h),
        λ (k, same, l, p). ap (λ x. some (some x)) p,
      )
      | inr e ↦ rw e (
        λ h. cc h,
        λ (k, same, l, p).
            cc (e, same, (in_list_ci-Listed (kind_name k) cfg.php_stream_allowlist).1 l),
      )
    ]

open_kind-MayOpen :
    (cfg : ConfigWrapper) (it : Bytes) (list : List Bytes) (path opened : Bytes)
    → cfg.php_stream_allowlist ≡ it ∷ list
    → ((open_kind cfg (strip_scheme path) (kind_of (strip_scheme path))).1 ≡ some (some opened))
      ↔ MayOpen (it ∷ list) path opened
open_kind-MayOpen cfg it list path opened e =
    let stripped = strip_scheme path in
    let opens = open_kind-Opens cfg stripped opened (kind_of stripped) in
    (
      λ h.
          let (kind, k, l, p) = opens.0 h in
          (kind, (kind_of-Spelled stripped kind).0 k, subst (Listed (kind_name kind)) e l, p),
      λ (kind, s, l, p).
          opens.1 (
            kind,
            (kind_of-Spelled stripped kind).1 s,
            subst (Listed (kind_name kind)) (sym e) l,
            p,
          ),
    )

is_filtered_nil :
    (cfg : ConfigWrapper) → cfg.php_stream_allowlist ≡ [] → sp_php_stream_is_filtered cfg ≡ false
unfolding sp_php_stream_is_filtered
is_filtered_nil cfg e = rw (e, sp_php_stream_is_filtered)

is_filtered_cons :
    (cfg : ConfigWrapper) (it : Bytes) (list : List Bytes)
    → cfg.php_stream_allowlist ≡ it ∷ list
    → sp_php_stream_is_filtered cfg ≡ true
unfolding sp_php_stream_is_filtered
is_filtered_cons cfg it list e = rw (e, sp_php_stream_is_filtered)

filtered_opens :
    (cfg : ConfigWrapper) (list : List Bytes) (path opened : Bytes)
    → cfg.php_stream_allowlist ≡ list
    → ((sp_php_stream_url_wrap_php cfg path).1 ≡ some (some opened)) ↔ MayOpen list path opened
unfolding sp_php_stream_url_wrap_php
filtered_opens cfg [] path opened e =
    rw (is_filtered_nil cfg e) ((λ h. cc h), λ h. ap (λ x. some (some x)) h)
filtered_opens cfg (it ∷ list) path opened e =
    rw (is_filtered_cons cfg it list e) (open_kind-MayOpen cfg it list path opened e)

-- PHP's opener is called exactly with what the configuration allows: with any path if it lists no
-- kinds of stream, and otherwise with the path behind `php://` if this spells, in any case of its
-- letters, a kind that is listed.
pub sp_php_stream_url_wrap_php-MayOpen :
    (cfg : ConfigWrapper) (path opened : Bytes)
    → ((sp_php_stream_url_wrap_php cfg path).1 ≡ some (some opened))
      ↔ MayOpen cfg.php_stream_allowlist path opened
sp_php_stream_url_wrap_php-MayOpen cfg path opened =
    filtered_opens cfg cfg.php_stream_allowlist path opened refl

find-add_whitelisted :
    (cfg : ConfigWrapper) (name : Bytes) (wrappers orig : Wrappers)
    → find name (add_whitelisted cfg wrappers orig) ≡ (
        if is_set (find name orig)
        then find name orig
        else if in_list_ci name cfg.whitelist
        then find name wrappers
        else none)
unfolding add_whitelisted find zend_hash_add wrapper_is_whitelisted
find-add_whitelisted cfg name [] orig = ground arith
find-add_whitelisted cfg name ((zs, zv) ∷ wrappers) orig =
    let next =
      if wrapper_is_whitelisted cfg (some zs)
      then (elim (zend_hash_add zs zv orig) [ none ↦ orig | some orig' ↦ orig' ])
      else orig in
    ground (
      arith,
      find-add_whitelisted cfg name wrappers next,
      find-append name orig ((zs, zv) ∷ []),
      equals_iff zs name,
    )

-- The wrappers that are left are those that were there and are on the whitelist, in any case of their
-- letters, and their number is kept.
pub sp_disable_wrapper-Listed :
    (cfg : ConfigWrapper) (wrappers : Wrappers) (name : Bytes) (w : StreamWrapper)
    → ((find name (sp_disable_wrapper cfg wrappers).1 ≡ some w)
        ↔ (Listed name cfg.whitelist × (find name wrappers ≡ some w)))
      × ((sp_disable_wrapper cfg wrappers).0.num_wrapper
          ≡ length (sp_disable_wrapper cfg wrappers).1)
unfolding sp_disable_wrapper find
sp_disable_wrapper-Listed cfg wrappers name w = (
  ground (arith, find-add_whitelisted cfg name wrappers [], in_list_ci-Listed name cfg.whitelist),
  refl,
)
