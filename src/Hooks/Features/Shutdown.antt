-- ===== src/Hooks/Features/Shutdown.antt =====
-- PHP_MSHUTDOWN_FUNCTION of src/snuffleupagus.c: the hooks on functions at the end of the process.
use snuffleupagus.Base.{
  ℕ, ◌≡◌, ◌≢◌, ◌⊎◌, refl, ◌∙◌, arith, false, true, [], ◌∷◌, none, some, Bytes, ◌==◌, inl, inr,
  equals, equals_iff, equals_refl, Option-cases,
}
use snuffleupagus.HashTable.{find-put}
use snuffleupagus.Hooks.{Fn, Functions, Saved, unhook_functions, restore, is_internal}
use snuffleupagus.Hooks.Features.{HookTables, unhook_all, unhook_shutdown}
use snuffleupagus.Ini.{find}

restore-handler :
    (name : Bytes) (f : Fn) (orig : ℕ) (fs : Functions)
    → find name fs ≡ some f
    → is_internal f.type ≡ true
    → orig ≢ 0
    → find name (restore name orig fs) ≡ some (record f { handler = orig })
unfolding restore
restore-handler name f orig fs found internal o =
    let set : (orig == 0) ≡ false = ground arith in
    rw (found, internal, set)
      (rw (find-put name name (record f { handler = orig }) fs, equals_refl name, found) refl)

-- The entry of a name in a table without repeated names.
abbrev pub Entry : Bytes → ℕ → Saved → Type 0
Entry name orig [] = ⊥
Entry name orig ((k, v) ∷ ht) =
    ((k ≡ name) × (v ≡ orig) × (find name ht ≡ none))
    ⊎ ((equals k name ≡ false) × Entry name orig ht)

restore-other :
    (name k : Bytes) (orig : ℕ) (fs : Functions)
    → equals k name ≡ false
    → find name (restore k orig fs) ≡ find name fs
unfolding restore
restore-other name k orig fs other = elim (Option-cases (find k fs)) [
  | inl missing ↦ rw missing
  | inr (f, found) ↦ ground (arith, found, other, find-put k name (record f { handler = orig }) fs)
]

find-split :
    (name k : Bytes) (v : ℕ) (ht : Saved)
    → find name ((k, v) ∷ ht) ≡ none
    → (equals k name ≡ false) × (find name ht ≡ none)
unfolding find
find-split name k v ht h = (ground (arith, equals_iff k name), ground (arith, equals_iff k name))

unhook_none :
    (name : Bytes) (ht : Saved) (fs : Functions)
    → find name ht ≡ none
    → find name (unhook_functions ht fs) ≡ find name fs
unfolding unhook_functions
unhook_none name [] fs h = refl
unhook_none name ((k, v) ∷ ht) fs h =
    let (other, rest) = find-split name k v ht h in
    restore-other name k v (unhook_functions ht fs) other ∙ unhook_none name ht fs rest

unhook_one :
    (name : Bytes) (f : Fn) (orig : ℕ) (ht : Saved) (fs : Functions)
    → Entry name orig ht
    → find name fs ≡ some f
    → is_internal f.type ≡ true
    → orig ≢ 0
    → find name (unhook_functions ht fs) ≡ some (record f { handler = orig })
unfolding unhook_functions
unhook_one name f orig [] fs e found internal o = elim e [ ]
unhook_one name f orig ((k, v) ∷ ht) fs (inl (n, w, last)) found internal o =
    rw (n, w)
      (restore-handler name f orig (unhook_functions ht fs) (unhook_none name ht fs last ∙ found)
        internal o)
unhook_one name f orig ((k, v) ∷ ht) fs (inr (other, e)) found internal o =
    restore-other name k v (unhook_functions ht fs) other
    ∙ unhook_one name f orig ht fs e found internal o

-- A function that two tables have hooked, first the internal one and then that of the rules, and that
-- is not on the blacklist of eval, is left by the order of PHP_MSHUTDOWN_FUNCTION with the handler that
-- the first hook had set, the extension's. The order of a reload gives back the first handler.
pub unhook_shutdown_stale :
    (t : HookTables) (name : Bytes) (f : Fn) (orig first : ℕ)
    → orig ≢ 0
    → first ≢ 0
    → find name t.functions ≡ some f
    → is_internal f.type ≡ true
    → Entry name orig t.internal
    → Entry name first t.disabled
    → find name t.eval ≡ none
    → (find name (unhook_shutdown t) ≡ some (record f { handler = first }))
      × (find name (unhook_all t) ≡ some (record f { handler = orig }))
unfolding unhook_all unhook_shutdown
unhook_shutdown_stale t name f orig first o n found internal i d e =
    let inner = unhook_functions t.internal t.functions in
    let at_orig = unhook_one name f orig t.internal t.functions i found internal o in
    let left = unhook_functions t.eval t.functions in
    let at_first =
      unhook_one name f first t.disabled left d (unhook_none name t.eval t.functions e ∙ found)
        internal n in
    (
      unhook_none name t.eval (unhook_functions t.disabled inner) e
          ∙ unhook_one name (record f { handler = orig }) first t.disabled inner d at_orig internal
              n,
      unhook_one name (record f { handler = first }) orig t.internal
          (unhook_functions t.disabled left) i at_first internal o,
    )
