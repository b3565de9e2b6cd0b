-- ===== src/Hooks/Restore.antt =====
-- What the removal of the hooks gives back.
use snuffleupagus.Base.{
  ◌≡◌, refl, ◌∙◌, ap, ◌≢◌, arith, ℕ, ◌==◌, Bool, true, not, ◌&&◌, List, [], ◌∷◌, ◌++◌, Option, none,
  some, Bytes, Bool-cases, inl, inr, is_set, codes, drop, equals_refl, starts_with,
}
use snuffleupagus.HashTable.{zend_hash_add, put, keys, find-put, put-put, put-find}
use snuffleupagus.Hooks.{
  Fn, Functions, Saved, Hooked, is_internal, with_saved, on_function, _hook_function, hook_function,
  hook_names, hook_regexp, restored, restore, unhook_functions,
}
use snuffleupagus.Ini.{find}

-- Every function has a handler.
abbrev pub HaveHandlers : Functions → Type 0
HaveHandlers functions = (name : Bytes) (f : Fn) → find name functions ≡ some f → f.handler ≢ 0

-- The state has the functions that its table of hooks leads back to.
pub record LeadsBack (functions : Functions) (s : Hooked) : Type 0 where
  pub back : unhook_functions s.saved s.functions ≡ functions
  pub handlers : HaveHandlers s.functions

unhook-append :
    (name : Bytes) (orig : ℕ) (ht : Saved) (functions : Functions)
    → unhook_functions (ht ++ (name, orig) ∷ []) functions
      ≡ unhook_functions ht (restore name orig functions)
unfolding unhook_functions
unhook-append name orig [] functions = refl
unhook-append name orig ((k, o) ∷ ht) functions =
    ap (restore k o) (unhook-append name orig ht functions)

-- A function that was hooked gets its handler back.
restore-put :
    (name : Bytes) (new : ℕ) (f : Fn) (functions : Functions)
    → find name functions ≡ some f
    → is_internal f.type ≡ true
    → f.handler ≢ 0
    → restore name f.handler (put name (record f { handler = new }) functions) ≡ functions
unfolding restore restored
restore-put name new f functions found internal h =
    rw (find-put name name (record f { handler = new }) functions, equals_refl name, found)
      (elim (Bool-cases (f.handler == 0)) [
        | inl z ↦ absurd (h (ground arith))
        | inr nz ↦
            rw (internal, nz)
              (put-put name f (record f { handler = new }) functions
                ∙ put-find name f functions found)
      ])

put-HaveHandlers :
    (name : Bytes) (f : Fn) (functions : Functions)
    → f.handler ≢ 0
    → HaveHandlers functions
    → HaveHandlers (put name f functions)
put-HaveHandlers name f functions h all j g e = ground (arith, find-put name j f functions, all j g)

module _ (new : ℕ) (set : new ≢ 0) (functions : Functions) where
  with_saved-LeadsBack :
      (name : Bytes) (s : Hooked) (f : Fn)
      → find name s.functions ≡ some f
      → is_internal f.type ≡ true
      → LeadsBack functions s
      → LeadsBack functions (with_saved name new s f (zend_hash_add name f.handler s.saved)).0
  unfolding zend_hash_add
  with_saved-LeadsBack name s f found internal b = elim (Bool-cases (is_set (find name s.saved))) [
    | inl old ↦ rw old (record { back = b.back; handlers = b.handlers })
    | inr fresh ↦ rw fresh (record {
      back =
          unhook-append name f.handler s.saved (put name (record f { handler = new }) s.functions)
          ∙ ap (unhook_functions s.saved)
              (restore-put name new f s.functions found internal (b.handlers name f found))
          ∙ b.back;
      handlers = put-HaveHandlers name (record f { handler = new }) s.functions set b.handlers;
    })
  ]

  on_function-LeadsBack :
      (name : Bytes) (s : Hooked) (o : Option Fn)
      → find name s.functions ≡ o
      → LeadsBack functions s
      → LeadsBack functions (on_function name new s o).0
  unfolding on_function
  on_function-LeadsBack name s none found b = b
  on_function-LeadsBack name s (some f) found b = elim (Bool-cases (is_internal f.type)) [
    | inr user ↦ rw user b
    | inl internal ↦ rw internal (elim (Bool-cases (f.handler == new)) [
      | inl same ↦ rw same b
      | inr other ↦ rw other (with_saved-LeadsBack name s f found internal b)
    ])
  ]

  pub _hook_function-LeadsBack :
      (name : Bytes) (s : Hooked)
      → LeadsBack functions s
      → LeadsBack functions (_hook_function name new s).0
  unfolding _hook_function
  _hook_function-LeadsBack name s b = on_function-LeadsBack name s (find name s.functions) refl b

  pub hook_function-LeadsBack :
      (multibyte : Bool) (name : Bytes) (s : Hooked)
      → LeadsBack functions s
      → LeadsBack functions (hook_function multibyte name new s).0
  unfolding hook_function
  hook_function-LeadsBack multibyte name s b =
      let once = _hook_function-LeadsBack name s b in
      elim (Bool-cases (not multibyte && starts_with (codes "mb_") name)) [
        | inl e ↦ rw e (_hook_function-LeadsBack (drop 3 name) (_hook_function name new s).0 once)
        | inr e ↦ rw e (elim (Bool-cases multibyte) [
          | inl m ↦
              rw m
                (_hook_function-LeadsBack (codes "mb_" ++ name) (_hook_function name new s).0 once)
          | inr m ↦ rw m once
        ])
      ]

  pub hook_names-LeadsBack :
      (multibyte : Bool) (matching : Bytes → Bool) (names : List Bytes) (s : Hooked)
      → LeadsBack functions s
      → LeadsBack functions (hook_names multibyte matching new names s)
  unfolding hook_names
  hook_names-LeadsBack multibyte matching [] s b = b
  hook_names-LeadsBack multibyte matching (key ∷ names) s b = elim (Bool-cases (matching key)) [
    | inl e ↦ rw e (
        hook_names-LeadsBack multibyte matching names (hook_function multibyte key new s).0
          (hook_function-LeadsBack multibyte key s b))
    | inr e ↦ rw e (hook_names-LeadsBack multibyte matching names s b)
  ]

  -- Hooks set by a regular expression lead back to the same functions as before.
  pub hook_regexp-LeadsBack :
      (multibyte : Bool) (matching : Bytes → Bool) (s : Hooked)
      → LeadsBack functions s
      → LeadsBack functions (hook_regexp multibyte matching new s)
  unfolding hook_regexp
  hook_regexp-LeadsBack multibyte matching s b =
      hook_names-LeadsBack multibyte matching (keys s.functions) s b
