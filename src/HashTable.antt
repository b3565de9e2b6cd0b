-- ===== src/HashTable.antt =====
-- PHP's hash tables with string keys, as the source uses them: an association list in the order of
-- insertion, without the numeric keys.
use snuffleupagus.Base.{
  ◌≡◌, refl, ap, arith, false, List, [], ◌∷◌, ◌++◌, Option, none, some, Bytes, equals, equals_iff,
  equals_refl, is_set, if◌then◌else◌, Bool-cases, inl, inr,
}
use snuffleupagus.Ini.{find}

module _ {ℓ} {V : Type ℓ} where
  -- `zend_hash_add` and `zend_hash_str_add_new_ptr`; `none` is the NULL of a key that is there.
  unfoldable pub zend_hash_add : Bytes → V → List (Bytes × V) → Option (List (Bytes × V))
  zend_hash_add key v ht = if is_set (find key ht) then none else some (ht ++ (key, v) ∷ [])

  -- A write through the pointer that `zend_hash_find_ptr` gives.
  unfoldable pub put : Bytes → V → List (Bytes × V) → List (Bytes × V)
  put key v [] = []
  put key v ((k, w) ∷ ht) = if equals k key then (k, v) ∷ ht else (k, w) ∷ put key v ht

  unfoldable pub keys : List (Bytes × V) → List Bytes
  keys [] = []
  keys ((k, _) ∷ ht) = k ∷ keys ht

  -- `zend_hash_del`.
  unfoldable pub zend_hash_del : Bytes → List (Bytes × V) → List (Bytes × V)
  zend_hash_del key [] = []
  zend_hash_del key ((k, v) ∷ ht) = if equals k key then ht else (k, v) ∷ zend_hash_del key ht

  -- A key stands in the table once.
  abbrev pub IsHash : List (Bytes × V) → Type 0
  IsHash [] = Unit
  IsHash ((k, _) ∷ ht) = (is_set (find k ht) ≡ false) × IsHash ht

  pub find-put :
      (key j : Bytes) (v : V) (ht : List (Bytes × V))
      → find j (put key v ht)
        ≡ (if equals key j then (if is_set (find key ht) then some v else none) else find j ht)
  unfolding find put
  find-put key j v [] = ground arith
  find-put key j v ((k, w) ∷ ht) = ground (
    arith,
    find-put key j v ht,
    equals_iff k key,
    equals_iff k j,
    equals_iff key j,
    equals_refl key,
  )

  -- Two writes at a key are the later one, and writing what is there changes nothing.
  pub put-put :
      (key : Bytes) (v w : V) (ht : List (Bytes × V)) → put key v (put key w ht) ≡ put key v ht
  unfolding put
  put-put key v w [] = refl
  put-put key v w ((k, u) ∷ ht) = elim (Bool-cases (equals k key)) [
    | inl e ↦ rw (e, put) (rw e)
    | inr e ↦ rw (e, put) (rw e (ap (◌∷◌ (k, u)) (put-put key v w ht)))
  ]

  pub put-find :
      (key : Bytes) (v : V) (ht : List (Bytes × V)) → find key ht ≡ some v → put key v ht ≡ ht
  unfolding find put
  put-find key v [] h = refl
  put-find key v ((k, u) ∷ ht) h = ground (arith, put-find key v ht)

  pub keys-put : (key : Bytes) (v : V) (ht : List (Bytes × V)) → keys (put key v ht) ≡ keys ht
  unfolding keys put
  keys-put key v [] = refl
  keys-put key v ((k, u) ∷ ht) = ground (arith, keys-put key v ht)

  pub find-append :
      (j : Bytes) (xs ys : List (Bytes × V))
      → find j (xs ++ ys) ≡ (if is_set (find j xs) then find j xs else find j ys)
  unfolding find
  find-append j [] ys = refl
  find-append j ((k, v) ∷ xs) ys = ground (arith, find-append j xs ys)
