-- ===== src/SpList/Sort.antt =====
-- `sp_list_sort` sorts, and keeps the order of nodes that compare as equal.
use mathlib.Core.List.{append-nil, append_assoc}
use snuffleupagus.Base.{
  Bool, true, false, not, ◌&&◌, List, [], ◌∷◌, ◌++◌, ◌≡◌, refl, sym, ap, ◌∙◌, inl, inr, arith,
  if◌then◌else◌, Bool-cases, All,
}
use snuffleupagus.SpList.{insert_after, insert_node, sort_from, sp_list_sort}

-- What the sort asks of a comparison.
pub record IsWeakOrder {ℓ} {A : Type ℓ} (lt : A → A → Bool) : Type ℓ where
  pub asymm : (x y : A) → lt x y ≡ true → lt y x ≡ false
  pub neg_trans : (x y z : A) → lt x y ≡ false → lt y z ≡ false → lt x z ≡ false

module _ {ℓ} {A : Type ℓ} (lt : A → A → Bool) where
  -- No later item is below an earlier one.
  abbrev pub IsSorted : List A → Type 0
  IsSorted [] = Unit
  IsSorted (x ∷ xs) = All (λ y. lt y x ≡ false) xs × IsSorted xs

  abbrev pub same_rank : A → A → Bool
  same_rank a b = not (lt a b) && not (lt b a)

  -- The items that compare as equal to `a`, in their order.
  abbrev pub ranked : A → List A → List A
  ranked a [] = []
  ranked a (x ∷ xs) = if same_rank a x then x ∷ ranked a xs else ranked a xs

module _ {ℓ} {A : Type ℓ} (lt : A → A → Bool) (w : IsWeakOrder lt) where
  ranked-append :
      (a : A) (xs ys : List A) → ranked lt a (xs ++ ys) ≡ ranked lt a xs ++ ranked lt a ys
  ranked-append a [] ys = refl
  ranked-append a (x ∷ xs) ys = elim (Bool-cases (same_rank lt a x)) [
    | inl e ↦ rw e (ap (◌∷◌ x) (ranked-append a xs ys))
    | inr e ↦ rw e (ranked-append a xs ys)
  ]

  insert_node-eq-insert_after : (x : A) (l : List A) → insert_node lt x l ≡ insert_after lt x l
  unfolding insert_node insert_after
  insert_node-eq-insert_after x [] = refl
  insert_node-eq-insert_after x (y ∷ l) = refl

  All-insert_after :
      (p x : A) (l : List A)
      → lt x p ≡ false
      → All (λ y. lt y p ≡ false) l
      → All (λ y. lt y p ≡ false) (insert_after lt x l)
  unfolding insert_after
  All-insert_after p x [] h _ = (h, tt)
  All-insert_after p x (y ∷ l) h (k, ks) = elim (Bool-cases (lt x y)) [
    | inl e ↦ rw e (h, (k, ks))
    | inr e ↦ rw e (k, All-insert_after p x l h ks)
  ]

  -- What is not below `y` is not below an `x` that is below `y`.
  All-below :
      (x y : A) (l : List A)
      → lt x y ≡ true
      → All (λ z. lt z y ≡ false) l
      → All (λ z. lt z x ≡ false) l
  All-below x y [] h _ = tt
  All-below x y (z ∷ l) h (k, ks) = (w.neg_trans z y x k (w.asymm x y h), All-below x y l h ks)

  insert_after-IsSorted : (x : A) (l : List A) → IsSorted lt l → IsSorted lt (insert_after lt x l)
  unfolding insert_after
  insert_after-IsSorted x [] _ = (tt, tt)
  insert_after-IsSorted x (y ∷ l) (k, s) = elim (Bool-cases (lt x y)) [
    | inl e ↦ rw e ((w.asymm x y e, All-below x y l e k), (k, s))
    | inr e ↦ rw e (All-insert_after y x l e k, insert_after-IsSorted x l s)
  ]

  not_ranked :
      (a x y : A) (l : List A)
      → lt x y ≡ true
      → same_rank lt a x ≡ true
      → All (λ z. lt z y ≡ false) l
      → ranked lt a l ≡ []
  not_ranked a x y [] h r _ = refl
  not_ranked a x y (z ∷ l) h r (k, ks) =
      ground (arith, w.neg_trans x a z, w.neg_trans x z y, not_ranked a x y l h r ks)

  not_ranked_head : (a x y : A) → lt x y ≡ true → same_rank lt a x ≡ true → same_rank lt a y ≡ false
  not_ranked_head a x y h r = ground (arith, w.neg_trans x a y)

  ranked-insert_after :
      (a x : A) (l : List A)
      → IsSorted lt l
      → ranked lt a (insert_after lt x l) ≡ ranked lt a (l ++ x ∷ [])
  unfolding insert_after
  ranked-insert_after a x [] _ = refl
  ranked-insert_after a x (y ∷ l) (k, s) = elim (Bool-cases (lt x y)) [
    | inl e ↦ rw e (elim (Bool-cases (same_rank lt a x)) [
      | inl r ↦
          rw (ranked-append a l (x ∷ []), not_ranked a x y l e r k, r, not_ranked_head a x y e r)
      | inr r ↦ rw (ranked-append a l (x ∷ []), r) (rw append-nil)
    ])
    | inr e ↦ rw e (elim (Bool-cases (same_rank lt a y)) [
      | inl r ↦ rw r (ap (◌∷◌ y) (ranked-insert_after a x l s))
      | inr r ↦ rw r (ranked-insert_after a x l s)
    ])
  ]

  sort_from-IsSorted : (head l : List A) → IsSorted lt head → IsSorted lt (sort_from lt head l)
  unfolding sort_from
  sort_from-IsSorted head [] s = s
  sort_from-IsSorted head (x ∷ l) s =
      sort_from-IsSorted (insert_node lt x head) l
        (rw insert_node-eq-insert_after (insert_after-IsSorted x head s))

  ranked-sort_from :
      (a : A) (head l : List A)
      → IsSorted lt head
      → ranked lt a (sort_from lt head l) ≡ ranked lt a (head ++ l)
  unfolding sort_from
  ranked-sort_from a head [] s = rw append-nil
  ranked-sort_from a head (x ∷ l) s =
      ranked-sort_from a (insert_node lt x head) l
        (rw insert_node-eq-insert_after (insert_after-IsSorted x head s))
      ∙ ranked-append a (insert_node lt x head) l
      ∙ ap (λ r. r ++ ranked lt a l)
          (ap (ranked lt a) (insert_node-eq-insert_after x head) ∙ ranked-insert_after a x head s)
      ∙ sym (ranked-append a (head ++ x ∷ []) l)
      ∙ ap (ranked lt a) (append_assoc head (x ∷ []) l)

  -- The sorted list is in order, and the nodes that compare as equal to any given item are the same
  -- as before, each as often, in the order in which they stood.
  pub sp_list_sort_stable :
      (l : List A)
      → IsSorted lt (sp_list_sort lt l)
        × ((a : A) → ranked lt a (sp_list_sort lt l) ≡ ranked lt a l)
  unfolding sp_list_sort
  sp_list_sort_stable [] = (tt, λ a. refl)
  sp_list_sort_stable (x ∷ []) = ((tt, tt), λ a. refl)
  sp_list_sort_stable (x ∷ y ∷ l) =
      (sort_from-IsSorted [] (x ∷ y ∷ l) tt, λ a. ranked-sort_from a [] (x ∷ y ∷ l) tt)
