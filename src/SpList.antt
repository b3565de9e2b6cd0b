-- ===== src/SpList.antt =====
-- src/sp_list.c: singly linked lists. A chain of nodes is the list of its data, `NULL` is `[]`.
pub mod Sort
use snuffleupagus.Base.{ℕ, suc, ◌+◌, Bool, List, [], ◌∷◌, if◌then◌else◌}

module _ {ℓ} {A : Type ℓ} where
  -- The walk to the last node, and the new node behind it.
  unfoldable pub sp_list_insert : List A → A → List A
  sp_list_insert [] d = d ∷ []
  sp_list_insert (x ∷ list) d = x ∷ sp_list_insert list d

  unfoldable pub sp_list_prepend : List A → A → List A
  sp_list_prepend list d = d ∷ list

  count_from : ℕ → List A → ℕ
  count_from num [] = num
  count_from num (p ∷ rest) = count_from (num + 1) rest

  unfoldable pub sp_list_len : List A → ℕ
  unfolding count_from
  sp_list_len p = count_from 0 p

  -- `lt a b` is the test `0 > cmp_func(a, b)`.
  module _ (lt : A → A → Bool) where
    -- The inner loop, at the nodes behind `p`.
    pub insert_after : A → List A → List A
    insert_after current [] = current ∷ []
    insert_after current (next ∷ rest) =
        if lt current next then current ∷ next ∷ rest else next ∷ insert_after current rest

    pub insert_node : A → List A → List A
    insert_node current [] = current ∷ []
    insert_node current (head ∷ rest) =
        if lt current head then current ∷ head ∷ rest else head ∷ insert_after current rest

    -- The outer loop.
    pub sort_from : List A → List A → List A
    sort_from head [] = head
    sort_from head (current ∷ list) = sort_from (insert_node current head) list

    unfoldable pub sp_list_sort : List A → List A
    unfolding sort_from insert_node insert_after
    sp_list_sort [] = []
    sp_list_sort (x ∷ []) = x ∷ []
    sp_list_sort (x ∷ y ∷ list) = sort_from [] (x ∷ y ∷ list)
