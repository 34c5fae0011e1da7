-- ===== src/SortList.antt =====
-- sim/sim_2_89/sortlist.bdy: linked lists are sorted by split, sort and merge. The list that a hook
-- points to is the list; SORT_BEFORE is the parameter `before`.
pub mod Laws
use run_server.Base.{ℕ, zero, suc, Bool, true, false, List, [], ◌∷◌, ◌++◌, length}

module _ {ℓ} {A : Type ℓ} where
  -- The splitting loop: `q_cnt` says which of the two sublists gets the next element.
  unfoldable pub split : List A → Bool → List A → List A → List A × List A
  split [] q_cnt q0 q1 = (q0, q1)
  split (l ∷ lst) false q0 q1 = split lst true (q0 ++ (l ∷ [])) q1
  split (l ∷ lst) true q0 q1 = split lst false q0 (q1 ++ (l ∷ []))

  module _ (before : A → A → Bool) where
    -- The merging loop.
    unfoldable pub merge : List A → List A → List A
    merge [] q1 = q1
    merge (x ∷ q0) [] = x ∷ q0
    merge (x ∷ q0) (y ∷ q1) = elim (before x y) [
      | true ↦ x ∷ merge q0 (y ∷ q1)
      | false ↦ y ∷ merge (x ∷ q0) q1
    ]

    -- The recursion, on fuel.
    unfoldable pub sort_from : ℕ → List A → List A
    sort_from zero lst = lst
    sort_from (suc fuel) [] = []
    sort_from (suc fuel) (x ∷ []) = x ∷ []
    sort_from (suc fuel) (x ∷ y ∷ lst) =
        let (q0, q1) = split (x ∷ y ∷ lst) false [] [] in
        merge (sort_from fuel q0) (sort_from fuel q1)

    unfoldable pub sort_list : List A → List A
    sort_list lst = sort_from (length lst) lst
