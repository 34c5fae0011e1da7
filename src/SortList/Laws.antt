-- ===== src/SortList/Laws.antt =====
-- The sort returns a rearrangement of its list, in order.
use mathlib.Core.List.{Perm, perm_middle, append-nil, append_assoc}
use mathlib.Core.List.Perm
use run_server.Base.{
  ℕ, zero, suc, ◌+◌, ◌≤◌, ◌≡◌, inl, inr, Bool, true, false, List, [], ◌∷◌, ◌++◌, Bool-cases, length,
  length-append, arith,
}
use run_server.SortList.{split, merge, sort_from, sort_list}

module _ {ℓ} {A : Type ℓ} where
  split-perm :
      (lst : List A) (q_cnt : Bool) (q0 q1 : List A)
      → Perm ((split lst q_cnt q0 q1).0 ++ (split lst q_cnt q0 q1).1) (lst ++ (q0 ++ q1))
  unfolding split
  split-perm [] q_cnt q0 q1 = Perm.rfl
  split-perm (l ∷ lst) false q0 q1 = Perm.trans (split-perm lst true (q0 ++ (l ∷ [])) q1) (
      rw (append_assoc q0 (l ∷ []) q1)
        (Perm.trans (Perm.append_left lst (perm_middle q0 q1)) (perm_middle lst (q0 ++ q1))))
  split-perm (l ∷ lst) true q0 q1 = Perm.trans (split-perm lst false q0 (q1 ++ (l ∷ []))) (
      Perm.trans (Perm.append_left lst (Perm.append_left q0 last))
        (Perm.trans (Perm.append_left lst (perm_middle q0 q1)) (perm_middle lst (q0 ++ q1))))
    where
      last : Perm (q1 ++ (l ∷ [])) (l ∷ q1)
      last = rw append-nil at (perm_middle {a = l} q1 [])

  split-length :
      (lst : List A) (q_cnt : Bool) (q0 q1 : List A)
      → length (split lst q_cnt q0 q1).0 + length (split lst q_cnt q0 q1).1
        ≡ length lst + length q0 + length q1
  unfolding split
  split-length [] q_cnt q0 q1 = omega arith
  split-length (l ∷ lst) false q0 q1 =
      omega (arith, split-length lst true (q0 ++ (l ∷ [])) q1, length-append {ℓ} q0 (l ∷ []))
  split-length (l ∷ lst) true q0 q1 =
      omega (arith, split-length lst false q0 (q1 ++ (l ∷ [])), length-append {ℓ} q1 (l ∷ []))

  -- Neither sublist loses what it has.
  split-grows :
      (lst : List A) (q_cnt : Bool) (q0 q1 : List A)
      → (length q0 ≤ length (split lst q_cnt q0 q1).0)
        × (length q1 ≤ length (split lst q_cnt q0 q1).1)
  unfolding split
  split-grows [] q_cnt q0 q1 = (omega arith, omega arith)
  split-grows (l ∷ lst) false q0 q1 =
      omega (arith, split-grows lst true (q0 ++ (l ∷ [])) q1, length-append {ℓ} q0 (l ∷ []))
  split-grows (l ∷ lst) true q0 q1 =
      omega (arith, split-grows lst false q0 (q1 ++ (l ∷ [])), length-append {ℓ} q1 (l ∷ []))

  -- Of two elements or more, each sublist gets one.
  split_two :
      (x y : A) (lst : List A)
      → (1 ≤ length (split (x ∷ y ∷ lst) false [] []).0)
        × (1 ≤ length (split (x ∷ y ∷ lst) false [] []).1)
  unfolding split
  split_two x y lst = split-grows lst false (x ∷ []) (y ∷ [])

module _ {ℓ} {A : Type ℓ} (before : A → A → Bool) where
  merge-perm : (q0 q1 : List A) → Perm (merge before q0 q1) (q0 ++ q1)
  unfolding merge
  merge-perm [] q1 = Perm.rfl
  merge-perm (x ∷ q0) [] = rw (append-nil q0) Perm.rfl
  merge-perm (x ∷ q0) (y ∷ q1) = elim (Bool-cases (before x y)) [
    | inl e ↦ rw (e, merge) (Perm.cons x (merge-perm q0 (y ∷ q1)))
    | inr e ↦
        rw (e, merge)
          (Perm.trans (Perm.cons y (merge-perm (x ∷ q0) q1)) (Perm.symm (perm_middle (x ∷ q0) q1)))
  ]

  sort_from-perm : (fuel : ℕ) (lst : List A) → Perm (sort_from before fuel lst) lst
  unfolding sort_from
  sort_from-perm zero lst = Perm.rfl
  sort_from-perm (suc fuel) [] = Perm.rfl
  sort_from-perm (suc fuel) (x ∷ []) = Perm.rfl
  sort_from-perm (suc fuel) (x ∷ y ∷ lst) =
      let whole = split-perm (x ∷ y ∷ lst) false [] [] in
      Perm.trans (merge-perm _ _) (
        Perm.trans (Perm.append (sort_from-perm fuel _) (sort_from-perm fuel _))
          (rw append-nil at whole))

  -- The sorted list is a permutation of the list, for any SORT_BEFORE.
  pub sort_list-perm : (lst : List A) → Perm (sort_list before lst) lst
  unfolding sort_list
  sort_list-perm lst = sort_from-perm (length lst) lst

  -- No element of the list is before `x`.
  abbrev pub IsLeast : A → List A → Type 0
  IsLeast x [] = Unit
  IsLeast x (y ∷ l) = (before y x ≡ false) × IsLeast x l

  -- No element is before one that stands in front of it.
  abbrev pub IsSorted : List A → Type 0
  IsSorted [] = Unit
  IsSorted (x ∷ l) = IsLeast x l × IsSorted l

  module _ (asym : (x y : A) → before x y ≡ true → before y x ≡ false)
      (trans : (x y z : A) → before y x ≡ false → before z y ≡ false → before z x ≡ false) where
    pub IsLeast-trans : (x y : A) (l : List A) → before y x ≡ false → IsLeast y l → IsLeast x l
    IsLeast-trans x y [] e h = tt
    IsLeast-trans x y (z ∷ l) e (f, h) = (trans x y z e f, IsLeast-trans x y l e h)

    merge-IsLeast :
        (x : A) (q0 q1 : List A) → IsLeast x q0 → IsLeast x q1 → IsLeast x (merge before q0 q1)
    unfolding merge
    merge-IsLeast x [] q1 h k = k
    merge-IsLeast x (y ∷ q0) [] h k = h
    merge-IsLeast x (y ∷ q0) (z ∷ q1) (e, h) (f, k) = elim (Bool-cases (before y z)) [
      | inl t ↦ rw (t, merge) (e, merge-IsLeast x q0 (z ∷ q1) h (f, k))
      | inr t ↦ rw (t, merge) (f, merge-IsLeast x (y ∷ q0) q1 (e, h) k)
    ]

    merge-IsSorted : (q0 q1 : List A) → IsSorted q0 → IsSorted q1 → IsSorted (merge before q0 q1)
    unfolding merge
    merge-IsSorted [] q1 s t = t
    merge-IsSorted (x ∷ q0) [] s t = s
    merge-IsSorted (x ∷ q0) (y ∷ q1) (h, s) (k, t) = elim (Bool-cases (before x y)) [
      | inl e ↦
          let first = asym x y e in
          rw (e, merge)
            (
              merge-IsLeast x q0 (y ∷ q1) h (first, IsLeast-trans x y q1 first k),
              merge-IsSorted q0 (y ∷ q1) s (k, t),
            )
      | inr e ↦
          rw (e, merge)
            (
              merge-IsLeast y (x ∷ q0) q1 (e, IsLeast-trans y x q0 e h) k,
              merge-IsSorted (x ∷ q0) q1 (h, s) t,
            )
    ]

    sort_from-IsSorted :
        (fuel : ℕ) (lst : List A) → length lst ≤ fuel → IsSorted (sort_from before fuel lst)
    unfolding sort_from
    sort_from-IsSorted zero [] le = tt
    sort_from-IsSorted zero (x ∷ lst) le = absurd (omega arith)
    sort_from-IsSorted (suc fuel) [] le = tt
    sort_from-IsSorted (suc fuel) (x ∷ []) le = (tt, tt)
    sort_from-IsSorted (suc fuel) (x ∷ y ∷ lst) le =
        merge-IsSorted _ _ (sort_from-IsSorted fuel _ left) (sort_from-IsSorted fuel _ right)
      where
        sizes :
            (length (split (x ∷ y ∷ lst) false [] []).0 + length (split (x ∷ y ∷ lst) false [] []).1
              ≡ suc (suc (length lst)))
            × (1 ≤ length (split (x ∷ y ∷ lst) false [] []).0)
            × (1 ≤ length (split (x ∷ y ∷ lst) false [] []).1)
        sizes =
            let all = split-length (x ∷ y ∷ lst) false [] [] in
            let (l, r) = split_two x y lst in (omega (arith, all), l, r)

        left : length (split (x ∷ y ∷ lst) false [] []).0 ≤ fuel
        left = omega (arith, sizes)

        right : length (split (x ∷ y ∷ lst) false [] []).1 ≤ fuel
        right = omega (arith, sizes)

    -- If SORT_BEFORE is asymmetric and its failure is transitive, then in the sorted list no element is
    -- before one that stands in front of it.
    pub sort_list-IsSorted : (lst : List A) → IsSorted (sort_list before lst)
    unfolding sort_list
    sort_list-IsSorted lst = sort_from-IsSorted (length lst) lst (omega arith)
