-- ===== src/Aiso/Sorted.antt =====
-- The reference for InsertAiso: insertion into a sorted list.
use mathlib.Core.List.{Perm, perm_middle}
use mathlib.Core.List.Perm
use run_server.Base.{
  ℕ, ◌≡◌, inl, inr, refl, ap, Bool, true, false, List, [], ◌∷◌, ◌++◌, map, Bool-cases,
  if◌then◌else◌,
}
use run_server.SortList.Laws.{IsLeast, IsSorted, IsLeast-trans}
use run_server.Aiso.Order.{node_before, NotBefore, AllBefore}

module _ {ℓ} {A : Type ℓ} (before : A → A → Bool) where
  -- The place of a value in a sorted list: behind all that it is not before.
  abbrev pub insert_sorted : A → List A → List A
  insert_sorted v [] = v ∷ []
  insert_sorted v (x ∷ l) = if before v x then v ∷ x ∷ l else x ∷ insert_sorted v l

  pub insert_sorted-perm : (v : A) (l : List A) → Perm (insert_sorted v l) (v ∷ l)
  insert_sorted-perm v [] = Perm.rfl
  insert_sorted-perm v (x ∷ l) = elim (Bool-cases (before v x)) [
    | inl e ↦ rw e Perm.rfl
    | inr e ↦ rw e (Perm.trans (Perm.cons x (insert_sorted-perm v l)) (Perm.swap v x l))
  ]

  -- The insertion of values one after another.
  abbrev pub insert_all_sorted : List A → List A → List A
  insert_all_sorted [] l = l
  insert_all_sorted (v ∷ vs) l = insert_all_sorted vs (insert_sorted v l)

  pub insert_all_sorted-perm : (vs l : List A) → Perm (insert_all_sorted vs l) (vs ++ l)
  insert_all_sorted-perm [] l = Perm.rfl
  insert_all_sorted-perm (v ∷ vs) l =
      Perm.trans (insert_all_sorted-perm vs (insert_sorted v l))
        (Perm.trans (Perm.append_left vs (insert_sorted-perm v l)) (perm_middle vs l))

  module _ (asym : (x y : A) → before x y ≡ true → before y x ≡ false)
      (trans : (x y z : A) → before y x ≡ false → before z y ≡ false → before z x ≡ false) where
    insert_sorted-IsLeast :
        (x v : A) (l : List A)
        → before v x ≡ false
        → IsLeast before x l
        → IsLeast before x (insert_sorted v l)
    insert_sorted-IsLeast x v [] e h = (e, tt)
    insert_sorted-IsLeast x v (y ∷ l) e (f, h) = elim (Bool-cases (before v y)) [
      | inl t ↦ rw t (e, (f, h))
      | inr t ↦ rw t (f, insert_sorted-IsLeast x v l e h)
    ]

    pub insert_sorted-IsSorted :
        (v : A) (l : List A) → IsSorted before l → IsSorted before (insert_sorted v l)
    insert_sorted-IsSorted v [] s = (tt, tt)
    insert_sorted-IsSorted v (x ∷ l) (h, s) = elim (Bool-cases (before v x)) [
      | inl e ↦ let f = asym v x e in rw e ((f, IsLeast-trans before asym trans v x l f h), (h, s))
      | inr e ↦ rw e (insert_sorted-IsLeast x v l e h, insert_sorted-IsSorted v l s)
    ]

    pub insert_all_sorted-IsSorted :
        (vs l : List A) → IsSorted before l → IsSorted before (insert_all_sorted vs l)
    insert_all_sorted-IsSorted [] l s = s
    insert_all_sorted-IsSorted (v ∷ vs) l s =
        insert_all_sorted-IsSorted vs (insert_sorted v l) (insert_sorted-IsSorted v l s)

    -- Sorted nodes are those whose values are sorted.
    pub IsSorted-values :
        (f : ℕ → A) (l : List ℕ) → IsSorted (node_before before f) l → IsSorted before (map f l)
    IsSorted-values f [] s = tt
    IsSorted-values f (x ∷ l) (h, s) = (least l h, IsSorted-values f l s)
      where
        least : (l : List ℕ) → IsLeast (node_before before f) x l → IsLeast before (f x) (map f l)
        least [] h = tt
        least (y ∷ l) (e, h) = (e, least l h)

    pub IsSorted-nodes :
        (f : ℕ → A) (l : List ℕ) → IsSorted before (map f l) → IsSorted (node_before before f) l
    IsSorted-nodes f [] s = tt
    IsSorted-nodes f (x ∷ l) (h, s) = (least l h, IsSorted-nodes f l s)
      where
        least : (l : List ℕ) → IsLeast before (f x) (map f l) → IsLeast (node_before before f) x l
        least [] h = tt
        least (y ∷ l) (e, h) = (e, least l h)

    -- A value goes where the nodes' values say.
    pub insert_sorted-map :
        (f : ℕ → A) (v : A) (front back : List ℕ)
        → NotBefore before f v front
        → AllBefore before f v back
        → insert_sorted v (map f (front ++ back)) ≡ (map f front ++ (v ∷ map f back))
    insert_sorted-map f v [] [] n a = refl
    insert_sorted-map f v [] (y ∷ back) n (e, a) = rw e refl
    insert_sorted-map f v (x ∷ front) back (e, n) a =
        rw e (ap (λ l. f x ∷ l) (insert_sorted-map f v front back n a))
