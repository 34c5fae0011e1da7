-- ===== src/Aiso/Order.antt =====
-- Where InsertAiso puts a node: the order of the tree from left to right.
use mathlib.Core.List.{append_assoc}
use run_server.Base.{
  ℕ, ◌≡◌, inl, inr, refl, sym, ap, subst, ◌∙◌, Bool, true, false, List, [], ◌∷◌, ◌++◌, Bool-cases,
}
use run_server.SortList.Laws.{IsLeast, IsSorted}
use run_server.Aiso.{Tree, leaf, node, turn_right, turn_left, Inserted}

-- The nodes from left to right.
abbrev pub nodes : Tree → List ℕ
nodes leaf = []
nodes (node an l r) = nodes l ++ (an ∷ nodes r)

pub nodes-turn_right : (an : ℕ) (l r : Tree) → nodes (turn_right an l r) ≡ nodes (node an l r)
nodes-turn_right an leaf r = refl
nodes-turn_right an (node anl ll lr) r =
    sym (append_assoc (nodes ll) (anl ∷ nodes lr) (an ∷ nodes r))

pub nodes-turn_left : (an : ℕ) (l r : Tree) → nodes (turn_left an l r) ≡ nodes (node an l r)
nodes-turn_left an l leaf = refl
nodes-turn_left an l (node anr rl rr) = append_assoc (nodes l) (an ∷ nodes rl) (anr ∷ nodes rr)

-- The last node of a list, or `prev`.
abbrev pub last_or : ℕ → List ℕ → ℕ
last_or prev [] = prev
last_or prev (x ∷ l) = last_or x l

last_or-append : (l : List ℕ) (prev x : ℕ) (k : List ℕ) → last_or prev (l ++ (x ∷ k)) ≡ last_or x k
last_or-append [] prev x k = refl
last_or-append (y ∷ l) prev x k = last_or-append l y x k

module _ {ℓ} {A : Type ℓ} (before : A → A → Bool) (an_value : ℕ → A) where
  abbrev pub node_before : ℕ → ℕ → Bool
  node_before x y = before (an_value x) (an_value y)

  -- `v` is before none of the nodes, or before all of them.
  abbrev pub NotBefore : A → List ℕ → Type 0
  NotBefore v [] = Unit
  NotBefore v (x ∷ l) = (before v (an_value x) ≡ false) × NotBefore v l

  abbrev pub AllBefore : A → List ℕ → Type 0
  AllBefore v [] = Unit
  AllBefore v (x ∷ l) = (before v (an_value x) ≡ true) × AllBefore v l

  NotBefore-append : (v : A) (l k : List ℕ) → NotBefore v l → NotBefore v k → NotBefore v (l ++ k)
  NotBefore-append v [] k n m = m
  NotBefore-append v (x ∷ l) k (e, n) m = (e, NotBefore-append v l k n m)

  AllBefore-append : (v : A) (l k : List ℕ) → AllBefore v l → AllBefore v k → AllBefore v (l ++ k)
  AllBefore-append v [] k n m = m
  AllBefore-append v (x ∷ l) k (e, n) m = (e, AllBefore-append v l k n m)

  pub IsSorted-left : (l k : List ℕ) → IsSorted node_before (l ++ k) → IsSorted node_before l
  IsSorted-left [] k s = tt
  IsSorted-left (x ∷ l) k (h, s) = (least l h, IsSorted-left l k s)
    where
      least : (l : List ℕ) → IsLeast node_before x (l ++ k) → IsLeast node_before x l
      least [] h = tt
      least (y ∷ l) (e, h) = (e, least l h)

  pub IsSorted-right : (l k : List ℕ) → IsSorted node_before (l ++ k) → IsSorted node_before k
  IsSorted-right [] k s = s
  IsSorted-right (x ∷ l) k (h, s) = IsSorted-right l k s

  module _
      (trans : (x y z : A) → before y x ≡ false → before z y ≡ false → before z x ≡ false) where
    -- What is not before a node is before none in front of it.
    front_of :
        (v : A) (l : List ℕ) (an : ℕ) (k : List ℕ)
        → IsSorted node_before (l ++ (an ∷ k))
        → before v (an_value an) ≡ false
        → NotBefore v l
    front_of v [] an k s e = tt
    front_of v (x ∷ l) an k (h, s) e =
        (trans (an_value x) (an_value an) v (middle l h) e, front_of v l an k s e)
      where
        middle :
            (l : List ℕ)
            → IsLeast node_before x (l ++ (an ∷ k))
            → before (an_value an) (an_value x) ≡ false
        middle [] (e, h) = e
        middle (y ∷ l) (e, h) = middle l h

    -- What is before a node is before all behind it.
    behind :
        (v : A) (an : ℕ) (k : List ℕ)
        → IsLeast node_before an k
        → before v (an_value an) ≡ true
        → AllBefore v k
    behind v an [] h e = tt
    behind v an (y ∷ k) (f, h) e = (
      elim (Bool-cases (before v (an_value y))) [
        | inl t ↦ t
        | inr n ↦ cc (e, trans (an_value an) (an_value y) v f n)
      ],
      behind v an k h e,
    )

    module _ (aiso_size new_node : ℕ) (v : A) where
      -- The place of the new node among the nodes of the tree below the hook.
      pub record Placed (old : List ℕ) (prev : ℕ) (i : Inserted) : Type ℓ where
        pub front : List ℕ
        pub back : List ℕ
        pub was : old ≡ front ++ back
        pub now : nodes i.tree ≡ front ++ (new_node ∷ back)
        pub after : i.prev ≡ last_or prev front
        pub not_before : NotBefore v front
        pub all_before : AllBefore v back

      pub in_left :
          (an : ℕ) (l r : Tree) (prev : ℕ) (i : Inserted)
          → IsSorted node_before (nodes (node an l r))
          → before v (an_value an) ≡ true
          → Placed (nodes l) prev i
          → Placed (nodes (node an l r)) prev (record i { tree = node an i.tree r })
      in_left an l r prev i s e p = record {
        front = p.front;
        back = p.back ++ (an ∷ nodes r);
        was = ap (λ k. k ++ (an ∷ nodes r)) p.was ∙ append_assoc p.front p.back (an ∷ nodes r);
        now =
            ap (λ k. k ++ (an ∷ nodes r)) p.now
            ∙ append_assoc p.front (new_node ∷ p.back) (an ∷ nodes r);
        after = p.after;
        not_before = p.not_before;
        all_before =
            AllBefore-append v p.back (an ∷ nodes r) p.all_before
              (e, behind v an (nodes r) (IsSorted-right (nodes l) (an ∷ nodes r) s).0 e);
      }

      pub in_right :
          (an : ℕ) (l r : Tree) (prev : ℕ) (i : Inserted)
          → IsSorted node_before (nodes (node an l r))
          → before v (an_value an) ≡ false
          → Placed (nodes r) an i
          → Placed (nodes (node an l r)) prev (record i { tree = node an l i.tree })
      in_right an l r prev i s e p = record {
        front = nodes l ++ (an ∷ p.front);
        back = p.back;
        was =
            ap (λ k. nodes l ++ (an ∷ k)) p.was
            ∙ sym (append_assoc (nodes l) (an ∷ p.front) p.back);
        now =
            ap (λ k. nodes l ++ (an ∷ k)) p.now
            ∙ sym (append_assoc (nodes l) (an ∷ p.front) (new_node ∷ p.back));
        after = p.after ∙ sym (last_or-append (nodes l) prev an p.front);
        not_before =
            NotBefore-append v (nodes l) (an ∷ p.front) (front_of v (nodes l) an (nodes r) s e)
              (e, p.not_before);
        all_before = p.all_before;
      }

      before_middle :
          (l : List ℕ) (an : ℕ) (k : List ℕ)
          → AllBefore v (l ++ (an ∷ k))
          → before v (an_value an) ≡ true
      before_middle [] an k (e, b) = e
      before_middle (x ∷ l) an k (e, b) = before_middle l an k b

      -- A rotation to the left sets `prev` to a node that is passed again.
      pub after_turn :
          (an : ℕ) (l r : Tree) (prev : ℕ) (i : Inserted)
          → before v (an_value an) ≡ false
          → Placed (nodes (node an l r)) an i
          → Placed (nodes (node an l r)) prev i
      after_turn an l r prev i e p = record {
        front = p.front;
        back = p.back;
        was = p.was;
        now = p.now;
        after = p.after ∙ any_start p.front p.back p.was p.all_before;
        not_before = p.not_before;
        all_before = p.all_before;
      }
        where
          any_start :
              (front back : List ℕ)
              → nodes (node an l r) ≡ front ++ back
              → AllBefore v back
              → last_or an front ≡ last_or prev front
          any_start [] back q b =
              absurd (cc (e, before_middle (nodes l) an (nodes r) (subst (AllBefore v) (sym q) b)))
          any_start (x ∷ front) back q b = refl
