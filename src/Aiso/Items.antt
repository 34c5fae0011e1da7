-- ===== src/Aiso/Items.antt =====
-- InsertAiso implements the insertion into a sorted list.
use mathlib.Core.List.{Perm, append-nil}
use run_server.Base.{
  ℕ, ◌+◌, ◌*◌, ◌<◌, ◌≡◌, inl, refl, sym, ap, ap₂, subst, ◌∙◌, Bool, true, false, Option, some,
  ◌>>=◌, List, [], ◌∷◌, ◌++◌, map, length, length-append, ◌==◌, if◌then◌else◌, update, update_eq,
  update_ne, arith,
}
use run_server.SortList.Laws.{IsSorted}
use run_server.Aiso.{Aiso, Inserted, insert_from, insert_aiso, items, items_from, no_items}
use run_server.Aiso.Order.{nodes, last_or, node_before, Placed}
use run_server.Aiso.Place.{insert_from-Placed}
use run_server.Aiso.Links.{
  Chain, NotIn, Distinct, AllUpTo, AllUpTo-NotIn, AllUpTo-insert, Distinct-insert, Chain-update,
  Chain-insert, last_or-pos, items_from-map, map-update,
}
use run_server.Aiso.Sorted.{
  insert_sorted, insert_sorted-IsSorted, IsSorted-values, IsSorted-nodes, insert_sorted-map,
  insert_all_sorted, insert_all_sorted-perm, insert_all_sorted-IsSorted,
}

-- `new_node->an_next = *prev; *prev = new_node;` as InsertAiso writes it: the field `an_next`, and `list`.
abbrev linked_next : ℕ → ℕ → (ℕ → ℕ) → ℕ → ℕ → ℕ
linked_next prev new_node next list =
    let next' = update next new_node (if prev == 0 then list else next prev) in
    if prev == 0 then next' else update next' prev new_node

abbrev linked_list : ℕ → ℕ → ℕ → ℕ
linked_list prev new_node list = if prev == 0 then new_node else list

-- The list through the nodes, with the new node behind `front`.
linked-Chain :
    (next : ℕ → ℕ) (list new_node : ℕ) (front back : List ℕ)
    → 0 < new_node
    → Chain next list (front ++ back)
    → NotIn new_node (front ++ back)
    → Distinct (front ++ back)
    → Chain
        (linked_next (last_or 0 front) new_node next list)
        (linked_list (last_or 0 front) new_node list)
        (front ++ (new_node ∷ back))
linked-Chain next list new_node [] back pos c n d = (
  refl,
  pos,
  subst (λ q. Chain (update next new_node list) q back)
      (sym (update_eq next new_node new_node list refl))
      (Chain-update next new_node list list back n c),
)
linked-Chain next list new_node (x ∷ front) back pos c n d =
    let later = last_or-pos next list x front back c in
    let behind_one : (last_or x front == 0) ≡ false = ground (arith, later) in
    subst
      (λ b.
        Chain
          (let next' = update next new_node (if b then list else next (last_or x front)) in
            if b then next' else update next' (last_or x front) new_node)
          (if b then new_node else list) (x ∷ (front ++ (new_node ∷ back))))
      (sym behind_one) (Chain-insert next new_node list x front back pos n d c)

map_inserted {ℓ} :
    {A : Type ℓ} (f : ℕ → A) (x : ℕ) (v : A) (front back : List ℕ)
    → NotIn x (front ++ back)
    → map (update f x v) (front ++ (x ∷ back)) ≡ (map f front ++ (v ∷ map f back))
map_inserted f x v [] back n = ap₂ ◌∷◌ (update_eq f x x v refl) (map-update f x v back n)
map_inserted f x v (y ∷ front) back (ne, n) =
    ap₂ ◌∷◌ (update_ne f x y v ne) (map_inserted f x v front back n)

module _ {ℓ} {A : Type ℓ} (before : A → A → Bool) where
  -- The nodes of the tree hold the values of a sorted list, and the list leads through them.
  pub record IsLinked (s : Aiso A) : Type 0 where
    pub count : length (nodes s.root) ≡ s.aiso_size
    pub chain : Chain s.an_next s.list (nodes s.root)
    pub numbers : AllUpTo s.aiso_size (nodes s.root)
    pub distinct : Distinct (nodes s.root)
    pub sorted : IsSorted (node_before before s.an_value) (nodes s.root)

  -- The state that InsertAiso leaves for the place that its loop has found.
  abbrev linked : A → Aiso A → Inserted → Aiso A
  linked v s i = record {
    root = i.tree;
    list = linked_list i.prev (s.aiso_size + 1) s.list;
    an_next = linked_next i.prev (s.aiso_size + 1) s.an_next s.list;
    an_value = update s.an_value (s.aiso_size + 1) v;
    aiso_size = s.aiso_size + 1;
    acc_mark = i.acc_mark;
  }

  insert_aiso-linked :
      (v : A) (s : Aiso A) (i : Inserted)
      → insert_from before s.an_value s.aiso_size
          (s.aiso_size + 1)
          v
          (2 * s.aiso_size + 2)
          s.root
          s.acc_mark
          0
        ≡ some i
      → insert_aiso before v s ≡ some (linked v s i)
  unfolding insert_aiso
  insert_aiso-linked v s i q = rw (q, insert_aiso) refl

  module _ (asym : (x y : A) → before x y ≡ true → before y x ≡ false)
      (trans : (x y z : A) → before y x ≡ false → before z y ≡ false → before z x ≡ false) (v : A)
      (s : Aiso A) (k : IsLinked s) (i : Inserted)
      (p : Placed before s.an_value trans s.aiso_size (s.aiso_size + 1) v (nodes s.root) 0 i) where
    fresh : NotIn (s.aiso_size + 1) (p.front ++ p.back)
    fresh =
        subst (NotIn (s.aiso_size + 1)) p.was (AllUpTo-NotIn s.aiso_size (nodes s.root) k.numbers)

    linked-values :
        map (linked v s i).an_value (nodes i.tree)
        ≡ insert_sorted before v (map s.an_value (nodes s.root))
    linked-values =
        ap (map (linked v s i).an_value) p.now
        ∙ map_inserted s.an_value (s.aiso_size + 1) v p.front p.back fresh
        ∙ sym (
            insert_sorted-map before asym trans s.an_value v p.front p.back p.not_before
              p.all_before)
        ∙ ap (λ l. insert_sorted before v (map s.an_value l)) (sym p.was)

    linked-IsLinked : IsLinked (linked v s i)
    linked-IsLinked = record {
      count = omega (
        arith,
        k.count,
        ap length p.now,
        ap length p.was,
        length-append p.front p.back,
        length-append p.front ((s.aiso_size + 1) ∷ p.back),
      );
      chain = subst (Chain (linked v s i).an_next (linked v s i).list) (sym p.now) (
          subst
            (λ q.
              Chain (linked_next q (s.aiso_size + 1) s.an_next s.list)
                (linked_list q (s.aiso_size + 1) s.list) (p.front ++ ((s.aiso_size + 1) ∷ p.back)))
            (sym p.after)
            (linked-Chain s.an_next s.list (s.aiso_size + 1) p.front p.back (omega arith)
              (subst (Chain s.an_next s.list) p.was k.chain) fresh
              (subst Distinct p.was k.distinct)));
      numbers =
          subst (AllUpTo (s.aiso_size + 1)) (sym p.now) (
            AllUpTo-insert s.aiso_size p.front p.back
              (subst (AllUpTo s.aiso_size) p.was k.numbers));
      distinct = subst Distinct (sym p.now) (
          Distinct-insert (s.aiso_size + 1) p.front p.back fresh (subst Distinct p.was k.distinct));
      sorted = IsSorted-nodes before asym trans (linked v s i).an_value (nodes i.tree) (
          subst (IsSorted before) (sym linked-values) (
            insert_sorted-IsSorted before asym trans v _
              (IsSorted-values before asym trans s.an_value (nodes s.root) k.sorted)));
    }

  module _ (asym : (x y : A) → before x y ≡ true → before y x ≡ false)
      (trans : (x y z : A) → before y x ≡ false → before z y ≡ false → before z x ≡ false) where
    -- One call of InsertAiso.
    insert_aiso-IsLinked :
        (v : A) (s : Aiso A)
        → IsLinked s
        → (s' : Aiso A) × (insert_aiso before v s ≡ some s')
          × IsLinked s'
          × (map s'.an_value (nodes s'.root)
              ≡ insert_sorted before v (map s.an_value (nodes s.root)))
    insert_aiso-IsLinked v s k =
        let (i, q, p) =
          insert_from-Placed before s.an_value trans s.aiso_size (s.aiso_size + 1) v
            (2 * s.aiso_size + 2) s.root s.acc_mark 0 (omega (arith, k.count))
            (inl (omega (arith, k.count))) k.sorted in
        (
          linked v s i,
          insert_aiso-linked v s i q,
          linked-IsLinked asym trans v s k i p,
          linked-values asym trans v s k i p,
        )

    -- What an iterator yields: the values of the nodes from left to right.
    items-nodes : (s : Aiso A) → IsLinked s → items s ≡ map s.an_value (nodes s.root)
    unfolding items
    items-nodes s k =
        items_from-map s s.aiso_size s.list (nodes s.root) (omega (arith, k.count)) k.chain

    -- Calls of InsertAiso, one for each value.
    abbrev pub insert_all : List A → Aiso A → Option (Aiso A)
    insert_all [] s = some s
    insert_all (v ∷ vs) s = do s' ← insert_aiso before v s; insert_all vs s'

    insert_all-IsLinked :
        (vs : List A) (s : Aiso A)
        → IsLinked s
        → (s' : Aiso A) × (insert_all vs s ≡ some s')
          × (items s' ≡ insert_all_sorted before vs (items s))
    insert_all-IsLinked [] s k = (s, refl, refl)
    insert_all-IsLinked (v ∷ vs) s k =
        let (s1, e1, k1, values) = insert_aiso-IsLinked v s k in
        let (s2, e2, all) = insert_all-IsLinked vs s1 k1 in
        (
          s2,
          rw e1 e2,
          all
              ∙ ap (insert_all_sorted before vs) (
                  items-nodes s1 k1 ∙ values ∙ ap (insert_sorted before v) (sym (items-nodes s k))),
        )

    no_items-IsLinked : (memory : ℕ → A) → IsLinked (no_items memory)
    no_items-IsLinked memory = record {
      count = refl;
      chain = refl;
      numbers = tt;
      distinct = tt;
      sorted = tt;
    }

    -- If AISO_BEFORE is asymmetric and its failure is transitive, then calls of InsertAiso on the empty
    -- set end, with memory for each node. An iterator then yields what the insertion of the values,
    -- one after another, into a sorted list gives, where a value goes behind all that it is not before.
    pub insert_all-items :
        (memory : ℕ → A) (vs : List A)
        → (s : Aiso A) × (insert_all vs (no_items memory) ≡ some s)
          × (items s ≡ insert_all_sorted before vs [])
    unfolding items items_from
    insert_all-items memory vs = insert_all-IsLinked vs (no_items memory) (no_items-IsLinked memory)

    -- If AISO_BEFORE is asymmetric and its failure is transitive, then calls of InsertAiso on the empty
    -- set end, with memory for each node. An iterator then yields the values, each as often as it has
    -- been inserted, and none is before one that it yields earlier.
    pub insert_all-IsSorted :
        (memory : ℕ → A) (vs : List A)
        → (s : Aiso A) × (insert_all vs (no_items memory) ≡ some s)
          × Perm (items s) vs
          × IsSorted before (items s)
    insert_all-IsSorted memory vs =
        let (s, e, i) = insert_all-items memory vs in
        (
          s,
          e,
          rw i (rw append-nil at (insert_all_sorted-perm before vs [])),
          rw i (insert_all_sorted-IsSorted before asym trans vs [] tt),
        )
