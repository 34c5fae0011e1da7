-- ===== src/Aiso/Place.antt =====
-- The loop of InsertAiso ends: the fuel is enough, and the new node is in its place.
use mathlib.Core.Bool.{false≢true}
use run_server.Base.{
  ℕ, zero, suc, ◌+◌, ◌*◌, ◌≤◌, ◌<◌, ◌≡◌, ◌⊎◌, inl, inr, refl, sym, subst, Bool, true, false, [],
  ◌∷◌, some, Bool-cases, length, length-append, ltb, ◌&&◌, arith,
}
use run_server.SortList.Laws.{IsSorted}
use run_server.Aiso.{
  Tree, leaf, node, count_access, is_node, turn_right, turn_left, Inserted, insert_from,
}
use run_server.Aiso.Order.{
  nodes, nodes-turn_right, nodes-turn_left, node_before, IsSorted-left, IsSorted-right, Placed,
  in_left, in_right, after_turn,
}

-- The fuel for a tree of `n` nodes: two rounds at each, or, right after a rotation, one less.
abbrev pub Enough : ℕ → ℕ → ℕ → ℕ → Type 0
Enough aiso_size fuel n acc_mark =
    (2 * n + 1 < fuel) ⊎ ((ltb aiso_size (count_access acc_mark) ≡ false) × (2 * n < fuel))

Enough-rotation :
    (aiso_size fuel n acc_mark : ℕ) (b : Bool)
    → (b ≡ true → 2 ≤ aiso_size)
    → b && ltb aiso_size (count_access acc_mark) ≡ true
    → Enough aiso_size (suc fuel) n acc_mark
    → Enough aiso_size fuel n 1
Enough-rotation aiso_size fuel n acc_mark true two m (inl enough) =
    let le = two refl in inr (ground arith, omega arith)
Enough-rotation aiso_size fuel n acc_mark true two m (inr (calm, enough)) = absurd (cc (calm, m))
Enough-rotation aiso_size fuel n acc_mark false two m enough = absurd (false≢true m)

Enough-child :
    (aiso_size fuel n k acc_mark acc : ℕ)
    → k < n
    → Enough aiso_size (suc fuel) n acc_mark
    → Enough aiso_size fuel k acc
Enough-child aiso_size fuel n k acc_mark acc lt (inl enough) = inl (omega arith)
Enough-child aiso_size fuel n k acc_mark acc lt (inr (calm, enough)) = inl (omega arith)

node_length :
    (an : ℕ) (l r : Tree) → length (nodes (node an l r)) ≡ length (nodes l) + length (nodes r) + 1
node_length an l r = omega (arith, length-append (nodes l) (an ∷ nodes r))

is_node-length : (t : Tree) → is_node t ≡ true → 1 ≤ length (nodes t)
is_node-length leaf e = absurd (false≢true e)
is_node-length (node an l r) e = omega (arith, node_length an l r)

module _ {ℓ} {A : Type ℓ} (before : A → A → Bool) (an_value : ℕ → A)
    (trans : (x y z : A) → before y x ≡ false → before z y ≡ false → before z x ≡ false)
    (aiso_size new_node : ℕ) (v : A) where
  -- The loop ends, with the new node in its place.
  pub insert_from-Placed :
      (fuel : ℕ) (t : Tree) (acc_mark prev : ℕ)
      → length (nodes t) ≤ aiso_size
      → Enough aiso_size fuel (length (nodes t)) acc_mark
      → IsSorted (node_before before an_value) (nodes t)
      → (i : Inserted) × (insert_from before an_value aiso_size new_node v fuel t acc_mark prev
          ≡ some i)
        × Placed before an_value trans aiso_size new_node v (nodes t) prev i
  unfolding insert_from
  insert_from-Placed zero t acc_mark prev le (inl enough) s = absurd (omega arith)
  insert_from-Placed zero t acc_mark prev le (inr (_, enough)) s = absurd (omega arith)
  insert_from-Placed (suc fuel) leaf acc_mark prev le enough s = (
    record { tree = node new_node leaf leaf; acc_mark = acc_mark; prev = prev },
    refl,
    record {
      front = [];
      back = [];
      was = refl;
      now = refl;
      after = refl;
      not_before = tt;
      all_before = tt;
    },
  )
  insert_from-Placed (suc fuel) (node an l r) acc_mark prev le enough s =
      elim (Bool-cases (before v (an_value an))) [
        | inl e ↦ elim (Bool-cases (is_node l && ltb aiso_size (count_access acc_mark))) [
          | inl m ↦
              let same = nodes-turn_right an l r in
              let (i, q, p) =
                insert_from-Placed fuel (turn_right an l r) 1 prev (rw same le)
                  (rw same (Enough-rotation aiso_size fuel _ acc_mark (is_node l) (two_l) m enough))
                  (subst (IsSorted (node_before before an_value)) (sym same) s) in
              (
                i,
                rw (e, m, insert_from) q,
                subst (λ o. Placed before an_value trans aiso_size new_node v o prev i) same p,
              )
          | inr m ↦
              let (i, q, p) =
                insert_from-Placed fuel l (count_access acc_mark) prev (omega (arith, le, size))
                  (Enough-child aiso_size fuel _ _ acc_mark _ (omega (arith, size)) enough)
                  (IsSorted-left before an_value (nodes l) (an ∷ nodes r) s) in
              (
                record i { tree = node an i.tree r },
                rw (e, m, insert_from) (rw q refl),
                in_left before an_value trans aiso_size new_node v an l r prev i s e p,
              )
        ]
        | inr e ↦ elim (Bool-cases (is_node r && ltb aiso_size (count_access acc_mark))) [
          | inl m ↦
              let same = nodes-turn_left an l r in
              let (i, q, p) =
                insert_from-Placed fuel (turn_left an l r) 1 an (rw same le)
                  (rw same (Enough-rotation aiso_size fuel _ acc_mark (is_node r) (two_r) m enough))
                  (subst (IsSorted (node_before before an_value)) (sym same) s) in
              (
                i,
                rw (e, m, insert_from) q,
                after_turn before an_value trans aiso_size new_node v an l r prev i e
                    (subst (λ o. Placed before an_value trans aiso_size new_node v o an i) same p),
              )
          | inr m ↦
              let (i, q, p) =
                insert_from-Placed fuel r (count_access acc_mark) an (omega (arith, le, size))
                  (Enough-child aiso_size fuel _ _ acc_mark _ (omega (arith, size)) enough)
                  (IsSorted-right before an_value (nodes l) (an ∷ nodes r) s).1 in
              (
                record i { tree = node an l i.tree },
                rw (e, m, insert_from) (rw q refl),
                in_right before an_value trans aiso_size new_node v an l r prev i s e p,
              )
        ]
      ]
    where
      size : length (nodes (node an l r)) ≡ length (nodes l) + length (nodes r) + 1
      size = node_length an l r

      two_l : is_node l ≡ true → 2 ≤ aiso_size
      two_l e = omega (arith, le, size, is_node-length l e)

      two_r : is_node r ≡ true → 2 ≤ aiso_size
      two_r e = omega (arith, le, size, is_node-length r e)
