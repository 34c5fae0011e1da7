-- ===== src/Aiso/Links.antt =====
-- The list through the nodes: what InsertAiso does to it, and what the iterator reads from it.
use run_server.Base.{
  ℕ, zero, suc, ◌+◌, ◌≤◌, ◌<◌, ◌≡◌, ◌≢◌, refl, sym, ap, ap₂, subst, ◌∙◌, List, [], ◌∷◌, ◌++◌, map,
  length, ◌==◌, false, update, update_eq, update_ne, arith,
}
use run_server.Aiso.{Aiso, items_from}
use run_server.Aiso.Order.{last_or}

-- From `p` on, `an_next` leads through the nodes of the list, to 0.
abbrev pub Chain : (ℕ → ℕ) → ℕ → List ℕ → Type 0
Chain next p [] = p ≡ 0
Chain next p (x ∷ l) = (p ≡ x) × (0 < x) × Chain next (next x) l

abbrev pub NotIn : ℕ → List ℕ → Type 0
NotIn x [] = Unit
NotIn x (y ∷ l) = (x ≢ y) × NotIn x l

abbrev pub Distinct : List ℕ → Type 0
Distinct [] = Unit
Distinct (x ∷ l) = NotIn x l × Distinct l

abbrev pub AllUpTo : ℕ → List ℕ → Type 0
AllUpTo n [] = Unit
AllUpTo n (x ∷ l) = (x ≤ n) × AllUpTo n l

pub AllUpTo-NotIn : (n : ℕ) (l : List ℕ) → AllUpTo n l → NotIn (n + 1) l
AllUpTo-NotIn n [] a = tt
AllUpTo-NotIn n (x ∷ l) (le, a) = (λ e. absurd (omega (arith, e)), AllUpTo-NotIn n l a)

pub AllUpTo-insert :
    (n : ℕ) (front back : List ℕ)
    → AllUpTo n (front ++ back)
    → AllUpTo (n + 1) (front ++ ((n + 1) ∷ back))
AllUpTo-insert n [] back a = (omega arith, grow back a)
  where
    grow : (l : List ℕ) → AllUpTo n l → AllUpTo (n + 1) l
    grow [] a = tt
    grow (x ∷ l) (le, a) = (omega arith, grow l a)
AllUpTo-insert n (x ∷ front) back (le, a) = (omega arith, AllUpTo-insert n front back a)

NotIn-insert :
    (x y : ℕ) (front back : List ℕ)
    → x ≢ y
    → NotIn x (front ++ back)
    → NotIn x (front ++ (y ∷ back))
NotIn-insert x y [] back ne n = (ne, n)
NotIn-insert x y (z ∷ front) back ne (m, n) = (m, NotIn-insert x y front back ne n)

pub Distinct-insert :
    (x : ℕ) (front back : List ℕ)
    → NotIn x (front ++ back)
    → Distinct (front ++ back)
    → Distinct (front ++ (x ∷ back))
Distinct-insert x [] back n d = (n, d)
Distinct-insert x (y ∷ front) back (ne, n) (m, d) =
    (NotIn-insert y x front back (λ e. ne (sym e)) m, Distinct-insert x front back n d)

pub Chain-update :
    (next : ℕ → ℕ) (x v p : ℕ) (l : List ℕ)
    → NotIn x l
    → Chain next p l
    → Chain (update next x v) p l
Chain-update next x v p [] n c = c
Chain-update next x v p (y ∷ l) (ne, n) (e, pos, c) = (
  e,
  pos,
  subst (λ q. Chain (update next x v) q l) (sym (update_ne next x y v ne))
      (Chain-update next x v (next y) l n c),
)

NotIn-right : (x : ℕ) (l k : List ℕ) → NotIn x (l ++ k) → NotIn x k
NotIn-right x [] k n = n
NotIn-right x (y ∷ l) k (ne, n) = NotIn-right x l k n

NotIn-last_or : (x y : ℕ) (l k : List ℕ) → NotIn x (y ∷ (l ++ k)) → x ≢ last_or y l
NotIn-last_or x y [] k (ne, n) = ne
NotIn-last_or x y (z ∷ l) k (ne, n) = NotIn-last_or x z l k n

-- `new_node->an_next = *prev; *prev = new_node;` behind the last node of `x ∷ front`.
pub Chain-insert :
    (next : ℕ → ℕ) (new_node p x : ℕ) (front back : List ℕ)
    → 0 < new_node
    → NotIn new_node (x ∷ (front ++ back))
    → Distinct (x ∷ (front ++ back))
    → Chain next p (x ∷ (front ++ back))
    → Chain
        (update (update next new_node (next (last_or x front))) (last_or x front) new_node)
        p
        (x ∷ (front ++ (new_node ∷ back)))
Chain-insert next new_node p x [] back pos (fresh, n) (m, d) (e, px, c) = (
  e,
  px,
  (
    update_eq (update next new_node (next x)) x x new_node refl,
    pos,
    subst (λ q. Chain (update (update next new_node (next x)) x new_node) q back)
        (sym (
          update_ne (update next new_node (next x)) x new_node new_node (λ f. fresh (sym f))
          ∙ update_eq next new_node new_node (next x) refl))
        (Chain-update _ x new_node (next x) back m
          (Chain-update next new_node _ (next x) back n c)),
  ),
)
Chain-insert next new_node p x (y ∷ front) back pos (fresh, n) (m, d) (e, px, c) = (
  e,
  px,
  subst
      (λ q.
        Chain (update (update next new_node (next (last_or y front))) (last_or y front) new_node) q
          (y ∷ (front ++ (new_node ∷ back))))
      (sym (
        update_ne (update next new_node (next (last_or y front))) (last_or y front) x new_node
          (λ f. NotIn-last_or x y front back m (sym f))
        ∙ update_ne next new_node x (next (last_or y front)) fresh))
      (Chain-insert next new_node (next x) y front back pos n d c),
)

-- The last node of a chain is not null.
pub last_or-pos :
    (next : ℕ → ℕ) (p x : ℕ) (front back : List ℕ)
    → Chain next p (x ∷ (front ++ back))
    → 0 < last_or x front
last_or-pos next p x [] back (e, pos, c) = pos
last_or-pos next p x (y ∷ front) back (e, pos, c) = last_or-pos next (next x) y front back c

module _ {ℓ} {A : Type ℓ} where
  -- The iterator reads the values of the chain.
  pub items_from-map :
      (s : Aiso A) (fuel p : ℕ) (l : List ℕ)
      → length l ≤ fuel
      → Chain s.an_next p l
      → items_from s fuel p ≡ map s.an_value l
  unfolding items_from
  items_from-map s zero p [] le c = refl
  items_from-map s zero p (x ∷ l) le c = absurd (omega arith)
  items_from-map s (suc fuel) p [] le c = ground (arith, c)
  items_from-map s (suc fuel) p (x ∷ l) le (e, pos, c) =
      let more : (p == 0) ≡ false = ground arith in
      rw more (
        ap₂ ◌∷◌ (ap s.an_value e) (
          items_from-map s fuel (s.an_next p) l (omega arith)
            (subst (λ q. Chain s.an_next (s.an_next q) l) (sym e) c)))

  pub map-update :
      (f : ℕ → A) (x : ℕ) (v : A) (l : List ℕ) → NotIn x l → map (update f x v) l ≡ map f l
  map-update f x v [] n = refl
  map-update f x v (y ∷ l) (ne, n) = ap₂ ◌∷◌ (update_ne f x y v ne) (map-update f x v l n)
