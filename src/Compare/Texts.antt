-- ===== src/Compare/Texts.antt =====
-- The pointer `txt1` of `lcs` keeps up with the position `i1`.
use run_server.Base.{
  ℕ, zero, suc, ◌+◌, ◌≤◌, ◌<◌, ◌≡◌, ◌≢◌, inl, inr, refl, sym, true, false, List, [], ◌∷◌, some, leb,
  Bool-cases, if◌then◌else◌, get_elem?, drop, arith,
}
use run_server.Text.{Text, Ordered, FitsIn, Ordered-le}
use run_server.Compare.{Cursor, bump}

-- The text that a position lies in is the first one that ends after it: its limit (0 if there is
-- none), and its index.
abbrev pub limit_at : List Text → ℕ → ℕ
limit_at [] q = 0
limit_at (t ∷ ts) q = if leb t.tx_limit q then limit_at ts q else t.tx_limit

abbrev pub index_at : List Text → ℕ → ℕ
index_at [] q = 0
index_at (t ∷ ts) q = if leb t.tx_limit q then suc (index_at ts q) else 0

-- From position `i` on, the texts at the pointer are those of the whole array.
pub record Follows (texts : List Text) (i : ℕ) (c : Cursor) : Type 0 where
  pub limit : (q : ℕ) → i ≤ q → limit_at c.rest q ≡ limit_at texts q
  pub index : (q : ℕ) → i ≤ q → c.index + index_at c.rest q ≡ index_at texts q

pub Follows-le :
    {texts : List Text} {c : Cursor} (i j : ℕ) → i ≤ j → Follows texts i c → Follows texts j c
Follows-le i j le f = record {
  limit = λ q l. f.limit q (omega arith);
  index = λ q l. f.index q (omega arith);
}

-- The loop stops at the text of the position.
pub bump-Follows :
    (texts : List Text) (i1 index : ℕ) (rest : List Text)
    → Follows texts i1 (record { index = index; rest = rest })
    → limit_at texts i1 ≢ 0
    → (c : Cursor) × (bump i1 index rest ≡ some (limit_at texts i1, c))
      × (c.index ≡ index_at texts i1)
      × Follows texts i1 c
unfolding bump
bump-Follows texts i1 index [] f ne = absurd (ne (sym (f.limit i1 (omega arith))))
bump-Follows texts i1 index (t ∷ ts) f ne = elim (Bool-cases (leb t.tx_limit i1)) [
  | inl e ↦
      let (c, e', k, g) = bump-Follows texts i1 (index + 1) ts (later e) ne in (c, rw e e', k, g)
  | inr e ↦ (
    record { index = index; rest = t ∷ ts },
    ground (arith, f.limit i1 (omega arith)),
    ground (arith, f.index i1 (omega arith)),
    f,
  )
]
  where
    later : leb t.tx_limit i1 ≡ true → Follows texts i1 (record { index = index + 1; rest = ts })
    later e = record {
      limit = λ q l. ground (arith, f.limit q l);
      index = λ q l. ground (arith, f.index q l);
    }

-- A run that fits in a text lies before the limit of the text of its first position.
pub FitsIn-limit :
    (m b n q : ℕ) (texts : List Text)
    → 0 < m
    → Ordered b texts n
    → FitsIn m q texts
    → (b ≤ q) × (q + m ≤ limit_at texts q) × (limit_at texts q ≤ n)
FitsIn-limit m b n q [] pm o f = absurd f
FitsIn-limit m b n q (t ∷ ts) pm (l, k, o) (inl (x, y)) =
    (omega arith, ground arith, ground (arith, Ordered-le t.tx_limit n ts o))
FitsIn-limit m b n q (t ∷ ts) pm (l, k, o) (inr f) =
    ground (arith, FitsIn-limit m t.tx_limit n q ts pm o f)

-- `&Text[k]`
abbrev pub text_at : List Text → ℕ → Cursor
text_at texts k = record { index = k; rest = drop k texts }

-- The texts before the one of the position end before it.
dropped :
    (texts : List Text) (k b n q : ℕ) {t : Text}
    → Ordered b texts n
    → get_elem? texts k ≡ some t
    → t.tx_start ≤ q
    → (b ≤ q)
      × (limit_at (drop k texts) q ≡ limit_at texts q)
      × (k + index_at (drop k texts) q ≡ index_at texts q)
dropped [] k b n q o e le = cc
dropped (t ∷ ts) zero b n q o e le = (ground arith, refl, omega arith)
dropped (t ∷ ts) (suc k) b n q (l, k', o) e le = ground (arith, dropped ts k t.tx_limit n q o e le)

pub text_at-Follows :
    (texts : List Text) (k b n i : ℕ) {t : Text}
    → Ordered b texts n
    → get_elem? texts k ≡ some t
    → t.tx_start ≤ i
    → Follows texts i (text_at texts k)
text_at-Follows texts k b n i o e le = record {
  limit = λ q l. (dropped texts k b n q o e (omega arith)).1;
  index = λ q l. (dropped texts k b n q o e (omega arith)).2;
}

-- The text of a position, in an ordered array.
pub index_at-text :
    (m b n q : ℕ) (texts : List Text)
    → 0 < m
    → Ordered b texts n
    → FitsIn m q texts
    → (t : Text) × (get_elem? texts (index_at texts q) ≡ some t)
      × (t.tx_start ≤ q)
      × (t.tx_limit ≡ limit_at texts q)
index_at-text m b n q [] pm o f = absurd f
index_at-text m b n q (t ∷ ts) pm (l, k, o) (inl (x, y)) =
    let here : leb t.tx_limit q ≡ false = ground arith in (t, rw here, x, rw here)
index_at-text m b n q (t ∷ ts) pm (l, k, o) (inr f) =
    let (u, e, s, e') = index_at-text m t.tx_limit n q ts pm o f in
    let (le, _, _) = FitsIn-limit m t.tx_limit n q ts pm o f in
    let past : leb t.tx_limit q ≡ true = ground arith in (u, rw past e, s, rw past e')

pub le-index_at :
    (texts : List Text) (k b n q : ℕ) {t : Text}
    → Ordered b texts n
    → get_elem? texts k ≡ some t
    → t.tx_start ≤ q
    → k ≤ index_at texts q
le-index_at texts k b n q o e le = omega (arith, (dropped texts k b n q o e le).2)

pub index_at-le :
    (texts : List Text) (k q : ℕ) {t : Text}
    → get_elem? texts k ≡ some t
    → q < t.tx_limit
    → index_at texts q ≤ k
index_at-le [] k q e lt = cc
index_at-le (t ∷ ts) zero q e lt = ground arith
index_at-le (t ∷ ts) (suc k) q e lt = ground (arith, index_at-le ts k q e lt)

pub FitsIn-get :
    (texts : List Text) (k m q : ℕ) {t : Text}
    → get_elem? texts k ≡ some t
    → 0 < m
    → t.tx_start ≤ q
    → q + m ≤ t.tx_limit
    → FitsIn m q texts
FitsIn-get [] k m q e pm l r = cc
FitsIn-get (t ∷ ts) zero m q e pm l r = inl (ground arith, ground arith)
FitsIn-get (t ∷ ts) (suc k) m q e pm l r = inr (FitsIn-get ts k m q e pm l r)

pub Ordered-get :
    (texts : List Text) (k b n : ℕ) {t : Text}
    → Ordered b texts n
    → get_elem? texts k ≡ some t
    → (t.tx_start ≤ t.tx_limit) × (t.tx_limit ≤ n)
Ordered-get [] k b n o e = cc
Ordered-get (t ∷ ts) zero b n (l, k, o) e = ground (arith, Ordered-le t.tx_limit n ts o)
Ordered-get (t ∷ ts) (suc k) b n (l, k', o) e = Ordered-get ts k t.tx_limit n o e
