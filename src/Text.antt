-- ===== src/Text.antt =====
-- sim/sim_2_89/text.h: the descriptors of the input files, and where their tokens lie.
use run_server.Base.{ℕ, ◌+◌, ◌-◌, ◌≤◌, ◌<◌, ◌⊎◌, inl, inr, Bool, List, [], ◌∷◌, arith}

-- `struct text`. A file name is its pointer, and so is a position on the list `tx_pos`: a number.
pub record Text : Type 0 where
  pub tx_fname : ℕ
  pub tx_start : ℕ
  pub tx_limit : ℕ
  pub tx_nl_start : ℕ
  pub tx_nl_limit : ℕ
  pub tx_eol_terminated : Bool
  pub tx_pos : List ℕ

-- `struct position`, with `ps_next` in the list that holds it.
pub record Position : Type 0 where
  pub ps_type : ℕ
  pub ps_tk_cnt : ℕ
  pub ps_nl_cnt : ℕ

-- The texts lie one after another in the token array, from position `b` up to `n`.
abbrev pub Ordered : ℕ → List Text → ℕ → Type 0
Ordered b [] n = b ≤ n
Ordered b (t ∷ ts) n = (b ≤ t.tx_start) × (t.tx_start ≤ t.tx_limit) × Ordered t.tx_limit ts n

-- A run of `len` tokens that starts at `q` stays inside one of the texts.
abbrev pub FitsIn : ℕ → ℕ → List Text → Type 0
FitsIn len q [] = ⊥
FitsIn len q (t ∷ ts) = ((t.tx_start ≤ q) × (q + len - 1 < t.tx_limit)) ⊎ FitsIn len q ts

pub Ordered-le : (b n : ℕ) (ts : List Text) → Ordered b ts n → b ≤ n
Ordered-le b n [] o = o
Ordered-le b n (t ∷ ts) (l, k, o) = omega (arith, Ordered-le t.tx_limit n ts o)

-- Such a run ends at or before the end of the token array.
pub FitsIn-end : (m b n q : ℕ) (ts : List Text) → 0 < m → Ordered b ts n → FitsIn m q ts → q + m ≤ n
FitsIn-end m b n q [] pm o f = absurd f
FitsIn-end m b n q (t ∷ ts) pm (l, k, o) (inl (x, y)) = omega (arith, Ordered-le t.tx_limit n ts o)
FitsIn-end m b n q (t ∷ ts) pm (l, k, o) (inr f) = FitsIn-end m t.tx_limit n q ts pm o f
