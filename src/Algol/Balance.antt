-- ===== src/Algol/Balance.antt =====
-- `largest_routine`: the counters against what they count.
use run_server.Base.{
  ℕ, zero, suc, ◌+◌, ◌-◌, ◌≤◌, ◌<◌, ◌≡◌, ◌≢◌, refl, none, some, ◌==◌, if◌then◌else◌, update,
  update_ne, arith,
}
use native.Mathlib.Decide.{ℕ_discrete}
use run_server.Algol.{Scan, open_paren, close_paren, register}

-- How many of `f 0 … f (i - 1)` are `pp`.
abbrev pub tally : (ℕ → ℕ) → ℕ → ℕ → ℕ
tally f zero pp = 0
tally f (suc i) pp = tally f i pp + (if f i == pp then 1 else 0)

-- How many of `b 0 … b (n - 1)` are not 0.
pub nonzeros : ℕ → (ℕ → ℕ) → ℕ
nonzeros zero b = 0
nonzeros (suc n) b = nonzeros n b + (if b n == 0 then 0 else 1)

pub nonzeros-update_high :
    (n p v : ℕ) (b : ℕ → ℕ) → n ≤ p → nonzeros n (update b p v) ≡ nonzeros n b
unfolding nonzeros
nonzeros-update_high zero p v b le = refl
nonzeros-update_high (suc n) p v b le =
    ground (arith, nonzeros-update_high n p v b (omega arith), update_ne b p n v (omega arith))

pub nonzeros-update :
    (n p v : ℕ) (b : ℕ → ℕ)
    → p < n
    → nonzeros n (update b p v) + (if b p == 0 then 0 else 1)
      ≡ nonzeros n b + (if v == 0 then 0 else 1)
unfolding nonzeros
nonzeros-update zero p v b lt = absurd (omega arith)
nonzeros-update (suc n) p v b lt = elim (ℕ_discrete p n) [
  | yes e ↦ ground (arith, nonzeros-update_high n p v b (omega arith), e)
  | no ne ↦ ground (arith, nonzeros-update n p v b (omega arith), update_ne b p n v ne)
]

pub nonzeros_none : (n p : ℕ) (b : ℕ → ℕ) → nonzeros n b ≡ 0 → p < n → b p ≡ 0
unfolding nonzeros
nonzeros_none zero p b e lt = absurd (omega arith)
nonzeros_none (suc n) p b e lt = elim (ℕ_discrete p n) [
  | yes at ↦ ground (arith, at)
  | no ne ↦ nonzeros_none n p b (ground arith) (omega arith)
]

pub nonzeros_all : (n : ℕ) (b : ℕ → ℕ) → ((p : ℕ) → p < n → b p ≡ 0) → nonzeros n b ≡ 0
unfolding nonzeros
nonzeros_all zero b h = refl
nonzeros_all (suc n) b h =
    ground (arith, nonzeros_all n b (λ p lt. h p (omega arith)), h n (omega arith))

-- The counter of the imbalances is right, and no parenthesis has the number 0.
pub record IsCounted (s : Scan) : Type 0 where
  pub imbalances : s.n_imbalances ≡ nonzeros 512 s.balance_count
  pub unused : s.balance_count 0 ≡ 0

module _ (pp : ℕ) (lt : pp < 512) (s : Scan) (c : IsCounted s) where
  pub open_paren-IsCounted : IsCounted (open_paren pp s)
  unfolding open_paren
  open_paren-IsCounted = ground (
    arith,
    c.imbalances,
    c.unused,
    nonzeros-update 512 pp (s.balance_count pp + 1) s.balance_count lt,
  )

  pub open_paren-balance :
      (p : ℕ)
      → p ≢ 0
      → (open_paren pp s).balance_count p ≡ s.balance_count p + (if pp == p then 1 else 0)
  unfolding open_paren
  open_paren-balance p ne = ground arith

  pub close_paren-IsCounted : {s' : Scan} → close_paren pp s ≡ some s' → IsCounted s'
  unfolding close_paren
  close_paren-IsCounted e = ground (
    arith,
    c.imbalances,
    c.unused,
    nonzeros-update 512 pp (s.balance_count pp - 1) s.balance_count lt,
  )

  pub close_paren-balance :
      {s' : Scan} (p : ℕ)
      → close_paren pp s ≡ some s'
      → p ≢ 0
      → s'.balance_count p + (if pp == p then 1 else 0) ≡ s.balance_count p
  unfolding close_paren
  close_paren-balance p e ne = ground arith

  pub close_paren-none : close_paren pp s ≡ none → (pp ≢ 0) × (s.balance_count pp ≡ 0)
  unfolding close_paren
  close_paren-none e = (ground arith, ground arith)

  pub close_paren-some : {s' : Scan} → close_paren pp s ≡ some s' → pp ≢ 0 → 0 < s.balance_count pp
  unfolding close_paren
  close_paren-some e ne = ground arith

-- The balance point stays what it was.
pub open_paren_mrb : (pp : ℕ) (s : Scan) → (open_paren pp s).mrb_size ≡ s.mrb_size
unfolding open_paren
open_paren_mrb pp s = ground arith

pub close_paren_mrb :
    (pp : ℕ) (s : Scan) {s' : Scan} → close_paren pp s ≡ some s' → s'.mrb_size ≡ s.mrb_size
unfolding close_paren
close_paren_mrb pp s e = ground arith

-- `register` changes the balance point alone.
pub register_zero :
    (pos : ℕ) (s : Scan) → s.n_imbalances ≡ 0 → register pos s ≡ record s { mrb_size = pos + 1 }
unfolding register
register_zero pos s z = ground arith

pub register_other : (pos : ℕ) (s : Scan) → s.n_imbalances ≢ 0 → register pos s ≡ s
unfolding register
register_other pos s ne = ground arith
