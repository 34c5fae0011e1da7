-- ===== src/Hash/Codes.antt =====
-- The hash codes look only at the tokens of the run.
use run_server.Base.{ℕ, zero, suc, ◌+◌, ◌-◌, ◌*◌, ◌≤◌, ◌<◌, ◌≡◌, refl, arith}
use run_server.Hash.{n_samples, sample_pos, hash1_from, hash1, hash2}

-- Every sample lies inside the run.
pub sample_pos-lt :
    (min_run_size n : ℕ)
    → 0 < min_run_size
    → n < n_samples
    → sample_pos min_run_size n < min_run_size
unfolding sample_pos
sample_pos-lt m n h k = omega (arith, product)
  where
    product : n * (m - 1) ≤ 23 * (m - 1)
    product = grind arith

-- Two runs of `m` equal tokens.
abbrev pub SameRun : ℕ → (ℕ → ℕ) → (ℕ → ℕ) → Type 0
SameRun m p q = (k : ℕ) → k < m → p k ≡ q k

module _ (m : ℕ) (pos : 0 < m) (p q : ℕ → ℕ) (same : SameRun m p q) where
  sample-eq : (n : ℕ) → n < n_samples → p (sample_pos m n) ≡ q (sample_pos m n)
  sample-eq n h = same (sample_pos m n) (sample_pos-lt m n pos h)

  hash1_from-eq :
      (rounds n h_val : ℕ)
      → n + rounds ≤ n_samples
      → hash1_from m p rounds n h_val ≡ hash1_from m q rounds n h_val
  unfolding hash1_from
  hash1_from-eq zero n h_val le = refl
  hash1_from-eq (suc rounds) n h_val le =
      rw (sample-eq n (omega arith)) (hash1_from-eq rounds (n + 1) _ (omega arith))

  pub hash1-eq : hash1 m p ≡ hash1 m q
  unfolding hash1
  hash1-eq = hash1_from-eq n_samples 0 0 (omega arith)

  pub hash2-eq : hash2 m p ≡ hash2 m q
  unfolding hash2
  hash2-eq = rw (
    sample-eq 0 (omega arith),
    sample-eq 23 (omega arith),
    sample-eq 11 (omega arith),
    sample-eq 5 (omega arith),
    sample-eq 17 (omega arith),
  )
