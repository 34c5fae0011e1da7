-- ===== src/Hash/Forward.antt =====
-- What a table of forward references promises, apart from how it is computed.
use run_server.Base.{ℕ, ◌≤◌, ◌<◌, ◌≢◌}

-- From a place `p` where a run may start (`S p`), the table leads to the next such place that is
-- `Same`, or to 0 if there is none. All such places lie between 0 and `n`.
pub record IsForward (S : ℕ → Type 0) (Same : ℕ → ℕ → Type 0) (n : ℕ) (table : ℕ → ℕ) : Type 0 where
  pub within : (q : ℕ) → S q → (0 < q) × (q < n)
  pub sound : (p : ℕ) → table p ≢ 0 → S p × S (table p) × (p < table p) × Same p (table p)
  pub next : (p q : ℕ) → S p → S q → Same p q → p < q → (table p ≢ 0) × (table p ≤ q)
