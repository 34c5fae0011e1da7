-- ===== src/Language.antt =====
-- sim/sim_2_89/language.h: what the comparison asks of a language. The modules *lang.l supply it;
-- sim/sim_2_89/language.c is a dummy that aborts.
use run_server.Base.{ℕ, ◌≤◌, Bool}

-- `Best_Run_Size(str, size)` is given the tokens from `str` on; it "may reject it or may cut its
-- tail", so what it answers is at most `size`.
pub record Language : Type 0 where
  pub may_be_start_of_run : ℕ → Bool
  pub best_run_size : (ℕ → ℕ) → ℕ → ℕ
  pub best_run_size-le : (p : ℕ → ℕ) (size : ℕ) → best_run_size p size ≤ size
