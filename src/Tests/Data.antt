-- ===== src/Tests/Data.antt =====
-- Two texts, `7 8 9` and `7 8 9 7`, with their tokens from position 1 on, and a language that
-- accepts every run.
use run_server.Base.{ℕ, ◌≤◌, Bool, true, false, List, [], ◌∷◌, get_or, arith}
use run_server.Text.{Text, Ordered}
use run_server.Language.{Language}
use run_server.Compare.{CompareOptions}

abbrev pub token_array : ℕ → ℕ
token_array i = get_or (0 ∷ 7 ∷ 8 ∷ 9 ∷ 7 ∷ 8 ∷ 9 ∷ 7 ∷ []) i 0

abbrev pub text : ℕ → ℕ → ℕ → Text
text fname start limit = record {
  tx_fname = fname;
  tx_start = start;
  tx_limit = limit;
  tx_nl_start = 0;
  tx_nl_limit = 0;
  tx_eol_terminated = true;
  tx_pos = [];
}

abbrev pub texts : List Text
texts = text 100 1 4 ∷ text 101 4 8 ∷ []

pub texts-Ordered : Ordered 1 texts 8
texts-Ordered = omega arith

abbrev pub any_token : ℕ → Bool
any_token t = true

pub any_token-le : (p : ℕ → ℕ) (size : ℕ) → size ≤ size
any_token-le p size = omega arith

abbrev pub any_run : Language
any_run = record {
  may_be_start_of_run = any_token;
  best_run_size = λ p size. size;
  best_run_size-le = any_token-le;
}

-- Memory without end.
abbrev pub plenty : ℕ → Bool
plenty size = true

abbrev pub to_others : CompareOptions
to_others = record { old_only = false; not_self = true; each = true }
