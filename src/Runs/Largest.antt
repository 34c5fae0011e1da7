-- ===== src/Runs/Largest.antt =====
-- The runs come out with the largest first.
use run_server.Base.{ℕ, Bool, true, false, List, [], ◌∷◌, Option, some, ◌>>=◌}
use run_server.AddRun.{Run}
use run_server.Aiso.{Aiso}
use run_server.Runs.{RunSet, add_to_runs}

module _ (run : ℕ → Run) where
  -- Calls of add_to_runs, with or without memory, and the runs for which there is memory.
  abbrev pub add_runs : List (Bool × ℕ) → RunSet → Option RunSet
  add_runs [] s = some s
  add_runs ((memory, r) ∷ rs) s = do s' ← add_to_runs run memory r s; add_runs rs s'

  abbrev pub runs_kept : List (Bool × ℕ) → List ℕ
  runs_kept [] = []
  runs_kept ((true, r) ∷ rs) = r ∷ runs_kept rs
  runs_kept ((false, r) ∷ rs) = runs_kept rs
