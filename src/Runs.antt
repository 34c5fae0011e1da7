-- ===== src/Runs.antt =====
-- sim/sim_2_89/runs.c: the set of runs, ordered by size. A run is given by its pointer, a number.
pub mod Largest
use run_server.Base.{ℕ, Bool, true, false, Option, none, some, ltb}
use run_server.AddRun.{Run}
use run_server.Aiso.{Aiso, insert_aiso}

-- AISO_BEFORE
abbrev pub run_before : (ℕ → Run) → ℕ → ℕ → Bool
run_before run r0 r1 = ltb (run r1).rn_size (run r0).rn_size

-- The variables of the set, and `aiso_overflow`, which is set with the message on it.
pub record RunSet : Type 0 where
  pub aiso : Aiso ℕ
  pub aiso_overflow : Bool

-- `add_to_runs`, where `memory` says whether there is memory for a node.
unfoldable pub add_to_runs : (ℕ → Run) → Bool → ℕ → RunSet → Option RunSet
add_to_runs run false r s = some (record s { aiso_overflow = true })
add_to_runs run true r s = elim (insert_aiso (run_before run) r s.aiso) [
  | none ↦ none
  | some aiso ↦ some (record s { aiso = aiso })
]
