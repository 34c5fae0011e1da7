-- ===== src/AddRun.antt =====
-- sim/sim_2_89/add_run.c and runs.h: a run is stored, with its positions in its texts. A text is given by
-- its index, and a struct position by its number in the order in which they are set.
pub mod Positions
pub mod Compared
use run_server.Base.{
  ℕ, zero, suc, ◌+◌, ◌-◌, ◌^◌, Bool, List, [], ◌∷◌, Option, none, some, update, get_elem?, set,
  ◌>>=◌,
}
use run_server.Text.{Text, Position}

-- `struct chunk`
pub record Chunk : Type 0 where
  pub ch_text : ℕ
  pub ch_first : ℕ
  pub ch_last : ℕ

-- `struct run`
pub record Run : Type 0 where
  pub rn_chunk0 : Chunk
  pub rn_chunk1 : Chunk
  pub rn_size : ℕ

-- `Text[]`, and the positions, of which `n_positions` are in use.
pub record Places : Type 0 where
  pub texts : List Text
  pub positions : ℕ → Position
  pub n_positions : ℕ

-- `set_pos`, for the next position; `none` is an access past the end of `Text[]`.
unfoldable pub set_pos : ℕ → ℕ → ℕ → Places → Option Places
set_pos ps_type txt start s = do
  t ← get_elem? s.texts txt
  some (record {
    texts = set s.texts txt (record t { tx_pos = s.n_positions ∷ t.tx_pos });
    positions =
        update s.positions s.n_positions
          (record { ps_type = ps_type; ps_tk_cnt = start; ps_nl_cnt = 2 ^ 64 - 1 });
    n_positions = s.n_positions + 1;
  })

unfoldable pub set_chunk : ℕ → ℕ → ℕ → Places → Option (Chunk × Places)
set_chunk txt start size s = do
  s1 ← set_pos 0 txt start s
  s2 ← set_pos 1 txt (start + size - 1) s1
  some (record { ch_text = txt; ch_first = s.n_positions; ch_last = s1.n_positions }, s2)

-- `add_run`, up to the call of add_to_percentages or add_to_runs, which take the run.
unfoldable pub make_run : ℕ → ℕ → ℕ → ℕ → ℕ → Places → Option (Run × Places)
make_run txt0 i0 txt1 i1 size s = do
  t0 ← get_elem? s.texts txt0
  (chunk0, s1) ← set_chunk txt0 (i0 - t0.tx_start) size s
  t1 ← get_elem? s1.texts txt1
  (chunk1, s2) ← set_chunk txt1 (i1 - t1.tx_start) size s1
  some (record { rn_chunk0 = chunk0; rn_chunk1 = chunk1; rn_size = size }, s2)
