-- ===== src/Tests/Runs.antt =====
-- The sorted set of runs, and the token array.
use mathlib.Core.List.{Perm}
use run_server.Base.{
  ℕ, ◌<◌, ◌^◌, ◌≡◌, refl, Bool, true, false, List, [], ◌∷◌, some, ltb, zeros, arith,
}
use mathlib.Core.Option
use run_server.AddRun.{Chunk, Run}
use run_server.SortList.Laws.{IsSorted}
use run_server.Aiso.{Aiso, insert_from, insert_aiso, items_from, items, no_items}
use run_server.TokenArray.{TokenArray, init_token_array}
use run_server.Aiso.Sorted.{insert_all_sorted}
use run_server.Aiso.Items.{insert_all, insert_all-items, insert_all-IsSorted}

-- `AISO_BEFORE` of runs.c, on sizes.
abbrev larger : ℕ → ℕ → Bool
larger r0 r1 = ltb r1 r0

larger_asym : (x y : ℕ) → larger x y ≡ true → larger y x ≡ false
larger_asym x y e = ground arith

larger_trans : (x y z : ℕ) → larger y x ≡ false → larger z y ≡ false → larger z x ≡ false
larger_trans x y z e f = ground arith

abbrev sizes : List ℕ
sizes = 24 ∷ 30 ∷ 26 ∷ 24 ∷ 28 ∷ 35 ∷ []

insert_all-items_example :
    (s : Aiso ℕ) × (insert_all larger larger_asym larger_trans sizes (no_items zeros) ≡ some s)
    × (items s ≡ insert_all_sorted larger sizes [])
insert_all-items_example = insert_all-items larger larger_asym larger_trans zeros sizes

insert_all-IsSorted_example :
    (s : Aiso ℕ) × (insert_all larger larger_asym larger_trans sizes (no_items zeros) ≡ some s)
    × Perm (items s) sizes
    × IsSorted larger (items s)
insert_all-IsSorted_example = insert_all-IsSorted larger larger_asym larger_trans zeros sizes

in_order :
    Option.map
      (λ (s : Aiso ℕ). items s)
      (insert_all larger larger_asym larger_trans sizes (no_items zeros))
    ≡ some (35 ∷ 30 ∷ 28 ∷ 26 ∷ 24 ∷ 24 ∷ [])
unfolding insert_aiso insert_from items items_from
in_order = refl

all_below : (size : ℕ) → size < 2 ^ 63 → ltb size (2 ^ 63) ≡ true
all_below size lt = ground arith

abbrev start : TokenArray
start = init_token_array zeros

abbrev no_chunk : Chunk
no_chunk = record { ch_text = 0; ch_first = 0; ch_last = 0 }

-- Run `p` has `p` tokens.
abbrev run_of : ℕ → Run
run_of p = record { rn_chunk0 = no_chunk; rn_chunk1 = no_chunk; rn_size = p }

abbrev added : List (Bool × ℕ)
added = (true, 24) ∷ (true, 30) ∷ (false, 40) ∷ (true, 26) ∷ []
