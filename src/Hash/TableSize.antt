-- ===== src/Hash/TableSize.antt =====
-- `init_hash_table` finds a size for the hash table.
use run_server.Base.{
  ℕ, zero, suc, ◌+◌, ◌≤◌, ◌<◌, ◌≡◌, inl, inr, refl, Bool, true, some, List, [], ◌∷◌, ltb,
  Bool-cases, get_elem?, length, arith,
}
use run_server.Hash.{prime, ideal_index, step_down, init_hash_table}

-- The search finds an entry of the table that is not below `length`, if the last one is not.
ideal_index-total :
    (ps : List ℕ) (n i len last : ℕ)
    → get_elem? ps i ≡ some last
    → len ≤ last
    → (k : ℕ) × (ideal_index ps len n ≡ some k) × (n ≤ k) × (k ≤ n + i)
unfolding ideal_index
ideal_index-total [] n i len last e le = cc
ideal_index-total (p ∷ ps) n zero len last e le = (n, ground arith, omega arith, omega arith)
ideal_index-total (p ∷ ps) n (suc i) len last e le = elim (Bool-cases (ltb p len)) [
  | inl t ↦
      let (k, e', l, u) = ideal_index-total ps (n + 1) i len last e le in
      (k, rw t e', omega arith, omega arith)
  | inr t ↦ (n, rw t, omega arith, omega arith)
]

abbrev pub largest_prime : ℕ
largest_prime = 943899731087

abbrev AllPos : List ℕ → Type 0
AllPos [] = Unit
AllPos (x ∷ xs) = (0 < x) × AllPos xs

entry_pos :
    (xs : List ℕ) (k : ℕ)
    → AllPos xs
    → k < length xs
    → (p : ℕ) × (get_elem? xs k ≡ some p) × (0 < p)
entry_pos [] k a h = absurd (omega arith)
entry_pos (x ∷ xs) zero a h = (x, refl, a.0)
entry_pos (x ∷ xs) (suc k) a h = entry_pos xs k a.1 (omega arith)

step_down-total :
    (try_calloc : ℕ → Bool) (n : ℕ)
    → try_calloc 14051 ≡ true
    → n < length prime
    → (p : ℕ) × (step_down try_calloc (suc n) ≡ some p) × (0 < p)
unfolding step_down
step_down-total try_calloc zero t h = (14051, rw t, omega arith)
step_down-total try_calloc (suc n) t h =
    let (p, e, pos) = entry_pos prime (suc n) (omega arith) h in
    elim (Bool-cases (try_calloc p)) [
      | inl got ↦ (p, rw (e, step_down) (rw got), pos)
      | inr full ↦
          let (q, e', pos') = step_down-total try_calloc n t (omega arith) in
          (q, rw (e, step_down) (rw full e'), pos')
    ]

-- A table is found for every token array that is not larger than the largest prime, if there is
-- memory for the smallest.
pub init_hash_table-total :
    (try_calloc : ℕ → Bool) (len : ℕ)
    → try_calloc 14051 ≡ true
    → len ≤ largest_prime
    → (p : ℕ) × (init_hash_table try_calloc len ≡ some p) × (0 < p)
unfolding init_hash_table
init_hash_table-total try_calloc len t h =
    let (k, e, _, u) = ideal_index-total prime 0 26 len largest_prime refl h in
    let (p, e', pos) = step_down-total try_calloc k t (omega arith) in
    (p, rw (e, init_hash_table) e', pos)
