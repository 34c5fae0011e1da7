-- ===== src/Hash.antt =====
-- sim/sim_2_89/hash.c: the table of forward references. For each position of the token array it
-- holds the next position where a run of `Min_Run_Size` tokens with the same hash code starts.
pub mod Codes
pub mod Links
pub mod Scan
pub mod Forward
pub mod Clean
pub mod TableSize
pub mod Chains
use Prim.Native.Nat.{bit_and, bit_or, bit_xor}
use run_server.Base.{
  ℕ, zero, suc, ◌+◌, ◌-◌, ◌*◌, ◌/◌, ◌%◌, ◌^◌, Bool, List, [], ◌∷◌, Option, none, some, ltb, leb,
  not, ◌&&◌, ◌==◌, if◌then◌else◌, update, zeros, get_elem?,
}
use run_server.Text.{Text}

abbrev pub n_samples : ℕ
n_samples = 24

-- The table `prime[]` with the entries that are compiled in.
abbrev pub prime : List ℕ
prime =
    14051 ∷ 28111 ∷ 56239 ∷ 112507 ∷ 225023 ∷ 450067 ∷ 900139 ∷ 1800311 ∷ 3600659 ∷ 7201351
    ∷ 14402743 ∷ 28805519 ∷ 57611039 ∷ 115222091 ∷ 230444239 ∷ 460888499 ∷ 921777067 ∷ 1843554151
    ∷ 3687108307 ∷ 7374216631 ∷ 14748433279 ∷ 29496866579 ∷ 58993733159 ∷ 117987466379
    ∷ 235974932759 ∷ 471949865531 ∷ 943899731087 ∷ []

-- `while (prime[n] < Token_Array_Length()) n++`, from the rest of the table at index `n`; `none`
-- is a read past the end of the table.
unfoldable pub ideal_index : List ℕ → ℕ → ℕ → Option ℕ
ideal_index [] length n = none
ideal_index (p ∷ ps) length n = if ltb p length then ideal_index ps length (n + 1) else some n

-- The allocation loop, with `k` for `n + 1`: `try_calloc` says whether a table of that size can
-- be had. `none` is the call of `fatal`.
unfoldable pub step_down : (ℕ → Bool) → ℕ → Option ℕ
step_down try_calloc zero = none
step_down try_calloc (suc n) = elim (get_elem? prime n) [
  | none ↦ none
  | some p ↦ if try_calloc p then some p else step_down try_calloc n
]

-- `init_hash_table`: the size of the table `last_index`.
unfoldable pub init_hash_table : (ℕ → Bool) → ℕ → Option ℕ
unfolding ideal_index step_down
init_hash_table try_calloc length = elim (ideal_index prime length 0) [
  | none ↦ none
  | some n ↦ step_down try_calloc (suc n)
]

-- `sample_pos[n]`
unfoldable pub sample_pos : ℕ → ℕ → ℕ
sample_pos min_run_size n = (2 * n * (min_run_size - 1) + (n_samples - 1)) / (2 * (n_samples - 1))

-- One round of `hash1`: the circular left shift over the low 31 bits of a `uint32_t`.
unfoldable pub rotate : ℕ → ℕ
rotate h_val =
    let shifted = (h_val * 2) % 2 ^ 32 in
    if bit_and shifted (2 ^ 31) == 0 then shifted else bit_xor shifted (bit_or (2 ^ 31) 1)

-- The loop of `hash1`, with `rounds` rounds left; `p k` is the token `p[k]`.
unfoldable pub hash1_from : ℕ → (ℕ → ℕ) → ℕ → ℕ → ℕ → ℕ
hash1_from min_run_size p zero n h_val = h_val
hash1_from min_run_size p (suc rounds) n h_val =
    hash1_from min_run_size p rounds (n + 1)
      (bit_xor (rotate h_val) (p (sample_pos min_run_size n)))

unfoldable pub hash1 : ℕ → (ℕ → ℕ) → ℕ
unfolding hash1_from rotate sample_pos
hash1 min_run_size p = hash1_from min_run_size p n_samples 0 0

-- `hash2`, over a `vlong_uint` of 64 bits.
unfoldable pub hash2 : ℕ → (ℕ → ℕ) → ℕ
unfolding sample_pos
hash2 min_run_size p =
    let token = λ (pos : ℕ). p (sample_pos min_run_size pos) in
    let last = n_samples - 1 in
    let h0 = bit_xor 0 (token 0 * 2 ^ 0 % 2 ^ 64) in
    let h1 = bit_xor h0 (token last * 2 ^ (64 * 1 / 5) % 2 ^ 64) in
    let h2 = bit_xor h1 (token (last / 2) * 2 ^ (64 * 2 / 5) % 2 ^ 64) in
    let h3 = bit_xor h2 (token (last * 1 / 4) * 2 ^ (64 * 3 / 5) % 2 ^ 64) in
    bit_xor h3 (token (last * 3 / 4) * 2 ^ (64 * 4 / 5) % 2 ^ 64)

-- `last_index[]` and `forward_reference[]`
pub record Tables : Type 0 where
  pub last_index : ℕ → ℕ
  pub forward_reference : ℕ → ℕ

-- `&Token_Array[j]`
abbrev pub tokens_at : (ℕ → ℕ) → ℕ → ℕ → ℕ
tokens_at token_array j k = token_array (j + k)

module _ (min_run_size : ℕ) (token_array : ℕ → ℕ) where
  -- The index that position `j` has in a hash table of the given size.
  unfoldable pub code1 : ℕ → ℕ → ℕ
  code1 table_size j = hash1 min_run_size (tokens_at token_array j) % table_size

  unfoldable pub code2 : ℕ → ℕ
  code2 j = hash2 min_run_size (tokens_at token_array j)

  module _ (may_start : ℕ → Bool) (table_size : ℕ) where
    -- The body of the inner loop of `make_forward_references_hash1`.
    unfoldable pub visit : ℕ → Tables → Tables
    visit j s =
        let h = code1 table_size j in
        let l = s.last_index h in
        if may_start (token_array j)
        then record {
          last_index = update s.last_index h j;
          forward_reference =
              if l == 0 then s.forward_reference else update s.forward_reference l j;
        }
        else s

    -- The inner loop, from position `j`, on fuel.
    unfoldable pub scan_text : ℕ → ℕ → ℕ → Tables → Tables
    scan_text zero j limit s = s
    scan_text (suc fuel) j limit s =
        let rest = scan_text fuel (j + 1) limit (visit j s) in
        if ltb (j + min_run_size - 1) limit then rest else s

    -- The outer loop, over the texts.
    unfoldable pub scan_texts : List Text → Tables → Tables
    scan_texts [] s = s
    scan_texts (t ∷ ts) s = scan_texts ts (scan_text t.tx_limit t.tx_start t.tx_limit s)

    -- Both arrays come from `calloc`.
    unfoldable pub make_forward_references_hash1 : List Text → ℕ → ℕ
    make_forward_references_hash1 texts =
        let s = scan_texts texts (record { last_index = zeros; forward_reference = zeros }) in
        s.forward_reference

  -- The inner loop of `clean_forward_references_hash2`: the chain from `j` is followed up to a
  -- position with the hash code `h2`, or to the end, on fuel; `none` means that the fuel ran out.
  unfoldable pub next_match : ℕ → (ℕ → ℕ) → ℕ → ℕ → Option ℕ
  next_match zero forward_reference h2 j = none
  next_match (suc fuel) forward_reference h2 j =
      let j' = forward_reference j in
      let rest = next_match fuel forward_reference h2 j' in
      if j' == 0 then some 0 else if code2 j' == h2 then some j' else rest

  -- The outer loop, with `rounds` rounds left.
  unfoldable pub clean_from : ℕ → ℕ → ℕ → (ℕ → ℕ) → Option (ℕ → ℕ)
  clean_from length zero i forward_reference = some forward_reference
  clean_from length (suc rounds) i forward_reference =
      elim (next_match length forward_reference (code2 i) i) [
        | none ↦ none
        | some j ↦ clean_from length rounds (i + 1) (update forward_reference i j)
      ]

  -- The loop runs while `i + Min_Run_Size < Token_Array_Length()`; `length` bounds every chain.
  unfoldable pub clean_forward_references_hash2 : ℕ → (ℕ → ℕ) → Option (ℕ → ℕ)
  clean_forward_references_hash2 length = clean_from length (length - min_run_size) 0

-- `Make_Forward_References`; `none` is a call of `fatal` for want of memory, or a table of primes
-- that is too short.
unfoldable pub make_forward_references :
    ℕ → (ℕ → ℕ) → ℕ → (ℕ → Bool) → (ℕ → Bool) → List Text → Option (ℕ → ℕ)
make_forward_references min_run_size token_array length may_start try_calloc texts =
    elim (init_hash_table try_calloc length) [
      | none ↦ none
      | some table_size ↦
          clean_forward_references_hash2 min_run_size token_array length
            (make_forward_references_hash1 min_run_size token_array may_start table_size texts)
    ]

-- `Forward_Reference(i)`: `none` is the call of `fatal`.
unfoldable pub forward_reference_at : ℕ → (ℕ → ℕ) → ℕ → Option ℕ
forward_reference_at n forward_reference i =
    if i == 0 then none else if leb n i then none else some (forward_reference i)
