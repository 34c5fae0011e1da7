-- ===== src/TokenArray/Growth.antt =====
-- Tokens that are stored stay where they are, and no store leaves the array.
use run_server.Base.{
  ℕ, zero, suc, ◌+◌, ◌*◌, ◌/◌, ◌%◌, ◌^◌, ◌≤◌, ◌<◌, ◌≡◌, inl, inr, refl, sym, ap, ◌∙◌, Bool, true,
  false, List, [], ◌∷◌, Option, some, Bool-cases, ltb, ◌==◌, ◌>>=◌, update, update_eq, update_ne,
  length, get_elem?, arith,
}
use run_server.TokenArray.{TokenArray, init_token_array, grow, store_token}

-- Position 0 is not used, and what is stored lies inside the array.
abbrev pub IsInside : TokenArray → Type 0
IsInside a = (1 ≤ a.tk_free) × (a.tk_free ≤ a.tk_size) × (2 ≤ a.tk_size)

pub init_token_array-IsInside : (memory : ℕ → ℕ) → IsInside (init_token_array memory)
init_token_array-IsInside memory = omega arith

-- Calls of `Store_Token`.
abbrev pub store_all : (ℕ → Bool) → List ℕ → TokenArray → Option TokenArray
store_all try_realloc [] a = some a
store_all try_realloc (tk ∷ tks) a = do
  b ← store_token try_realloc tk a
  store_all try_realloc tks b

-- One token in front of those that follow it.
stored :
    (tk : ℕ) (tks : List ℕ) (a_free b_free : ℕ) (a b c : ℕ → ℕ)
    → b_free ≡ a_free + 1
    → b ≡ update a a_free tk
    → ((k : ℕ) → k < b_free → c k ≡ b k)
    → ((k : ℕ) → k < length tks → get_elem? tks k ≡ some (c (b_free + k)))
    → (k : ℕ) → k < suc (length tks)
    → get_elem? (tk ∷ tks) k ≡ some (c (a_free + k))
stored tk tks a_free b_free a b c free written old new zero lt =
    let first : a_free ≡ a_free + 0 = omega arith in
    ap some (
      sym (
        ap c (sym first)
        ∙ old a_free (omega (arith, free))
        ∙ ap (λ g. g a_free) written
        ∙ update_eq a a_free a_free tk refl))
stored tk tks a_free b_free a b c free written old new (suc k) lt =
    let later : b_free + k ≡ a_free + suc k = omega (arith, free) in
    new k (omega arith) ∙ ap (λ p. some (c p)) later

module _ (try_realloc : ℕ → Bool)
    (granted : (size : ℕ) → size < 2 ^ 63 → try_realloc size ≡ true) where
  grow_full :
      (a : TokenArray)
      → IsInside a
      → a.tk_free ≡ a.tk_size
      → a.tk_free < 2 ^ 61
      → grow try_realloc a ≡ some (record a { tk_size = a.tk_size + a.tk_size / 2 })
  unfolding grow
  grow_full a i full small =
      let no_wrap : (a.tk_size + a.tk_size / 2) % 2 ^ 64 ≡ a.tk_size + a.tk_size / 2 =
        omega arith in
      let enough : ltb (a.tk_size + a.tk_size / 2) a.tk_free ≡ false = ground arith in
      let had = granted (2 * (a.tk_size + a.tk_size / 2) % 2 ^ 64) (omega arith) in
      rw (no_wrap, enough, had, grow) refl

  store_one :
      (tk : ℕ) (a : TokenArray)
      → IsInside a
      → a.tk_free < 2 ^ 61
      → (b : TokenArray) × (store_token try_realloc tk a ≡ some b)
        × IsInside b
        × (b.tk_free ≡ a.tk_free + 1)
        × (b.token_array ≡ update a.token_array a.tk_free tk)
  unfolding store_token
  store_one tk a i small = elim (Bool-cases (a.tk_free == a.tk_size)) [
    | inl full ↦
        let grown =
          grow_full a i (let e : a.tk_free ≡ a.tk_size = ground (arith, full) in e) small in
        let fits : ltb a.tk_free (a.tk_size + a.tk_size / 2) ≡ true = ground (arith, full, i) in
        (
          record a {
            tk_size = a.tk_size + a.tk_size / 2;
            token_array = update a.token_array a.tk_free tk;
            tk_free = a.tk_free + 1;
          },
          rw (full, grown, store_token) (rw fits refl),
          ground (arith, full, i),
          refl,
          refl,
        )
    | inr room ↦
        let fits : ltb a.tk_free a.tk_size ≡ true = ground (arith, room, i) in
        (
          record a { token_array = update a.token_array a.tk_free tk; tk_free = a.tk_free + 1 },
          rw (room, store_token) (rw fits refl),
          ground (arith, room, i),
          refl,
          refl,
        )
  ]

  -- If every request of less than 2 ^ 63 bytes is granted, calls of Store_Token end with no fatal error
  -- and no store out of bounds, from an array in order and up to 2 ^ 61 tokens. The array is in order
  -- again, holds so many tokens more, the new ones in their order behind the old ones, and the old ones
  -- are where they were.
  pub store_all-IsInside :
      (tks : List ℕ) (a : TokenArray)
      → IsInside a
      → a.tk_free + length tks ≤ 2 ^ 61
      → (b : TokenArray) × (store_all try_realloc tks a ≡ some b)
        × IsInside b
        × (b.tk_free ≡ a.tk_free + length tks)
        × ((k : ℕ) → k < a.tk_free → b.token_array k ≡ a.token_array k)
        × ((k : ℕ) → k < length tks → get_elem? tks k ≡ some (b.token_array (a.tk_free + k)))
  store_all-IsInside [] a i small =
      (a, refl, i, omega arith, λ k lt. refl, λ k lt. absurd (omega arith))
  store_all-IsInside (tk ∷ tks) a i small =
      let (b, e, j, free, written) = store_one tk a i (omega arith) in
      let (c, f, k, all, old, new) = store_all-IsInside tks b j (omega (arith, free)) in
      (
        c,
        rw e f,
        k,
        omega (arith, free, all),
        λ p lt.
            old p (omega (arith, free))
            ∙ ap (λ g. g p) written
            ∙ update_ne a.token_array a.tk_free p tk (λ q. absurd (omega (arith, q))),
        stored tk tks a.tk_free b.tk_free a.token_array b.token_array c.token_array free written old
            new,
      )
