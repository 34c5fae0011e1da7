-- ===== src/Pass3/Tables.antt =====
-- The lines of two chunks, side by side.
use run_server.Base.{
  ℕ, zero, suc, ◌+◌, ◌-◌, ◌≤◌, ◌≡◌, refl, ap, ap₂, ◌∙◌, List, [], ◌++◌, some, ◌>>=◌, >>=-some,
  arith,
}
use run_server.Pass3.{fill_line, chunk_line, show_2C_line, show_lines}
use run_server.Pass3.LineSkips.{after_line, fill_line-after_line}

-- The larger of two numbers.
abbrev pub larger : ℕ → ℕ → ℕ
larger zero n = n
larger (suc m) zero = suc m
larger (suc m) (suc n) = suc (larger m n)

-- The texts from the `j`-th on, `n` of them.
unfoldable pub rows : (ℕ → List ℕ) → ℕ → ℕ → List ℕ
rows row zero j = []
rows row (suc n) j = row j ++ rows row n (suc j)

pub rows-ext :
    (f g : ℕ → List ℕ) (n i j : ℕ) → ((d : ℕ) → f (i + d) ≡ g (j + d)) → rows f n i ≡ rows g n j
unfolding rows
rows-ext f g zero i j h = refl
rows-ext f g (suc n) i j h =
    ap₂ (λ a b. a ++ b) (ap f (omega arith) ∙ h 0 ∙ ap g (omega arith))
      (rows-ext f g n (suc i) (suc j) (λ d. ap f (omega arith) ∙ h (suc d) ∙ ap g (omega arith)))

abbrev before : ℕ → ℕ
before zero = zero
before (suc n) = n

before_lem : (n : ℕ) → n - 1 ≡ before n
before_lem zero = omega arith
before_lem (suc n) = omega arith

one_less : (m n : ℕ) → larger (m - 1) (n - 1) ≡ larger (before m) (before n)
one_less m n = ap₂ larger (before_lem m) (before_lem n)

larger-zero : (n : ℕ) → larger n 0 ≡ n
larger-zero zero = refl
larger-zero (suc n) = refl

module _ (max_line_length : ℕ) where
  -- The `j`-th line of a chunk, condensed, and nothing behind the chunk.
  unfoldable pub line_at : ℕ → List ℕ → ℕ → List ℕ
  line_at zero f j = []
  line_at (suc n) f zero = (fill_line max_line_length f).0
  line_at (suc n) f (suc j) = line_at n (after_line f) j

  -- The lines `j` of both chunks.
  unfoldable pub row_at : ℕ → ℕ → List ℕ → List ℕ → ℕ → List ℕ
  row_at n0 n1 f0 f1 j = show_2C_line max_line_length (line_at n0 f0 j) (line_at n1 f1 j)

  chunk_line-line_at :
      (n : ℕ) (f : List ℕ) (j : ℕ)
      → line_at (n - 1) (chunk_line max_line_length n f).1 j ≡ line_at n f (suc j)
  unfolding chunk_line line_at
  chunk_line-line_at zero f j = refl
  chunk_line-line_at (suc n) f j =
      ap₂ (λ k g. line_at k g j) (let less : suc n - 1 ≡ n = omega arith in less)
        (fill_line-after_line max_line_length f)

  first_line : (n : ℕ) (f : List ℕ) → (chunk_line max_line_length n f).0 ≡ line_at n f 0
  unfolding chunk_line line_at
  first_line zero f = refl
  first_line (suc n) f = refl

  row_shift :
      (n0 n1 : ℕ) (f0 f1 : List ℕ) (d : ℕ)
      → row_at
          (n0 - 1)
          (n1 - 1)
          (chunk_line max_line_length n0 f0).1
          (chunk_line max_line_length n1 f1).1
          (0 + d)
        ≡ row_at n0 n1 f0 f1 (1 + d)
  unfolding row_at
  row_shift n0 n1 f0 f1 d =
      let zero_d : 0 + d ≡ d = omega arith in
      let one_d : 1 + d ≡ suc d = omega arith in
      rw (zero_d, one_d)
        (ap₂ (show_2C_line max_line_length) (chunk_line-line_at n0 f0 d)
          (chunk_line-line_at n1 f1 d))

  show_lines-step :
      (fuel n0 n1 m m' : ℕ) (f0 f1 : List ℕ)
      → m' ≡ m
      → show_lines max_line_length fuel
          (n0 - 1)
          (n1 - 1)
          (chunk_line max_line_length n0 f0).1
          (chunk_line max_line_length n1 f1).1
        ≡ some (
            rows
              (row_at
                (n0 - 1)
                (n1 - 1)
                (chunk_line max_line_length n0 f0).1
                (chunk_line max_line_length n1 f1).1)
              m'
              0)
      → (show_lines max_line_length fuel
            (n0 - 1)
            (n1 - 1)
            (chunk_line max_line_length n0 f0).1
            (chunk_line max_line_length n1 f1).1
          >>= λ rest. some (
              show_2C_line max_line_length
                (chunk_line max_line_length n0 f0).0
                (chunk_line max_line_length n1 f1).0
              ++ rest))
        ≡ some (row_at n0 n1 f0 f1 0 ++ rows (row_at n0 n1 f0 f1) m 1)
  unfolding row_at
  show_lines-step fuel n0 n1 m m' f0 f1 same e =
      >>=-some _ _ _ e
      ∙ ap some (
          ap₂ (λ a b. a ++ b)
            (ap₂ (show_2C_line max_line_length) (first_line n0 f0) (first_line n1 f1))
            (ap
                (λ k.
                  rows
                    (row_at (n0 - 1) (n1 - 1) (chunk_line max_line_length n0 f0).1
                      (chunk_line max_line_length n1 f1).1)
                    k 0)
                same
              ∙ rows-ext _ (row_at n0 n1 f0 f1) m 0 1 λ d. row_shift n0 n1 f0 f1 d))

  -- The loop over the lines ends, and prints a row for each line of the longer chunk.
  pub show_lines-rows :
      (fuel n0 n1 : ℕ) (f0 f1 : List ℕ)
      → larger n0 n1 ≤ fuel
      → show_lines max_line_length fuel n0 n1 f0 f1
        ≡ some (rows (row_at n0 n1 f0 f1) (larger n0 n1) 0)
  unfolding show_lines rows row_at
  show_lines-rows fuel zero zero f0 f1 h = refl
  show_lines-rows zero zero (suc n1) f0 f1 h = absurd (omega arith)
  show_lines-rows zero (suc n0) zero f0 f1 h = absurd (omega arith)
  show_lines-rows zero (suc n0) (suc n1) f0 f1 h = absurd (omega arith)
  show_lines-rows (suc fuel) zero (suc n1) f0 f1 h =
      let less = one_less 0 (suc n1) in
      show_lines-step fuel 0 (suc n1) n1 _ f0 f1 less (
        show_lines-rows fuel (0 - 1) (suc n1 - 1) (chunk_line max_line_length 0 f0).1
          (chunk_line max_line_length (suc n1) f1).1 (omega (arith, less)))
  show_lines-rows (suc fuel) (suc n0) zero f0 f1 h =
      let less = one_less (suc n0) 0 in
      show_lines-step fuel (suc n0) 0 n0 _ f0 f1 (less ∙ larger-zero n0) (
        show_lines-rows fuel (suc n0 - 1) (0 - 1) (chunk_line max_line_length (suc n0) f0).1
          (chunk_line max_line_length 0 f1).1 (omega (arith, less, larger-zero n0)))
  show_lines-rows (suc fuel) (suc n0) (suc n1) f0 f1 h =
      let less = one_less (suc n0) (suc n1) in
      show_lines-step fuel (suc n0) (suc n1) (larger n0 n1) _ f0 f1 less (
        show_lines-rows fuel (suc n0 - 1) (suc n1 - 1) (chunk_line max_line_length (suc n0) f0).1
          (chunk_line max_line_length (suc n1) f1).1 (omega (arith, less)))
