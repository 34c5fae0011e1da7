-- ===== src/Pass3/Cells.antt =====
-- What a line of a file looks like in a column, apart from the way in which fill_line and show_2C_line
-- make it.
use mathlib.Core.List.{append_assoc}
use run_server.Base.{
  ℕ_discrete, ℕ, zero, suc, ◌+◌, ◌-◌, ◌≤◌, ◌≡◌, refl, sym, ap, ◌∙◌, false, inl, inr, List, [], ◌∷◌,
  ◌++◌, map, Bool-cases, ltb, ◌==◌, if◌then◌else◌, length, length-append, length-replicate,
  length-take, replicate, take, arith,
}
use run_server.Pass3.{put, fill_rest, fill_indent, fill_line, shown, show_2C_line}
use run_server.Pass3.Columns.{length-put, length-fill_line}
use run_server.Pass3.LineSkips.{after_line, drop_lines}
use run_server.Pass3.Tables.{line_at, row_at}

-- The text up to its first newline.
abbrev pub one_line : List ℕ → List ℕ
one_line [] = []
one_line (c ∷ f) = if c == b'\n' then [] else c ∷ one_line f

abbrev pub blank_for_tab : ℕ → ℕ
blank_for_tab c = if c == b'\t' then b' ' else c

-- The line with one blank for each 8 columns of its indentation, where `i` columns have been passed since
-- the last of these blanks, and for each tab behind the indentation.
abbrev pub condensed : ℕ → List ℕ → List ℕ
condensed i [] = []
condensed i (c ∷ s) =
    let on = condensed (i + 1) s in
    let tabbed = b' ' ∷ condensed 0 s in
    if c == b' '
    then if i == 7 then tabbed else on
    else if c == b'\t'
    then tabbed
    else map blank_for_tab (c ∷ s)

abbrev pub until_nul : List ℕ → List ℕ
until_nul [] = []
until_nul (c ∷ s) = let rest = until_nul s in if c == 0 then [] else c ∷ rest

condensed_rest :
    (ch : ℕ) (f : List ℕ) (i : ℕ)
    → (ch == b' ') ≡ false
    → (ch == b'\t') ≡ false
    → condensed i (one_line (ch ∷ f)) ≡ map blank_for_tab (one_line (ch ∷ f))
condensed_rest ch f i no_blank no_tab = elim (Bool-cases (ch == b'\n')) [
  | inl e ↦ rw e refl
  | inr e ↦ rw (e, no_blank, no_tab) refl
]

take-full : (ln l : List ℕ) → take (length ln) (ln ++ l) ≡ ln
take-full [] l = refl
take-full (c ∷ ln) l = ap (λ s. c ∷ s) (take-full ln l)

take-all : (m : ℕ) (ln : List ℕ) → length ln ≤ m → take m (ln ++ []) ≡ ln
take-all zero [] h = refl
take-all zero (c ∷ ln) h = absurd (omega arith)
take-all (suc m) [] h = refl
take-all (suc m) (c ∷ ln) h = ap (λ s. c ∷ s) (take-all m ln (omega arith))

length-until_nul : (s : List ℕ) → length (until_nul s) ≤ length s
length-until_nul [] = omega arith
length-until_nul (c ∷ s) = ground (arith, length-until_nul s)

module _ (max_line_length : ℕ) where
  -- The first line of a text as a column shows it.
  abbrev pub cell : List ℕ → List ℕ
  cell f = until_nul (take max_line_length (condensed 0 (one_line f)))

  -- The `j`-th line of a chunk of `n` lines, and nothing behind the chunk.
  abbrev pub cell_at : ℕ → List ℕ → ℕ → List ℕ
  cell_at n f j = if ltb j n then cell (drop_lines j f) else []

  -- A column of the full width.
  abbrev pub padded : List ℕ → List ℕ
  padded s = s ++ replicate (max_line_length - length s) b' '

  -- The lines `j` of two chunks: the left one, padded, then " |", the right one and a newline.
  abbrev pub row_of : ℕ → ℕ → List ℕ → List ℕ → ℕ → List ℕ
  row_of n0 n1 f0 f1 j =
      padded (cell_at n0 f0 j) ++ (b' ' ∷ b'|' ∷ (cell_at n1 f1 j ++ (b'\n' ∷ [])))

  take-put :
      (ch : ℕ) (ln l : List ℕ)
      → length ln ≤ max_line_length
      → take max_line_length (put max_line_length ch ln ++ l)
        ≡ take max_line_length (ln ++ (ch ∷ l))
  unfolding put
  take-put ch ln l h = elim (Bool-cases (ltb (length ln) max_line_length)) [
    | inl e ↦ rw e (ap (take max_line_length) (append_assoc ln (ch ∷ []) l))
    | inr e ↦
        let full : length ln ≡ max_line_length = ground arith in
        rw e (
          ap (λ m. take m (ln ++ l)) (sym full)
          ∙ take-full ln l
          ∙ sym (take-full ln (ch ∷ l))
          ∙ ap (λ m. take m (ln ++ (ch ∷ l))) full)
  ]

  fill_rest-take :
      (f ln : List ℕ)
      → length ln ≤ max_line_length
      → (fill_rest max_line_length f ln).0
        ≡ take max_line_length (ln ++ map blank_for_tab (one_line f))
  unfolding fill_rest
  fill_rest-take [] ln h = sym (take-all max_line_length ln h)
  fill_rest-take (ch ∷ f) ln h = elim (Bool-cases (ch == b'\n')) [
    | inl e ↦ rw e (sym (take-all max_line_length ln h))
    | inr e ↦ rw e (
        fill_rest-take f (put max_line_length (blank_for_tab ch) ln)
          (length-put max_line_length (blank_for_tab ch) ln h)
        ∙ take-put (blank_for_tab ch) ln _ h)
  ]

  fill_indent-take :
      (f : List ℕ) (i : ℕ) (ln : List ℕ)
      → length ln ≤ max_line_length
      → (fill_indent max_line_length f i ln).0
        ≡ take max_line_length (ln ++ condensed i (one_line f))
  unfolding fill_indent
  fill_indent-take [] i ln h = sym (take-all max_line_length ln h)
  fill_indent-take (ch ∷ f) i ln h = elim (ℕ_discrete ch b' ') [
    | yes blank ↦ elim (ℕ_discrete i 7) [
      | yes full ↦
          rw (blank, full)
            (fill_indent-take f 0 (put max_line_length b' ' ln)
                (length-put max_line_length b' ' ln h)
              ∙ take-put b' ' ln _ h)
      | no more ↦
          let code : (i + 1 == 8) ≡ false = ground (arith, more) in
          let spec : (i == 7) ≡ false = ground (arith, more) in
          rw (blank, code, spec) (fill_indent-take f (i + 1) ln h)
    ]
    | no other ↦ elim (ℕ_discrete ch b'\t') [
      | yes tab ↦ rw tab (
          fill_indent-take f 0 (put max_line_length b' ' ln) (length-put max_line_length b' ' ln h)
          ∙ take-put b' ' ln _ h)
      | no neither ↦
          let not_blank : (ch == b' ') ≡ false = ground (arith, other) in
          let not_tab : (ch == b'\t') ≡ false = ground (arith, neither) in
          rw (not_blank, not_tab)
            (fill_rest-take (ch ∷ f) ln h
              ∙ ap (λ l. take max_line_length (ln ++ l))
                  (sym (condensed_rest ch f i not_blank not_tab)))
    ]
  ]

  fill_line-take :
      (f : List ℕ)
      → (fill_line max_line_length f).0 ≡ take max_line_length (condensed 0 (one_line f))
  unfolding fill_line
  fill_line-take f = fill_indent-take f 0 [] (omega arith)

  shown-until_nul :
      (i : ℕ) (ln : List ℕ)
      → i + length ln ≤ max_line_length
      → shown max_line_length i ln ≡ until_nul ln
  unfolding shown
  shown-until_nul i [] h = refl
  shown-until_nul i (ch ∷ ln) h = ground (arith, shown-until_nul (i + 1) ln (omega arith))

  shown-line_at :
      (n : ℕ) (f : List ℕ) (j : ℕ)
      → shown max_line_length 0 (line_at max_line_length n f j) ≡ cell_at n f j
  unfolding line_at drop_lines shown
  shown-line_at zero f j = ground arith
  shown-line_at (suc n) f zero =
      shown-until_nul 0 (fill_line max_line_length f).0
        (omega (arith, length-fill_line max_line_length f))
      ∙ ap until_nul (fill_line-take f)
      ∙ (let first : cell f ≡ (if ltb 0 (suc n) then cell f else []) = ground arith in first)
  shown-line_at (suc n) f (suc j) =
      let same : ltb j n ≡ ltb (suc j) (suc n) = ground arith in
      shown-line_at n (after_line f) j
      ∙ ap (λ b. if b then cell (drop_lines j (after_line f)) else []) same

  pub row_at-row_of :
      (n0 n1 : ℕ) (f0 f1 : List ℕ) (j : ℕ)
      → row_at max_line_length n0 n1 f0 f1 j ≡ row_of n0 n1 f0 f1 j
  unfolding row_at show_2C_line
  row_at-row_of n0 n1 f0 f1 j = rw (shown-line_at n0 f0 j, shown-line_at n1 f1 j) refl

  pub length-cell_at : (n : ℕ) (f : List ℕ) (j : ℕ) → length (cell_at n f j) ≤ max_line_length
  length-cell_at n f j =
      let text = condensed 0 (one_line (drop_lines j f)) in
      ground (arith, length-until_nul (take max_line_length text), length-take max_line_length text)

  pub length-padded :
      (s : List ℕ) → length s ≤ max_line_length → length (padded s) ≡ max_line_length
  length-padded s h = omega (
    arith,
    length-append s (replicate (max_line_length - length s) b' '),
    length-replicate {A = ℕ} (max_line_length - length s) b' ',
  )
