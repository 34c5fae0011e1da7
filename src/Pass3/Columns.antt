-- ===== src/Pass3/Columns.antt =====
-- A line of a chunk fits in its column.
use run_server.Base.{
  ℕ, ◌≤◌, inl, inr, List, [], ◌∷◌, Bool-cases, ltb, ◌==◌, ◌||◌, if◌then◌else◌, length,
  length-append, arith,
}
use run_server.Pass3.{put, fill_rest, fill_indent, fill_line, next_indent}

module _ (max_line_length : ℕ) where
  pub length-put :
      (ch : ℕ) (ln : List ℕ)
      → length ln ≤ max_line_length
      → length (put max_line_length ch ln) ≤ max_line_length
  unfolding put
  length-put ch ln h = elim (Bool-cases (ltb (length ln) max_line_length)) [
    | inl e ↦ rw e (ground (arith, length-append ln (ch ∷ [])))
    | inr e ↦ rw e h
  ]

  length-fill_rest :
      (f ln : List ℕ)
      → length ln ≤ max_line_length
      → length (fill_rest max_line_length f ln).0 ≤ max_line_length
  unfolding fill_rest
  length-fill_rest [] ln h = h
  length-fill_rest (ch ∷ f) ln h = elim (Bool-cases (ch == b'\n')) [
    | inl e ↦ rw e h
    | inr e ↦
        let ch' = if ch == b'\t' then b' ' else ch in
        rw e (length-fill_rest f (put max_line_length ch' ln) (length-put ch' ln h))
  ]

  length-fill_indent :
      (f : List ℕ) (indent : ℕ) (ln : List ℕ)
      → length ln ≤ max_line_length
      → length (fill_indent max_line_length f indent ln).0 ≤ max_line_length
  unfolding fill_indent
  length-fill_indent [] indent ln h = h
  length-fill_indent (ch ∷ f) indent ln h = elim (Bool-cases (ch == b' ' || ch == b'\t')) [
    | inl e ↦ elim (Bool-cases (next_indent ch indent == 8)) [
      | inl k ↦
          rw (e, k) (length-fill_indent f 0 (put max_line_length b' ' ln) (length-put b' ' ln h))
      | inr k ↦ rw (e, k) (length-fill_indent f (next_indent ch indent) ln h)
    ]
    | inr e ↦ rw e (length-fill_rest (ch ∷ f) ln h)
  ]

  -- fill_line writes no more characters than the line has room for, apart from the NUL behind them.
  pub length-fill_line : (f : List ℕ) → length (fill_line max_line_length f).0 ≤ max_line_length
  unfolding fill_line
  length-fill_line f = length-fill_indent f 0 [] (omega arith)
