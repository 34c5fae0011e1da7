-- ===== src/Pass3/Shown.antt =====
-- A run in two columns: the heading, and a line for each line of the longer chunk.
use run_server.Base.{
  ℕ, zero, suc, ◌+◌, ◌^◌, ◌≤◌, ◌<◌, ◌≡◌, length, ap, ap₂, ◌∙◌, false, List, ◌∷◌, ◌++◌, some,
  >>=-some, arith,
}
use run_server.Pass3.{ChunkView, ShowOptions, minus, open_chunk, show_lines, heading, show_run}
use run_server.Pass3.Cells.{cell_at, padded, row_of, row_at-row_of, length-cell_at, length-padded}
use run_server.Pass3.LineSkips.{drop_lines, skip_lines-drop_lines}
use run_server.Pass3.Numbers.{heading-bar}
use run_server.Pass3.Tables.{larger, rows, rows-ext, show_lines-rows}

-- A chunk in the file with the text `t`, from line `suc k` on.
pub record IsAt (cnk : ChunkView) (t : List ℕ) (k : ℕ) : Type 0 where
  pub opened : cnk.contents ≡ some t
  pub first_line : cnk.first_nl ≡ suc k
  pub small : suc k < 2 ^ 64

open_chunk-drop_lines :
    (cnk : ChunkView) (t : List ℕ) (k : ℕ) → IsAt cnk t k → open_chunk cnk ≡ drop_lines k t
unfolding open_chunk
open_chunk-drop_lines cnk t k h = rw (h.opened, h.first_line) (skip_lines-drop_lines k t)

larger-le : (m n : ℕ) → larger m n ≤ m + n
larger-le zero n = omega arith
larger-le (suc m) zero = omega arith
larger-le (suc m) (suc n) = omega (arith, larger-le m n)

-- Without -d and -n show_run prints, for two chunks whose files can be opened, the heading and then as
-- many lines as the longer chunk has. The line `j` shows the `j`-th lines of the chunks, counted from
-- their first lines in the files: the left one, filled up with blanks, then " |", and the right one,
-- each condensed (a blank for 8 columns of indentation and for a tab), cut to `max_line_length`
-- characters and at a NUL, and empty behind the end of its chunk. The left column is exactly that wide,
-- and the right one at most.
pub show_run-rows :
    (o : ShowOptions) (max_line_length size k0 k1 j : ℕ) (cnk0 cnk1 : ChunkView) (t0 t1 : List ℕ)
    → o.diff ≡ false
    → o.heads_only ≡ false
    → IsAt cnk0 t0 k0
    → IsAt cnk1 t1 k1
    → size < 2 ^ 64
    → let n0 = minus cnk0.last_nl cnk0.first_nl in
      let n1 = minus cnk1.last_nl cnk1.first_nl in
      let f0 = drop_lines k0 t0 in
      let f1 = drop_lines k1 t1 in
      (head : List ℕ) × (heading max_line_length cnk0 cnk1 size ≡ some head)
      × (show_run o max_line_length cnk0 cnk1 size
          ≡ some (head ++ rows (row_of max_line_length n0 n1 f0 f1) (larger n0 n1) 0))
      × (length (padded max_line_length (cell_at max_line_length n0 f0 j)) ≡ max_line_length)
      × (length (cell_at max_line_length n1 f1 j) ≤ max_line_length)
unfolding show_run
show_run-rows o max_line_length size k0 k1 j cnk0 cnk1 t0 t1 d n h0 h1 s =
    let n0 = minus cnk0.last_nl cnk0.first_nl in
    let n1 = minus cnk1.last_nl cnk1.first_nl in
    let f0 = drop_lines k0 t0 in
    let f1 = drop_lines k1 t1 in
    let (text, left, right, q, headed, l) =
      heading-bar max_line_length size cnk0 cnk1 (omega (arith, h0.first_line, h0.small))
        (omega (arith, h1.first_line, h1.small)) s in
    let lines =
      ap₂ (show_lines max_line_length (n0 + n1) n0 n1) (open_chunk-drop_lines cnk0 t0 k0 h0)
        (open_chunk-drop_lines cnk1 t1 k1 h1)
      ∙ show_lines-rows max_line_length (n0 + n1) n0 n1 f0 f1 (larger-le n0 n1)
      ∙ ap some (
          rows-ext _ (row_of max_line_length n0 n1 f0 f1) (larger n0 n1) 0 0
            (λ i. row_at-row_of max_line_length n0 n1 f0 f1 (0 + i))) in
    (
      left ++ (b'|' ∷ right),
      headed,
      rw (d, n) (>>=-some _ _ _ headed ∙ >>=-some _ _ _ lines),
      length-padded max_line_length (cell_at max_line_length n0 f0 j)
          (length-cell_at max_line_length n0 f0 j),
      length-cell_at max_line_length n1 f1 j,
    )
