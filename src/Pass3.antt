-- ===== src/Pass3.antt =====
-- sim/sim_2_89/pass3.c: a run is printed, with its lines side by side or one below the other.
-- What is printed is the list of its characters. A chunk is given with what it points to.
pub mod Columns
pub mod LineSkips
pub mod Numbers
pub mod Tables
pub mod Cells
pub mod Shown
use run_server.Base.{
  ℕ, zero, suc, ◌+◌, ◌*◌, ◌-◌, ◌/◌, ◌%◌, ◌^◌, Bool, true, false, List, [], ◌∷◌, ◌++◌, Option, none,
  some, ltb, leb, ◌==◌, ◌&&◌, ◌||◌, not, if◌then◌else◌, ◌>>=◌, length, replicate,
}
use run_server.Syscalls.{pos}
use run_server.AnyInt.{int_text}

-- `tx_fname`, the line numbers of the first and the last position, and the contents of the file; `none`
-- if it cannot be opened.
pub record ChunkView : Type 0 where
  pub fname : List ℕ
  pub first_nl : ℕ
  pub last_nl : ℕ
  pub contents : Option (List ℕ)

-- `size_t2string`, as the text of the string.
unfoldable pub size_t2string : ℕ → Option (List ℕ)
size_t2string s = int_text s false (pos 0)

-- `unslen`, on fuel; a number of 64 bits has no more than 20 digits.
unfoldable pub unslen_from : ℕ → ℕ → ℕ → Option ℕ
unslen_from zero u res = none
unslen_from (suc n) u res = elim (ltb 9 u) [
  | true ↦ unslen_from n (u / 10) (res + 1)
  | false ↦ some res
]

unfoldable pub unslen : ℕ → Option ℕ
unslen u = unslen_from 40 u 1

-- `a - b` on size_t.
abbrev pub minus : ℕ → ℕ → ℕ
minus a b = (a + 18446744073709551616 - b) % 18446744073709551616

-- `prs` and `pru`: what they return, and what is printed.
abbrev pub prs : List ℕ → ℕ × List ℕ
prs str = (length str, str)

unfoldable pub pru : ℕ → Option (ℕ × List ℕ)
pru u = size_t2string u >>= λ str. unslen u >>= λ n. some (n, str)

-- ": line ".
abbrev pub line_text : List ℕ
line_text = b':' ∷ b' ' ∷ b'l' ∷ b'i' ∷ b'n' ∷ b'e' ∷ b' ' ∷ []

unfoldable pub pr_head : ChunkView → Option (ℕ × List ℕ)
pr_head cnk = pru cnk.first_nl >>= λ first. pru (minus cnk.last_nl 1) >>= λ last. some (
  length cnk.fname + length line_text + first.0 + 1 + last.0,
  cnk.fname ++ (line_text ++ (first.1 ++ (b'-' ∷ last.1))),
)

-- `while (pos < n) pos += prs(" ")`.
abbrev pub blanks : ℕ → ℕ → List ℕ
blanks n col = replicate (n - col) b' '

abbrev pub reached : ℕ → ℕ → ℕ
reached n col = if ltb col n then n else col

-- The loop of `open_chunk`.
unfoldable pub skip_lines : ℕ → List ℕ → List ℕ
skip_lines nl_cnt [] = []
skip_lines nl_cnt (ch ∷ f) =
    if leb nl_cnt 1 then ch ∷ f else skip_lines (if ch == b'\n' then nl_cnt - 1 else nl_cnt) f

unfoldable pub open_chunk : ChunkView → List ℕ
open_chunk cnk = elim cnk.contents [ none ↦ [] | some f ↦ skip_lines cnk.first_nl f ]

abbrev pub next_indent : ℕ → ℕ → ℕ
next_indent ch indent = if ch == b'\t' then 8 else indent + 1

module _ (max_line_length : ℕ) where
  -- `if (lpos < max_line_length) ln[lpos++] = ch`.
  unfoldable pub put : ℕ → List ℕ → List ℕ
  put ch ln = if ltb (length ln) max_line_length then ln ++ (ch ∷ []) else ln

  -- The loop over the rest of a line, on the line and the file behind it.
  unfoldable pub fill_rest : List ℕ → List ℕ → List ℕ × List ℕ
  fill_rest [] ln = (ln, [])
  fill_rest (ch ∷ f) ln =
      if ch == b'\n' then (ln, f) else fill_rest f (put (if ch == b'\t' then b' ' else ch) ln)

  -- The loop over the initial blank.
  unfoldable pub fill_indent : List ℕ → ℕ → List ℕ → List ℕ × List ℕ
  fill_indent [] indent ln = (ln, [])
  fill_indent (ch ∷ f) indent ln =
      if ch == b' ' || ch == b'\t'
      then fill_indent f (if next_indent ch indent == 8 then 0 else next_indent ch indent)
          (if next_indent ch indent == 8 then put b' ' ln else ln)
      else fill_rest (ch ∷ f) ln

  unfoldable pub fill_line : List ℕ → List ℕ × List ℕ
  fill_line f = fill_indent f 0 []

  -- The characters that the loops of `show_2C_line` print: up to `max_line_length`, and to a NUL.
  unfoldable pub shown : ℕ → List ℕ → List ℕ
  shown i [] = []
  shown i (ch ∷ ln) = if ltb i max_line_length && not (ch == 0) then ch ∷ shown (i + 1) ln else []

  unfoldable pub show_2C_line : List ℕ → List ℕ → List ℕ
  show_2C_line ln0 ln1 =
      let s = shown 0 ln0 in
      (s ++ blanks max_line_length (length s)) ++ (b' ' ∷ b'|' ∷ (shown 0 ln1 ++ (b'\n' ∷ [])))

  -- A line of a chunk that has `nl_cnt` lines left: what is shown, and the file behind it.
  unfoldable pub chunk_line : ℕ → List ℕ → List ℕ × List ℕ
  chunk_line zero f = ([], f)
  chunk_line (suc nl_cnt) f = fill_line f

  -- The loop over the lines in two columns, on fuel.
  unfoldable pub show_lines : ℕ → ℕ → ℕ → List ℕ → List ℕ → Option (List ℕ)
  show_lines fuel zero zero f0 f1 = some []
  show_lines zero nl_cnt0 nl_cnt1 f0 f1 = none
  show_lines (suc fuel) nl_cnt0 nl_cnt1 f0 f1 =
      let (line0, f0') = chunk_line nl_cnt0 f0 in
      let (line1, f1') = chunk_line nl_cnt1 f1 in
      show_lines fuel (nl_cnt0 - 1) (nl_cnt1 - 1) f0' f1' >>= λ rest.
      some (show_2C_line line0 line1 ++ rest)

  -- The heading in two columns.
  unfoldable pub heading : ChunkView → ChunkView → ℕ → Option (List ℕ)
  heading cnk0 cnk1 size = pr_head cnk0 >>= λ h0. pr_head cnk1 >>= λ h1. unslen size >>= λ n.
      size_t2string size >>= λ str.
      let col = reached (max_line_length + 1) h0.0 + 1 + h1.0 in
      some (
        (h0.1 ++ blanks (max_line_length + 1) h0.0)
        ++ (b'|'
            ∷ (h1.1
                ++ (blanks (2 * max_line_length - n) col
                    ++ (b'[' ∷ (str ++ (b']' ∷ b'\n' ∷ [])))))))

-- `show_1C_line`, behind the marker; it stops at a NUL too.
unfoldable pub show_1C_from : List ℕ → List ℕ × List ℕ
show_1C_from [] = (b'\n' ∷ [], [])
show_1C_from (ch ∷ f) =
    let r = show_1C_from f in if ch == b'\n' || ch == 0 then (b'\n' ∷ [], f) else (ch ∷ r.0, r.1)

-- `while (nl_cnt--) show_1C_line(f, marker)`.
unfoldable pub show_1C_lines : ℕ → ℕ → List ℕ → List ℕ
show_1C_lines zero marker f = []
show_1C_lines (suc nl_cnt) marker f =
    let (line, f') = show_1C_from f in (marker ∷ line) ++ show_1C_lines nl_cnt marker f'

-- The heading under -d.
unfoldable pub diff_heading : ChunkView → ChunkView → Option (List ℕ)
diff_heading cnk0 cnk1 =
    pr_head cnk0 >>= λ h0. pr_head cnk1 >>= λ h1. some (h0.1 ++ (b'\n' ∷ (h1.1 ++ (b'\n' ∷ []))))

-- The options -d and -n.
pub record ShowOptions : Type 0 where
  pub diff : Bool
  pub heads_only : Bool

abbrev pub show_chunks : ShowOptions → ℕ → ChunkView → ChunkView → Option (List ℕ)
show_chunks o max_line_length cnk0 cnk1 =
    let nl_cnt0 = minus cnk0.last_nl cnk0.first_nl in
    let nl_cnt1 = minus cnk1.last_nl cnk1.first_nl in
    let f0 = open_chunk cnk0 in
    let f1 = open_chunk cnk1 in
    if o.heads_only
    then some []
    else if o.diff
    then some (
        show_1C_lines nl_cnt0 b'<' f0
        ++ (b'-' ∷ b'-' ∷ b'-' ∷ b'\n' ∷ show_1C_lines nl_cnt1 b'>' f1))
    else show_lines max_line_length (nl_cnt0 + nl_cnt1) nl_cnt0 nl_cnt1 f0 f1

unfoldable pub show_run : ShowOptions → ℕ → ChunkView → ChunkView → ℕ → Option (List ℕ)
show_run o max_line_length cnk0 cnk1 size =
    (if o.diff then diff_heading cnk0 cnk1 else heading max_line_length cnk0 cnk1 size) >>= λ head.
    show_chunks o max_line_length cnk0 cnk1 >>= λ rest. some (head ++ rest)

-- A run, as the iterator yields it.
pub record RunView : Type 0 where
  pub chunk0 : ChunkView
  pub chunk1 : ChunkView
  pub rn_size : ℕ

-- The loop of `Show_Runs`.
unfoldable pub show_each : ShowOptions → ℕ → List RunView → Option (List ℕ)
show_each o max_line_length [] = some []
show_each o max_line_length (r ∷ runs) =
    show_run o max_line_length r.chunk0 r.chunk1 r.rn_size >>= λ text.
    show_each o max_line_length runs >>= λ rest. some (text ++ (b'\n' ∷ rest))

-- `Show_Runs`, for a `Page_Width` of at least 4.
unfoldable pub show_runs : ShowOptions → ℕ → List RunView → Option (List ℕ)
show_runs o page_width runs = show_each o (page_width / 2 - 2) runs
