-- ===== src/Tests/Pages.antt =====
-- Numbers as strings, and a run in two columns, on small inputs.
use run_server.Base.{ℕ, ◌≤◌, ◌≡◌, refl, true, false, List, [], ◌∷◌, ◌++◌, some, length, arith}
use run_server.Syscalls.{pos}
use run_server.Parameters.{int_neg, atoi}
use run_server.AnyInt.{
  protect_size, put_digits, put_char, fill_up, int_text, Buffers, next_buff, int2string,
}
use run_server.AnyInt.Texts.{IsDecimal, int_text_lem}
use run_server.AnyInt.Recent.{Call, call_all, int2string_recent}
use run_server.Pass3.{
  ChunkView, ShowOptions, skip_lines, put, fill_rest, fill_indent, fill_line, shown, show_2C_line,
  chunk_line, show_lines, heading, show_run,
}
use run_server.Pass3.Cells.{cell_at, padded, row_of}
use run_server.Pass3.LineSkips.{drop_lines}
use run_server.Pass3.Tables.{larger, rows}
use run_server.Pass3.Shown.{show_run-rows}

minus_seven : int_text 7 true (pos 4) ≡ some (b' ' ∷ b' ' ∷ b'-' ∷ b'7' ∷ [])
unfolding int_text put_digits protect_size fill_up put_char
minus_seven = refl

int_text_lem_example :
    (text : List ℕ) × (int_text 1024 true (pos 9) ≡ some text)
    × IsDecimal 1024 true (pos 9) text
    × (atoi text ≡ int_neg 1024)
    × (length text ≤ 40)
int_text_lem_example = int_text_lem 1024 true (pos 9) (omega arith)

abbrev seven : Call
seven = record { val = 7; neg = false; size = pos 0 }

abbrev eight : Call
eight = record { val = 8; neg = false; size = pos 0 }

abbrev no_buffers : Buffers
no_buffers = record { buff = λ i. []; next_buff_cnt = 0 }

called : (b : Buffers) × (int2string 7 false (pos 0) no_buffers ≡ some (0, b))
unfolding int2string next_buff int_text put_digits protect_size fill_up put_char
called = (_, refl)

called_again : (b : Buffers) × (call_all (eight ∷ []) called.0 ≡ some b)
unfolding called call_all int2string next_buff int_text put_digits protect_size fill_up put_char
called_again = (_, refl)

int2string_recent_example : int_text 7 false (pos 0) ≡ some (called_again.0.buff 0)
int2string_recent_example =
    int2string_recent seven (eight ∷ []) no_buffers called.0 called_again.0 0 (omega arith) called.1
      called_again.1 (omega arith)

abbrev left_text : List ℕ
left_text = b'x' ∷ 10 ∷ 9 ∷ b'i' ∷ b'f' ∷ 10 ∷ b'}' ∷ 10 ∷ []

abbrev right_text : List ℕ
right_text = b'}' ∷ 10 ∷ []

abbrev left_chunk : ChunkView
left_chunk = record { fname = b'a' ∷ []; first_nl = 2; last_nl = 4; contents = some left_text }

abbrev right_chunk : ChunkView
right_chunk = record { fname = b'b' ∷ []; first_nl = 1; last_nl = 2; contents = some right_text }

abbrev columns : ShowOptions
columns = record { diff = false; heads_only = false }

two_lines :
    show_lines 3 3 2 1 (skip_lines 2 left_text) right_text
    ≡ some (
        (b' ' ∷ b'i' ∷ b'f' ∷ b' ' ∷ b'|' ∷ b'}' ∷ 10 ∷ [])
        ++ (b'}' ∷ b' ' ∷ b' ' ∷ b' ' ∷ b'|' ∷ 10 ∷ []))
unfolding show_lines skip_lines chunk_line fill_line fill_indent fill_rest put show_2C_line shown
two_lines = refl

show_run-rows_example :
    (head : List ℕ) × (heading 20 left_chunk right_chunk 9 ≡ some head)
    × (show_run columns 20 left_chunk right_chunk 9
        ≡ some (
            head
            ++ rows
                (row_of 20 2 1 (drop_lines 1 left_text) (drop_lines 0 right_text))
                (larger 2 1)
                0))
    × (length (padded 20 (cell_at 20 2 (drop_lines 1 left_text) 1)) ≡ 20)
    × (length (cell_at 20 1 (drop_lines 0 right_text) 1) ≤ 20)
show_run-rows_example =
    show_run-rows columns 20 9 1 0 1 left_chunk right_chunk left_text right_text refl refl
      (record { opened = refl; first_line = refl; small = omega arith })
      (record { opened = refl; first_line = refl; small = omega arith }) (omega arith)
