-- ===== src/Tests/Passes.antt =====
-- The two passes over the text `x y`, a blank line, and `z` without an end.
use mathlib.Core.List.{Mem, Memᴰ}
use mathlib.Core.Logic.{∥∥₁_elim}
use mathlib.Core.HLevel.{⊥_prop}
use run_server.Base.{
  ℕ, length, ◌≤◌, ◌+◌, ◌<◌, ◌^◌, ◌≡◌, inr, refl, sym, subst, dec_lt, true, Bool, List, [], ◌∷◌,
  ◌++◌, some, map, ltb, zeros, get_elem?, arith,
}
use run_server.Text.{Position, Text, Ordered}
use run_server.Pass1.{Argument, Pass, read_input_files}
use run_server.Pass1.Descriptors.{read_input_files-Ordered}
use run_server.Tests.Data.{text}
use run_server.Token.{end_of_line}
use run_server.SortList.{sort_list, sort_from, split, merge}
use run_server.TokenArray.{TokenArray, init_token_array}
use run_server.TokenArray.Growth.{IsInside, init_token_array-IsInside}
use run_server.Newlines.{Lex, NlBuff, read_tokens, open_text, close_text}
use run_server.Newlines.Lines.{lines, Holds}
use run_server.Newlines.FirstPass.{tokens, read_text-Holds}
use run_server.Pass2.{
  pass2_txt, pos_before, open_second, fill_from, fill_pos, find_line, next_text_eol,
}
use run_server.Pass2.LineNumbers.{AllBelow}
use run_server.Pass2.TwoPasses.{line_of, with_line, pass2_txt-lines}

abbrev lexemes : List ℕ
lexemes = 7 ∷ 8 ∷ end_of_line ∷ end_of_line ∷ 9 ∷ []

abbrev lex : Lex
lex = record { lex_token = 0; lex_nl_cnt = 0; lex_tk_cnt = 0 }

abbrev buffer : NlBuff
buffer = record { nl_buff = some (3 ∷ []); nl_size = 1024; last_tk_cnt = 3 }

abbrev memory : ℕ → Bool
memory size = ltb size (2 ^ 63)

all_granted : (size : ℕ) → size < 2 ^ 63 → ltb size (2 ^ 63) ≡ true
all_granted size lt = ground arith

abbrev start : TokenArray
start = init_token_array zeros

read_text-Holds_example :
    (s : Lex × NlBuff) × (a' : TokenArray) × (read_tokens memory memory lexemes
        (open_text (lex, buffer))
        start
      ≡ some (s, a'))
    × IsInside a'
    × (a'.tk_free ≡ start.tk_free + 3)
    × ((k : ℕ) → k < start.tk_free → a'.token_array k ≡ start.token_array k)
    × ((k : ℕ) → k < 3 → get_elem? (tokens lexemes) k ≡ some (a'.token_array (start.tk_free + k)))
    × Holds (close_text memory s).1 ((3 ∷ []) ++ lines lexemes 0)
read_text-Holds_example =
    read_text-Holds memory memory all_granted lexemes lex buffer start (3 ∷ [])
      (init_token_array-IsInside zeros) (omega arith) (inr refl)

-- The first and the last position of a chunk of the last two tokens.
abbrev positions : List Position
positions =
    record { ps_type = 1; ps_tk_cnt = 2; ps_nl_cnt = 0 }
    ∷ record { ps_type = 0; ps_tk_cnt = 1; ps_nl_cnt = 0 }
    ∷ []

AllBelow-mem :
    (n : ℕ) (l : List Position) (pos : Position) → AllBelow n l → Memᴰ pos l → pos.ps_tk_cnt < n
AllBelow-mem n [] pos b d = elim d [ ]
AllBelow-mem n (q ∷ l) pos (lt, b) (Memᴰ.head e) =
    subst (λ (x : Position). x.ps_tk_cnt < n) (sym e) lt
AllBelow-mem n (q ∷ l) pos (lt, b) (Memᴰ.tail d) = AllBelow-mem n l pos b d

positions_below : (pos : Position) → Mem pos positions → pos.ps_tk_cnt < 3
positions_below pos m = elim (dec_lt pos.ps_tk_cnt 3) [
  | yes lt ↦ lt
  | no ge ↦ absurd (
      ∥∥₁_elim m ⊥_prop (λ d. ge (AllBelow-mem 3 positions pos (omega arith, (omega arith, tt)) d)))
]

pass2_txt-lines_example :
    pass2_txt ((3 ∷ []) ++ (lines lexemes 0 ++ (5 ∷ []))) 0 1 4 positions
    ≡ some (map (with_line (line_of lexemes)) (sort_list pos_before positions))
pass2_txt-lines_example = pass2_txt-lines lexemes (3 ∷ []) (5 ∷ []) 0 positions positions_below

line_numbers :
    pass2_txt (3 ∷ 2 ∷ 0 ∷ 1 ∷ 5 ∷ []) 0 1 4 positions
    ≡ some (
        record { ps_type = 0; ps_tk_cnt = 1; ps_nl_cnt = 1 }
        ∷ record { ps_type = 1; ps_tk_cnt = 2; ps_nl_cnt = 4 }
        ∷ [])
unfolding pass2_txt sort_list sort_from split merge open_second fill_from fill_pos find_line
    next_text_eol
line_numbers = refl

-- The text, a separator, and an empty file.
abbrev arguments : List Argument
arguments =
    record { pointer = 100; characters = b'a' ∷ []; lexemes = lexemes }
    ∷ record { pointer = 101; characters = b'/' ∷ []; lexemes = [] }
    ∷ record { pointer = 102; characters = b'b' ∷ []; lexemes = [] }
    ∷ []

abbrev memory_of : ℕ → Text
memory_of n = text 0 0 0

read_input_files-Ordered_example :
    (texts : List Text) × (s : Pass) × (read_input_files memory memory memory_of zeros lex 0
        arguments
      ≡ some (texts, s))
    × Ordered 1 texts s.array.tk_free
    × (length texts ≡ 3)
    × (s.number_of_new_texts ≤ length texts)
read_input_files-Ordered_example =
    read_input_files-Ordered memory memory memory_of all_granted zeros lex 0 arguments (omega arith)
