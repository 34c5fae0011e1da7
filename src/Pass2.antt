-- ===== src/Pass2.antt =====
-- sim/sim_2_89/pass2.c, and the second pass of text.c: the positions of a text get their line numbers
-- from the newline buffer.
pub mod LineNumbers
pub mod TwoPasses
use run_server.Base.{
  ℕ, zero, suc, ◌+◌, ◌-◌, Bool, List, [], ◌∷◌, Option, none, some, ltb, leb, ◌==◌, if◌then◌else◌,
  ◌>>=◌, get_elem?,
}
use run_server.Token.{end_of_line}
use run_server.Text.{Position}
use run_server.Newlines.{Lex}
use run_server.SortList.{sort_list}

-- The variables of the second pass: those of the scanner, and `nl_next`, `last_nl_cnt` and `last_tk_cnt`.
pub record Reader : Type 0 where
  pub lex : Lex
  pub nl_next : ℕ
  pub last_nl_cnt : ℕ
  pub last_tk_cnt : ℕ

-- `Open_Text(Second_Pass, txt)` with a buffer; `lex_token` keeps its value.
unfoldable pub open_second : ℕ → ℕ → Reader
open_second lex_token tx_nl_start = record {
  lex = record { lex_token = lex_token; lex_nl_cnt = 1; lex_tk_cnt = 0 };
  nl_next = tx_nl_start;
  last_nl_cnt = 1;
  last_tk_cnt = 0;
}

-- "fill in the pos"
unfoldable pub fill_pos : ℕ → ℕ → Position → Position
fill_pos old_nl_cnt lex_nl_cnt pos =
    if pos.ps_type == 0
    then record pos { ps_nl_cnt = old_nl_cnt }
    else if pos.ps_type == 1
    then record pos { ps_nl_cnt = lex_nl_cnt }
    else pos

module _ (nl_buff : List ℕ) (nl_limit : ℕ) where
  -- `Next_Text_EOL_Obtained` with a buffer; the inner `none` is its return of 0, and the outer one a
  -- read past the entries of the buffer.
  unfoldable pub next_text_eol : Reader → Option (Option Reader)
  next_text_eol r =
      if r.nl_next == nl_limit then some none else elim (get_elem? nl_buff r.nl_next) [
        | none ↦ none
        | some nl_tk_diff ↦ some (
            some (record {
              lex = record {
                lex_token = end_of_line;
                lex_nl_cnt = r.last_nl_cnt + 1;
                lex_tk_cnt = r.last_tk_cnt + nl_tk_diff;
              };
              nl_next = r.nl_next + 1;
              last_nl_cnt = r.last_nl_cnt + 1;
              last_tk_cnt = r.last_tk_cnt + nl_tk_diff;
            }))
      ]

  -- "find the corresponding line": the inner loop of `pass2_txt`, on fuel, with `old_nl_cnt`.
  unfoldable pub find_line : ℕ → ℕ → ℕ → Reader → Option (ℕ × Reader)
  find_line zero ps_tk_cnt old_nl_cnt r = none
  find_line (suc fuel) ps_tk_cnt old_nl_cnt r =
      let rest : Option (ℕ × Reader) = elim (next_text_eol r) [
        | none ↦ none
        | some none ↦ some (r.lex.lex_nl_cnt, r)
        | some (some r') ↦ find_line fuel ps_tk_cnt r.lex.lex_nl_cnt r'
      ] in
      if leb r.lex.lex_tk_cnt ps_tk_cnt then rest else some (old_nl_cnt, r)

  -- The loop of `pass2_txt` over the sorted positions.
  unfoldable pub fill_from : List Position → ℕ → Reader → Option (List Position)
  fill_from [] old_nl_cnt r = some []
  fill_from (pos ∷ poss) old_nl_cnt r = do
    (old, r') ← find_line (suc (nl_limit - r.nl_next)) pos.ps_tk_cnt old_nl_cnt r
    rest ← fill_from poss old r'
    some (fill_pos old r'.lex.lex_nl_cnt pos ∷ rest)

-- SORT_BEFORE of `sort_pos_list`
abbrev pub pos_before : Position → Position → Bool
pos_before p1 p2 = ltb p1.ps_tk_cnt p2.ps_tk_cnt

-- `pass2_txt`, with a buffer, for a text with positions.
unfoldable pub pass2_txt : List ℕ → ℕ → ℕ → ℕ → List Position → Option (List Position)
pass2_txt nl_buff lex_token tx_nl_start tx_nl_limit tx_pos =
    fill_from nl_buff tx_nl_limit (sort_list pos_before tx_pos) 1
      (open_second lex_token tx_nl_start)
