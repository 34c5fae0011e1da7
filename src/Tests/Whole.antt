-- ===== src/Tests/Whole.antt =====
-- The main program of SIM on two equal files, and its checks on the options -p and -t 30.
use run_server.Base.{
  ℕ, ◌<◌, ◌^◌, ◌≡◌, refl, true, List, [], ◌∷◌, some, none, ltb, zeros, update, arith,
}
use run_server.Text.{Text, Position}
use run_server.Token.{end_of_line}
use run_server.TokenArray.{store_token, grow}
use run_server.Idf.{str_eq}
use run_server.Newlines.{
  yylex, init_nl_buff, store_diff, store_newline, next_text_token, close_text, read_tokens,
}
use run_server.Pass1.{Argument, Pass, is_new_old_separator, read_file, read_files, read_input_files}
use run_server.AddRun.{Places}
use run_server.AddRun.Positions.{IsPlaced, SameTexts}
use run_server.AddRun.Compared.{place_run}
use run_server.Parameters.{atoi, int_pos, digits_from}
use run_server.Checker.{is_space}
use run_server.Options.{Settings, set_option, is_set_option}
use run_server.Sim.{
  Machine, read_and_compare_files, Config, go_on, clash, clash_with, imply, value_of, check_files,
  check_values, check_options,
}
use run_server.Sim.Whole.{first_places, read_and_compare_files-IsPlaced}
use run_server.Sim.Checks.{IsChecked, check_options-IsChecked}
use run_server.Tests.Data.{text, any_run, to_others}

abbrev files : List Argument
files =
    record { pointer = 100; characters = b'a' ∷ []; lexemes = 7 ∷ 8 ∷ 9 ∷ end_of_line ∷ [] }
    ∷ record { pointer = 101; characters = b'b' ∷ []; lexemes = 7 ∷ 8 ∷ 9 ∷ end_of_line ∷ [] }
    ∷ []

abbrev machine : Machine
machine = record {
  try_realloc = λ size. ltb size (2 ^ 63);
  try_array = λ size. ltb size (2 ^ 63);
  try_calloc = λ size. true;
  memory = λ n. text 0 0 0;
  tokens = zeros;
  lex = record { lex_token = 0; lex_nl_cnt = 0; lex_tk_cnt = 0 };
  last_tk_cnt = 0;
}

abbrev no_positions : ℕ → Position
no_positions i = record { ps_type = 0; ps_tk_cnt = 0; ps_nl_cnt = 0 }

granted : (size : ℕ) → size < 2 ^ 63 → machine.try_array size ≡ true
granted size lt = ground arith

files_read :
    (texts : List Text) × (s : Pass) × (read_input_files machine.try_realloc machine.try_array
        machine.memory machine.tokens machine.lex machine.last_tk_cnt files
      ≡ some (texts, s))
    × (s.array.tk_free ≡ 7)
unfolding read_input_files read_files read_file is_new_old_separator str_eq read_tokens
    next_text_token store_token grow yylex init_nl_buff store_diff store_newline close_text
files_read = (_, _, refl, refl)

read_and_compare_files-IsPlaced_example :
    (places : Places) × (read_and_compare_files place_run
        (first_places no_positions)
        machine
        any_run
        3
        to_others
        files
      ≡ some (some places))
    × IsPlaced places
    × SameTexts (record { texts = files_read.0; positions = no_positions; n_positions = 0 }) places
read_and_compare_files-IsPlaced_example =
    read_and_compare_files-IsPlaced machine files no_positions granted (omega arith) any_run 3
      to_others files_read.0 files_read.1 (omega arith) refl files_read.2
      (omega (arith, files_read.3))

abbrev percentages : Settings
percentages = record {
  options = update (update zeros b'p' 1) b't' 1;
  strings = update (λ v. none) 2 (some (b'3' ∷ b'0' ∷ []));
}

checked : (c : Config) × (check_options true 2 percentages ≡ go_on c)
unfolding check_options check_values value_of check_files clash clash_with imply set_option
    is_set_option atoi int_pos digits_from is_space
checked = (_, refl)

check_options-IsChecked_example : IsChecked percentages checked.0
check_options-IsChecked_example =
    check_options-IsChecked true 2 percentages checked.0 (omega arith) (omega arith) (omega arith)
      checked.1
