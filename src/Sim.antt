-- ===== src/Sim.antt =====
-- sim/sim_2_89/sim.c: the checks on the options, and the order of the work.
pub mod Checks
pub mod Whole
use run_server.Base.{
  ℕ, zero, suc, ◌+◌, Bool, true, false, List, [], ◌∷◌, Option, none, some, ltb, leb, ◌==◌, ◌&&◌,
  ◌||◌, not, if◌then◌else◌, ◌>>=◌,
}
use run_server.Syscalls.{ℤ, pos, negsuc, is_zero}
use run_server.Parameters.{atoi}
use run_server.Options.{OptionEntry, Settings, set_option, is_set_option}
use run_server.Text.{Text}
use run_server.Language.{Language}
use run_server.Newlines.{Lex}
use run_server.TokenArray.{TokenArray, token_array_length}
use run_server.Pass1.{Argument, Pass, read_input_files}
use run_server.Hash.{make_forward_references}
use run_server.Compare.{CompareOptions, compare_files}

-- The variables for the values, by number.
abbrev pub min_run_string : ℕ
min_run_string = 0

abbrev pub page_width_string : ℕ
page_width_string = 1

abbrev pub threshold_string : ℕ
threshold_string = 2

abbrev pub output_name : ℕ
output_name = 3

abbrev flag_entry : ℕ → OptionEntry
flag_entry ch = record { op_char = ch; op_indicator = b' '; op_stringp = 4 }

abbrev number_entry : ℕ → ℕ → OptionEntry
number_entry ch variable = record { op_char = ch; op_indicator = b'N'; op_stringp = variable }

-- `optlist`, in its order.
abbrev pub optlist : List OptionEntry
optlist =
    number_entry b'r' min_run_string
    ∷ number_entry b'w' page_width_string
    ∷ flag_entry b'f'
    ∷ flag_entry b'F'
    ∷ flag_entry b'd'
    ∷ flag_entry b'T'
    ∷ flag_entry b'n'
    ∷ flag_entry b'p'
    ∷ flag_entry b'P'
    ∷ number_entry b't' threshold_string
    ∷ flag_entry b'e'
    ∷ flag_entry b's'
    ∷ flag_entry b'S'
    ∷ flag_entry b'R'
    ∷ flag_entry b'i'
    ∷ record { op_char = b'o'; op_indicator = b'F'; op_stringp = output_name }
    ∷ flag_entry b'v'
    ∷ flag_entry b'M'
    ∷ flag_entry b'-'
    ∷ []

-- The inner loop of `allow_at_most_one_out_of`: the option that clashes with `first`.
unfoldable pub clash_with : Settings → ℕ → List ℕ → Option ℕ
clash_with s first [] = none
clash_with s first (second ∷ opts) =
    if is_set_option s first && is_set_option s second then some second else clash_with s first opts

-- The pair of options for which `allow_at_most_one_out_of` calls `fatal`.
unfoldable pub clash : Settings → List ℕ → Option (ℕ × ℕ)
clash s [] = none
clash s (first ∷ opts) = elim (clash_with s first opts) [
  | some second ↦ some (first, second)
  | none ↦ clash s opts
]

-- "dnpPT".
abbrev pub one_of : List ℕ
one_of = b'd' ∷ b'n' ∷ b'p' ∷ b'P' ∷ b'T' ∷ []

-- The calls of `fatal`.
pub data Fatal : Type 0 where
  incompatible : ℕ → ℕ → Fatal
  threshold_without_percentages bad_run_size bad_page_width bad_threshold bad_output : Fatal
  names_and_standard_input : Fatal

-- The parameters of the program, with the settings behind the simple options.
pub record Config : Type 0 where
  pub settings : Settings
  pub min_run_size : ℤ
  pub page_width : ℤ
  pub threshold_percentage : ℤ

-- `main` up to the names of the files: it goes on, it has printed the version, it has called `fatal`, or
-- a number overflows in `atoi`.
pub data Checked : Type 0 where
  go_on : Config → Checked
  version : Checked
  fatal : Fatal → Checked
  overflow : Checked

-- The simple options -P and -p, which set others.
unfoldable pub imply : Settings → Settings
imply s =
    let s1 = if is_set_option s b'P' then set_option b'p' s else s in
    if is_set_option s1 b'p' then set_option b's' (set_option b'e' s1) else s1

-- `x > 0`.
abbrev pub is_positive : ℤ → Bool
is_positive (pos zero) = false
is_positive (pos (suc n)) = true
is_positive (negsuc n) = false

-- `x > 100`.
abbrev pub over_hundred : ℤ → Bool
over_hundred (pos n) = ltb 100 n
over_hundred (negsuc n) = false

abbrev pub is_percentage : ℤ → Bool
is_percentage x = not (over_hundred x) && is_positive x

-- A value option: its default, or the value that `atoi` reads, if it passes the test.
unfoldable pub value_of : Option (List ℕ) → ℤ → (ℤ → Bool) → Fatal → (ℤ → Checked) → Checked
value_of none default test bad next = next default
value_of (some text) default test bad next = elim (atoi text) [
  | none ↦ overflow
  | some x ↦ if test x then next x else fatal bad
]

abbrev pub has_no_percentages : Settings → Bool
has_no_percentages s = not (is_set_option s b'p') && not (is_set_option s b'P')

-- `output_name`, which `writable` says whether it can be opened, and -i, which takes no arguments.
unfoldable pub check_files : Bool → ℕ → Config → Checked
check_files writable argc c = elim (c.settings.strings output_name) [
  | none ↦
      if is_set_option c.settings b'i' && not (argc == 0)
      then fatal names_and_standard_input
      else go_on c
  | some name ↦
      if not writable
      then fatal bad_output
      else if is_set_option c.settings b'i' && not (argc == 0)
      then fatal names_and_standard_input
      else go_on c
]

-- The value options.
unfoldable pub check_values : Bool → ℕ → Settings → Checked
check_values writable argc s =
    value_of (s.strings min_run_string) (pos 24) (λ x. not (is_zero x)) bad_run_size
      λ min_run_size.
        value_of (s.strings page_width_string) (pos 80) is_positive bad_page_width λ page_width.
          value_of (s.strings threshold_string) (pos 1) is_percentage bad_threshold λ threshold.
            check_files writable argc (record {
              settings = s;
              min_run_size = min_run_size;
              page_width = page_width;
              threshold_percentage = threshold;
            })

-- The checks of `main` behind do_options, with `argc` arguments left.
unfoldable pub check_options : Bool → ℕ → Settings → Checked
check_options writable argc s = elim (clash s one_of) [
  | some (first, second) ↦ fatal (incompatible first second)
  | none ↦
      if is_set_option s b't' && has_no_percentages s
      then fatal threshold_without_percentages
      else if is_set_option s b'v'
      then version
      else check_values writable argc (imply s)
]

-- What the work depends on: the memory that is granted and what it holds, and what the scanner and the
-- newline buffer have left.
pub record Machine : Type 0 where
  pub try_realloc : ℕ → Bool
  pub try_array : ℕ → Bool
  pub try_calloc : ℕ → Bool
  pub memory : ℕ → Text
  pub tokens : ℕ → ℕ
  pub lex : Lex
  pub last_tk_cnt : ℕ

-- `read_and_compare_files`, with the state `first` of add_run on the texts that have been read.
module _ {ℓ} {State : Type ℓ} (add_run : ℕ → ℕ → ℕ → ℕ → ℕ → State → State)
    (first : List Text → State) where
  unfoldable pub read_and_compare_files :
      Machine → Language → ℕ → CompareOptions → List Argument → Option State
  read_and_compare_files m lang min_run_size o args =
      read_input_files m.try_realloc m.try_array m.memory m.tokens m.lex m.last_tk_cnt args >>= λ r.
      let texts = r.0 in
      let array = r.1.array.token_array in
      let n = token_array_length r.1.array in
      make_forward_references min_run_size array n lang.may_be_start_of_run m.try_calloc texts
      >>= λ table.
          compare_files add_run lang min_run_size array n table texts o r.1.number_of_new_texts
            (first texts)
