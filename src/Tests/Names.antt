-- ===== src/Tests/Names.antt =====
-- The names `ab` and `c` on standard input, with blank lines.
use run_server.Base.{ℕ, ◌≡◌, refl, List, [], ◌∷◌, none, some, map, arith}
use run_server.NewArgs.{
  get_new_std_input_args, std_input, std_input_from, add_char_to_args, string_at,
}
use run_server.NewArgs.Names.{Entry, AllNames, input_of, get_new_std_input_args-names}

abbrev first : Entry
first = record { blanks = 2; name = b'a' ∷ b'b' ∷ [] }

abbrev second : List Entry
second = record { blanks = 0; name = b'c' ∷ [] } ∷ []

all_names : AllNames (first ∷ second)
all_names = (
  omega arith,
  (
    λ e. absurd (omega arith),
    λ e. absurd (omega arith),
    (λ e. absurd (omega arith), λ e. absurd (omega arith), tt),
  ),
  (omega arith, (λ e. absurd (omega arith), λ e. absurd (omega arith), tt), tt),
)

get_new_std_input_args-names_example :
    (memory argv : List ℕ) × (get_new_std_input_args (input_of (first ∷ second) 1)
      ≡ some (2, memory, argv))
    × (map (string_at memory) argv ≡ map (λ (x : Entry). x.name) (first ∷ second))
get_new_std_input_args-names_example = get_new_std_input_args-names first second 1 all_names

-- Without input the index `args_free - 2` is out of bounds.
no_input : std_input [] ≡ none
unfolding std_input std_input_from add_char_to_args
no_input = refl
