-- ===== src/NewArgs.antt =====
-- sim/sim_2_89/newargs.c: the file names on standard input, one on a line, become an argument vector.
-- Realloc() ends the program if there is no memory, so it is not seen here.
pub mod Names
use run_server.Base.{
  ℕ, ◌+◌, ◌-◌, Bool, List, [], ◌∷◌, ◌++◌, Option, none, some, ltb, ◌==◌, ◌&&◌, if◌then◌else◌, ◌>>=◌,
  length, get_elem?, drop,
}

abbrev pub newline : ℕ
newline = 10

abbrev pub args_incr : ℕ
args_incr = 1024

-- `args`, the first `args_free` of its characters, and `args_size`.
pub record Args : Type 0 where
  pub args : List ℕ
  pub args_size : ℕ

abbrev pub init_args : Args
init_args = record { args = []; args_size = 0 }

unfoldable pub add_char_to_args : ℕ → Args → Args
add_char_to_args ch a = record {
  args = a.args ++ (ch ∷ []);
  args_size = if length a.args == a.args_size then a.args_size + args_incr else a.args_size;
}

-- The loop of `std_input`, over the characters that getchar() returns.
unfoldable pub std_input_from : List ℕ → ℕ → Args → Args
std_input_from [] last_char a = a
std_input_from (ch ∷ input) last_char a =
    if last_char == newline && ch == newline
    then std_input_from input last_char a
    else std_input_from input ch (add_char_to_args ch a)

-- `std_input`; `none` is the call of `fatal`, or the read of args[-1] on empty input.
unfoldable pub std_input : List ℕ → Option (List ℕ)
std_input input =
    let a = add_char_to_args 0 (std_input_from input newline init_args) in
    if ltb (length a.args) 2 then none else elim (get_elem? a.args (length a.args - 2)) [
      | none ↦ none
      | some c ↦ if c == newline then some a.args else none
    ]

-- `n_names`, on the memory from `s` on.
unfoldable pub n_names : List ℕ → ℕ
n_names [] = 0
n_names (c ∷ s) = if c == 0 then 0 else (if c == newline then 1 else 0) + n_names s

-- The loop of `new_argv`, on the memory from index `p` on: the memory that it leaves, and `argv`.
unfoldable pub new_argv_from : List ℕ → ℕ → ℕ → List ℕ × List ℕ
new_argv_from [] p last_char = ([], [])
new_argv_from (c ∷ s) p last_char =
    let (memory, argv) = new_argv_from s (p + 1) c in
    if c == 0
    then (c ∷ s, [])
    else ((if c == newline then 0 else c) ∷ memory, if last_char == newline then p ∷ argv else argv)

-- `get_new_std_input_args`: `argc`, the memory, and `argv`, without the null pointer at its end.
unfoldable pub get_new_std_input_args : List ℕ → Option (ℕ × List ℕ × List ℕ)
get_new_std_input_args input = do
  n_args ← std_input input
  let (memory, argv) = new_argv_from n_args 0 newline
  some (n_names n_args, memory, argv)

-- The string that starts at an index of the memory.
abbrev pub c_string : List ℕ → List ℕ
c_string [] = []
c_string (c ∷ s) = if c == 0 then [] else c ∷ c_string s

abbrev pub string_at : List ℕ → ℕ → List ℕ
string_at memory p = c_string (drop p memory)
