-- ===== src/Options.antt =====
-- sim/sim_2_89/options.c: the options at the front of an argument vector. The vector ends with a null
-- pointer, and is the list of its strings.
pub mod Skips
use run_server.Base.{
  ℕ, zero, suc, ◌+◌, ◌%◌, Bool, true, false, List, [], ◌∷◌, Option, none, some, ◌==◌, ◌&&◌, not,
  update, if◌then◌else◌, ◌>>=◌, drop, length,
}

-- `struct option`, with `op_stringp` as the number of the variable that it points to.
pub record OptionEntry : Type 0 where
  pub op_char : ℕ
  pub op_indicator : ℕ
  pub op_stringp : ℕ

-- `options[]`, and the variables for the values.
pub record Settings : Type 0 where
  pub options : ℕ → ℕ
  pub strings : ℕ → Option (List ℕ)

-- `set_option`, on an array of char.
unfoldable pub set_option : ℕ → Settings → Settings
set_option ch s = record s { options = update s.options ch ((s.options ch + 1) % 256) }

unfoldable pub is_set_option : Settings → ℕ → Bool
is_set_option s ch = not (s.options ch == 0)

-- The search for the entry of a character.
unfoldable pub find_option : ℕ → List OptionEntry → Option OptionEntry
find_option opc [] = none
find_option opc (op ∷ ops) = if opc == op.op_char then some op else find_option opc ops

-- `opt_value`: the number of arguments that are used, of which `next` are those behind the first.
-- `none` is the call of `bad_option`, which exits.
unfoldable pub opt_value : OptionEntry → List ℕ → List (List ℕ) → Settings → Option (ℕ × Settings)
opt_value op (c ∷ arg) next s =
    some (1, record s { strings = update s.strings op.op_stringp (some (c ∷ arg)) })
opt_value op [] (value ∷ next) s =
    some (2, record s { strings = update s.strings op.op_stringp (some value) })
opt_value op [] [] s = none

-- An argument that `do_options` treats: `-` with a character behind it.
abbrev pub is_option : List ℕ → Bool
is_option [] = false
is_option (c ∷ []) = false
is_option (c ∷ d ∷ arg) = c == b'-'

module _ (optlist : List OptionEntry) where
  -- `do_arg`, on the characters behind the `-`.
  unfoldable pub do_arg : List ℕ → List (List ℕ) → Settings → Option (ℕ × Settings)
  do_arg [] next s = some (1, s)
  do_arg (opc ∷ arg) next s = elim (find_option opc optlist) [
    | none ↦ none
    | some op ↦ elim (op.op_indicator == b' ') [
      | true ↦ do_arg arg next (set_option opc s)
      | false ↦ opt_value op arg next (set_option opc s)
    ]
  ]

  -- `do_options`, on fuel: the number of arguments that are skipped.
  unfoldable pub options_from : ℕ → List (List ℕ) → Settings → Option (ℕ × Settings)
  options_from zero argv s = some (0, s)
  options_from (suc fuel) [] s = some (0, s)
  options_from (suc fuel) (arg ∷ next) s = elim (is_option arg) [
    | false ↦ some (0, s)
    | true ↦ do
      (consumed, s') ← do_arg (drop 1 arg) next s
      (skips, s'') ← options_from fuel (drop consumed (arg ∷ next)) s'
      some (consumed + skips, s'')
  ]

  -- `do_options`, where `argc` is the length of `argv`.
  unfoldable pub do_options : List (List ℕ) → Settings → Option (ℕ × Settings)
  do_options argv s = options_from (length argv) argv s
