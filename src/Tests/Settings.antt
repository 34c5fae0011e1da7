-- ===== src/Tests/Settings.antt =====
-- The options `-ef -r 20` in front of a file name.
use run_server.Base.{ℕ, ◌≡◌, refl, List, [], ◌∷◌, ◌++◌, none, some, zeros}
use run_server.Options.{
  OptionEntry, Settings, find_option, opt_value, do_arg, options_from, do_options,
}
use run_server.Options.Skips.{AllFlagArgs, with_dashes, IsRaised, do_options-flags}

abbrev optlist : List OptionEntry
optlist =
    record { op_char = b'e'; op_indicator = b' '; op_stringp = 0 }
    ∷ record { op_char = b'f'; op_indicator = b' '; op_stringp = 0 }
    ∷ record { op_char = b'r'; op_indicator = b'N'; op_stringp = 1 }
    ∷ []

abbrev no_settings : Settings
no_settings = record { options = zeros; strings = λ p. none }

abbrev argv : List (List ℕ)
argv = (b'-' ∷ b'e' ∷ b'f' ∷ []) ∷ (b'-' ∷ b'r' ∷ []) ∷ (b'2' ∷ b'0' ∷ []) ∷ (b'x' ∷ []) ∷ []

parsed : (s : Settings) × (do_options optlist argv no_settings ≡ some (3, s))
unfolding do_options options_from do_arg opt_value find_option
parsed = (_, refl)

abbrev flag_args : List (List ℕ)
flag_args = (b'e' ∷ b'f' ∷ []) ∷ (b'e' ∷ []) ∷ []

all_flags : AllFlagArgs optlist flag_args
unfolding find_option
all_flags = (((_, refl, refl), ((_, refl, refl), tt)), (((_, refl, refl), tt), tt))

do_options-flags_example :
    (s' : Settings) × (do_options optlist (with_dashes flag_args ++ ((b'x' ∷ []) ∷ [])) no_settings
      ≡ some (2, s'))
    × IsRaised flag_args no_settings s'
do_options-flags_example =
    do_options-flags optlist flag_args ((b'x' ∷ []) ∷ []) no_settings all_flags refl
