-- ===== src/Pass1.antt =====
-- sim/sim_2_89/pass1.c: Read_Input_Files fills the text descriptors, the token array and the newline
-- buffer. Its reports are not modelled. An argument is given with the tokens that yylex() returns for
-- the file, none if it cannot be opened.
pub mod Descriptors
use run_server.Base.{
  ℕ, ◌+◌, Bool, true, false, List, [], ◌∷◌, Option, none, some, ◌||◌, if◌then◌else◌, ◌>>=◌, length,
}
use run_server.Text.{Text}
use run_server.Token.{end_of_line, token_eq}
use run_server.Idf.{str_eq}
use run_server.TokenArray.{TokenArray, init_token_array, token_array_length}
use run_server.Newlines.{Lex, NlBuff, init_nl_buff, open_text, close_text, read_tokens}

-- An element of argv[]: its pointer, its characters, and the tokens of the file.
pub record Argument : Type 0 where
  pub pointer : ℕ
  pub characters : List ℕ
  pub lexemes : List ℕ

-- The variables that the loop changes.
pub record Pass : Type 0 where
  pub lex : Lex
  pub buff : NlBuff
  pub array : TokenArray
  pub number_of_new_texts : ℕ

-- `is_new_old_separator`
unfoldable pub is_new_old_separator : List ℕ → Bool
is_new_old_separator s = str_eq s (b'/' ∷ []) || str_eq s (b'|' ∷ [])

-- `if (nl_buff) field = nl_free;`
abbrev pub nl_free_or : NlBuff → ℕ → ℕ
nl_free_or b old = elim b.nl_buff [ none ↦ old | some entries ↦ length entries ]

-- The descriptor as the body of the loop begins it, in the memory that Malloc() gave for it.
abbrev pub begin_text : Text → ℕ → ℕ → Text
begin_text memory pointer free = record memory {
  tx_fname = pointer;
  tx_pos = [];
  tx_start = free;
  tx_limit = free;
}

-- The descriptor after Close_Text, with the buffer from before Open_Text.
abbrev pub end_text : Text → NlBuff → Lex × NlBuff → TokenArray → Text
end_text txt old_buff (lex, buff) array = record txt {
  tx_nl_start = nl_free_or old_buff txt.tx_nl_start;
  tx_nl_limit = nl_free_or buff txt.tx_nl_limit;
  tx_limit = token_array_length array;
  tx_eol_terminated = token_eq lex.lex_token end_of_line;
}

module _ (try_realloc try_array : ℕ → Bool) (memory : ℕ → Text) where
  -- The body of the loop, for text `n`; `none` is a call of `fatal`.
  unfoldable pub read_file : ℕ → Argument → Pass → Option (Text × Pass)
  read_file n arg s =
      let txt = begin_text (memory n) arg.pointer (token_array_length s.array) in
      if is_new_old_separator arg.characters
      then some (txt, record s { number_of_new_texts = n })
      else do
        (read, array) ←
            read_tokens try_realloc try_array arg.lexemes (open_text (s.lex, s.buff)) s.array
        let closed = close_text try_realloc read
        some (
          end_text txt s.buff closed array,
          record s { lex = closed.0; buff = closed.1; array = array },
        )

  unfoldable pub read_files : ℕ → List Argument → Pass → Option (List Text × Pass)
  read_files n [] s = some ([], s)
  read_files n (arg ∷ args) s = do
    (txt, s') ← read_file n arg s
    (texts, s'') ← read_files (n + 1) args s'
    some (txt ∷ texts, s'')

-- `Read_Input_Files`, with the first memory of the token array and what the scanner and the buffer
-- have left.
unfoldable pub read_input_files :
    (ℕ → Bool)
    → (ℕ → Bool)
    → (ℕ → Text)
    → (ℕ → ℕ)
    → Lex
    → ℕ
    → List Argument
    → Option (List Text × Pass)
read_input_files try_realloc try_array memory tokens lex last_tk_cnt args =
    read_files try_realloc try_array memory 0 args (record {
      lex = lex;
      buff = init_nl_buff try_realloc last_tk_cnt;
      array = init_token_array tokens;
      number_of_new_texts = length args;
    })
