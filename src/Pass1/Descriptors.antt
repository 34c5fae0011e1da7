-- ===== src/Pass1/Descriptors.antt =====
-- The texts lie one after another in the token array.
use run_server.Base.{
  ℕ, suc, ◌+◌, ◌≤◌, ◌<◌, ◌^◌, ◌≡◌, ◌⊎◌, inl, inr, refl, sym, ap, subst, Bool, true, List, [], ◌∷◌,
  some, Option-cases, Bool-cases, length, arith,
}
use run_server.Text.{Text, Ordered}
use run_server.TokenArray.{init_token_array}
use run_server.TokenArray.Growth.{IsInside, init_token_array-IsInside}
use run_server.Newlines.{Lex, NlBuff, close_text, init_nl_buff}
use run_server.Newlines.FirstPass.{tokens, read_text-Holds}
use run_server.Newlines.Lines.{Holds}
use run_server.Pass1.{
  Argument, Pass, is_new_old_separator, begin_text, end_text, read_file, read_files,
  read_input_files,
}

-- The number of tokens of some arguments.
abbrev pub n_tokens_of : List Argument → ℕ
n_tokens_of [] = 0
n_tokens_of (arg ∷ args) = length (tokens arg.lexemes) + n_tokens_of args

-- A buffer holds its entries.
some_entries : (b : NlBuff) → (entries : List ℕ) × Holds b entries
some_entries b = elim (Option-cases b.nl_buff) [
  | inl gone ↦ ([], inl gone)
  | inr (entries, held) ↦ (entries, inr held)
]

module _ (try_realloc try_array : ℕ → Bool) (memory : ℕ → Text)
    (granted : (size : ℕ) → size < 2 ^ 63 → try_array size ≡ true) where
  -- A text takes the part of the token array that it adds.
  record IsNext (n len : ℕ) (s : Pass) (txt : Text) (s' : Pass) : Type 0 where
    inside : IsInside s'.array
    start : txt.tx_start ≡ s.array.tk_free
    order : txt.tx_start ≤ txt.tx_limit
    limit : txt.tx_limit ≡ s'.array.tk_free
    grows : s'.array.tk_free ≤ s.array.tk_free + len
    new : (s'.number_of_new_texts ≡ s.number_of_new_texts) ⊎ (s'.number_of_new_texts ≡ n)

  read_file-IsNext :
      (n : ℕ) (arg : Argument) (s : Pass)
      → IsInside s.array
      → s.array.tk_free + length (tokens arg.lexemes) ≤ 2 ^ 61
      → (txt : Text) × (s' : Pass) × (read_file try_realloc try_array memory n arg s
          ≡ some (txt, s'))
        × IsNext n (length (tokens arg.lexemes)) s txt s'
  unfolding read_file
  read_file-IsNext n arg s i small = elim (Bool-cases (is_new_old_separator arg.characters)) [
    | inl e ↦ (
      begin_text (memory n) arg.pointer s.array.tk_free,
      record s { number_of_new_texts = n },
      rw e refl,
      record {
        inside = i;
        start = refl;
        order = omega arith;
        limit = refl;
        grows = omega arith;
        new = inr refl;
      },
    )
    | inr e ↦
        let (entries, h) = some_entries s.buff in
        let (read, array, f, j, free, old, added, held) =
          read_text-Holds try_realloc try_array granted arg.lexemes s.lex s.buff s.array entries i
            small h in
        let closed = close_text try_realloc read in
        (
          end_text (begin_text (memory n) arg.pointer s.array.tk_free) s.buff closed array,
          record s { lex = closed.0; buff = closed.1; array = array },
          rw (e, f) refl,
          record {
            inside = j;
            start = refl;
            order = omega (arith, free);
            limit = refl;
            grows = omega (arith, free);
            new = inl refl;
          },
        )
  ]

  read_files-Ordered :
      (n : ℕ) (args : List Argument) (s : Pass)
      → IsInside s.array
      → s.array.tk_free + n_tokens_of args ≤ 2 ^ 61
      → s.number_of_new_texts ≤ n + length args
      → (texts : List Text) × (s' : Pass) × (read_files try_realloc try_array memory n args s
          ≡ some (texts, s'))
        × Ordered s.array.tk_free texts s'.array.tk_free
        × (length texts ≡ length args)
        × (s'.number_of_new_texts ≤ n + length args)
  unfolding read_files
  read_files-Ordered n [] s i small new = ([], s, refl, omega arith, refl, new)
  read_files-Ordered n (arg ∷ args) s i small new =
      let (txt, s1, e, t) = read_file-IsNext n arg s i (omega (arith, small)) in
      let (texts, s2, f, ordered, len, new') =
        read_files-Ordered (n + 1) args s1 t.inside (omega (arith, small, t.grows))
          (ground (arith, t.new, new)) in
      (
        txt ∷ texts,
        s2,
        rw e (rw f refl),
        (
          omega (arith, t.start),
          t.order,
          subst (λ b. Ordered b texts s2.array.tk_free) (sym t.limit) ordered,
        ),
        ap suc len,
        omega (arith, new'),
      )

  -- If every request of less than 2 ^ 63 bytes for the token array is granted, Read_Input_Files ends
  -- without a fatal error on files of less than 2 ^ 61 tokens together. It makes a descriptor for each
  -- argument, and the texts lie one after another in the token array, from position 1 to its end. The
  -- number of new texts is no more than the number of texts.
  pub read_input_files-Ordered :
      (array : ℕ → ℕ) (lex : Lex) (last_tk_cnt : ℕ) (args : List Argument)
      → n_tokens_of args < 2 ^ 61
      → (texts : List Text) × (s : Pass) × (read_input_files try_realloc try_array memory array lex
            last_tk_cnt args
          ≡ some (texts, s))
        × Ordered 1 texts s.array.tk_free
        × (length texts ≡ length args)
        × (s.number_of_new_texts ≤ length texts)
  unfolding read_input_files
  read_input_files-Ordered array lex last_tk_cnt args small =
      let (texts, s, e, ordered, len, new) =
        read_files-Ordered 0 args
          (record {
            lex = lex;
            buff = init_nl_buff try_realloc last_tk_cnt;
            array = init_token_array array;
            number_of_new_texts = length args;
          })
          (init_token_array-IsInside array) (omega (arith, small)) (omega arith) in
      (texts, s, e, ordered, len, omega (arith, new, len))
