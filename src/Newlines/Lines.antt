-- ===== src/Newlines/Lines.antt =====
-- After the first pass the buffer holds the lengths of the lines of the text.
use mathlib.Core.List.{append-nil, append_assoc}
use mathlib.Core.Option.{some-ne-none}
use run_server.Base.{
  ℕ, ◌+◌, ◌-◌, ◌*◌, ◌/◌, ◌%◌, ◌^◌, ◌≤◌, ◌≡◌, ◌⊎◌, inl, inr, refl, ap, subst, Bool, true, false,
  List, [], ◌∷◌, ◌++◌, Option, none, some, Bool-cases, ltb, ◌==◌, ◌&&◌, ◌||◌, not, if◌then◌else◌,
  length, some_inv, arith,
}
use run_server.Token.{end_of_line, token_eq}
use run_server.Newlines.{
  Lex, yylex, NlBuff, store_diff, store_newline, next_text_token, close_text, open_text,
}

-- The numbers of tokens on the lines of a text, of which the first has `count` tokens already; the
-- tokens behind the last End_Of_Line are a line if there are any.
abbrev pub lines : List ℕ → ℕ → List ℕ
lines [] count = if count == 0 then [] else count ∷ []
lines (tk ∷ tks) count =
    if token_eq tk end_of_line then count ∷ lines tks 0 else lines tks (count + 1)

-- The loop of Read_Input_Files, as far as the buffer is concerned.
abbrev pub pass_tokens : (ℕ → Bool) → List ℕ → Lex × NlBuff → Lex × NlBuff
pass_tokens try_realloc [] s = s
pass_tokens try_realloc (tk ∷ tks) s =
    pass_tokens try_realloc tks (next_text_token try_realloc tk s)

-- The buffer holds these entries, or has been abandoned.
abbrev pub Holds : NlBuff → List ℕ → Type 0
Holds b entries = (b.nl_buff ≡ none) ⊎ (b.nl_buff ≡ some entries)

store_diff-Holds :
    (lex_tk_cnt : ℕ) (entries : List ℕ) (b : NlBuff)
    → Holds (store_diff lex_tk_cnt entries b) (entries ++ ((lex_tk_cnt - b.last_tk_cnt) ∷ []))
unfolding store_diff
store_diff-Holds lex_tk_cnt entries b =
    elim (Bool-cases ((lex_tk_cnt - b.last_tk_cnt) % 2 ^ 16 == lex_tk_cnt - b.last_tk_cnt)) [
      | inl e ↦
          let same : (lex_tk_cnt - b.last_tk_cnt) % 2 ^ 16 ≡ lex_tk_cnt - b.last_tk_cnt =
            ground (arith, e) in
          rw e (inr (ap (λ d. some (entries ++ (d ∷ []))) same))
      | inr e ↦ rw e (inl refl)
    ]

module _ (try_realloc : ℕ → Bool) (lex_tk_cnt : ℕ) (entries : List ℕ) where
  from_held :
      (held : List ℕ)
      → held ≡ entries
      → (b : NlBuff)
      → Holds (store_diff lex_tk_cnt held b) (entries ++ ((lex_tk_cnt - b.last_tk_cnt) ∷ []))
  from_held held e b =
      subst (λ l. Holds (store_diff lex_tk_cnt held b) (l ++ ((lex_tk_cnt - b.last_tk_cnt) ∷ []))) e
        (store_diff-Holds lex_tk_cnt held b)

  store_newline_fields :
      (buff : Option (List ℕ)) (size last : ℕ)
      → (buff ≡ none) ⊎ (buff ≡ some entries)
      → Holds
          (store_newline try_realloc lex_tk_cnt
            (record { nl_buff = buff; nl_size = size; last_tk_cnt = last }))
          (entries ++ ((lex_tk_cnt - last) ∷ []))
  unfolding store_newline
  store_newline_fields none size last h = inl refl
  store_newline_fields (some held) size last (inl e) = absurd (some-ne-none held e)
  store_newline_fields (some held) size last (inr e) =
      elim (Bool-cases (
        length held == size
        && (ltb ((size + size / 2) % 2 ^ 64) (length held)
            || not (try_realloc (2 * ((size + size / 2) % 2 ^ 64) % 2 ^ 64))))) [
              | inl fails ↦ rw (fails, store_newline) (inl refl)
              | inr goes ↦
                  rw (goes, store_newline)
                    (elim (Bool-cases (length held == size)) [
                      | inl full ↦ rw full (
                          from_held held (some_inv e) (record {
                            nl_buff = some held;
                            nl_size = (size + size / 2) % 2 ^ 64;
                            last_tk_cnt = last;
                          }))
                      | inr room ↦ rw room (
                          from_held held (some_inv e)
                            (record { nl_buff = some held; nl_size = size; last_tk_cnt = last }))
                    ])
            ]

  store_newline-Holds :
      (b : NlBuff)
      → Holds b entries
      → Holds
          (store_newline try_realloc lex_tk_cnt b)
          (entries ++ ((lex_tk_cnt - b.last_tk_cnt) ∷ []))
  store_newline-Holds b h = store_newline_fields b.nl_buff b.nl_size b.last_tk_cnt h

module _ (try_realloc : ℕ → Bool) where
  -- An End_Of_Line is stored, and another token is counted.
  pub next_text_token_eol :
      (tk : ℕ) (x : Lex) (b : NlBuff)
      → token_eq tk end_of_line ≡ true
      → next_text_token try_realloc tk (x, b) ≡ (
        record x { lex_token = end_of_line; lex_nl_cnt = x.lex_nl_cnt + 1 },
        record (store_newline try_realloc x.lex_tk_cnt b) { last_tk_cnt = x.lex_tk_cnt },
      )
  unfolding next_text_token yylex
  next_text_token_eol tk x b e = rw e refl

  pub next_text_token_other :
      (tk : ℕ) (x : Lex) (b : NlBuff)
      → token_eq tk end_of_line ≡ false
      → next_text_token try_realloc tk (x, b)
        ≡ (record x { lex_token = tk; lex_tk_cnt = x.lex_tk_cnt + 1 }, b)
  unfolding next_text_token yylex
  next_text_token_other tk x b e = rw (e, e) refl

  close_text-Holds :
      (x : Lex) (b : NlBuff) (entries : List ℕ)
      → b.last_tk_cnt ≤ x.lex_tk_cnt
      → Holds b entries
      → Holds (close_text try_realloc (x, b)).1 (entries ++ lines [] (x.lex_tk_cnt - b.last_tk_cnt))
  unfolding close_text
  close_text-Holds x b entries le h = elim (Bool-cases (b.last_tk_cnt == x.lex_tk_cnt)) [
    | inl e ↦
        let none_left : x.lex_tk_cnt - b.last_tk_cnt ≡ 0 = ground (arith, e) in
        rw (e, none_left, append-nil) h
    | inr e ↦
        let some_left : (x.lex_tk_cnt - b.last_tk_cnt == 0) ≡ false = ground (arith, e, le) in
        rw (e, some_left) (store_newline-Holds try_realloc x.lex_tk_cnt entries b h)
  ]

  pass_tokens-Holds :
      (tks : List ℕ) (x : Lex) (b : NlBuff) (entries : List ℕ)
      → b.last_tk_cnt ≤ x.lex_tk_cnt
      → Holds b entries
      → Holds
          (close_text try_realloc (pass_tokens try_realloc tks (x, b))).1
          (entries ++ lines tks (x.lex_tk_cnt - b.last_tk_cnt))
  pass_tokens-Holds [] x b entries le h = close_text-Holds x b entries le h
  pass_tokens-Holds (tk ∷ tks) x b entries le h = elim (Bool-cases (token_eq tk end_of_line)) [
    | inl e ↦
        let step = next_text_token_eol tk x b e in
        let no_tokens : x.lex_tk_cnt - x.lex_tk_cnt ≡ 0 = omega arith in
        let stored = store_newline-Holds try_realloc x.lex_tk_cnt entries b h in
        let rest =
          pass_tokens-Holds tks
            (record x { lex_token = end_of_line; lex_nl_cnt = x.lex_nl_cnt + 1 })
            (record (store_newline try_realloc x.lex_tk_cnt b) { last_tk_cnt = x.lex_tk_cnt }) _
            (omega arith) stored in
        rw (step, e) (rw (no_tokens, append_assoc) at rest)
    | inr e ↦
        let step = next_text_token_other tk x b e in
        let one_more : x.lex_tk_cnt + 1 - b.last_tk_cnt ≡ x.lex_tk_cnt - b.last_tk_cnt + 1 =
          omega arith in
        let rest =
          pass_tokens-Holds tks (record x { lex_token = tk; lex_tk_cnt = x.lex_tk_cnt + 1 }) b
            entries (omega arith) h in
        rw (step, e) (rw one_more at rest)
  ]

  -- From Open_Text to Close_Text the first pass over a text adds the numbers of tokens on its lines to
  -- the buffer, blank lines and an unended last line included, or the buffer is abandoned.
  pub first_pass-Holds :
      (tks : List ℕ) (x : Lex) (b : NlBuff) (entries : List ℕ)
      → Holds b entries
      → Holds
          (close_text try_realloc (pass_tokens try_realloc tks (open_text (x, b)))).1
          (entries ++ lines tks 0)
  first_pass-Holds tks x b entries h =
      pass_tokens-Holds tks (record x { lex_nl_cnt = 1; lex_tk_cnt = 0 })
        (record b { last_tk_cnt = 0 }) entries (omega arith) h
