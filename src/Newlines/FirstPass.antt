-- ===== src/Newlines/FirstPass.antt =====
-- The whole first pass over a text: its tokens go to the token array, its lines to the buffer.
use run_server.Base.{
  ℕ, ◌+◌, ◌≤◌, ◌<◌, ◌^◌, ◌≡◌, inl, inr, refl, ◌∙◌, Bool, true, List, [], ◌∷◌, ◌++◌, some, ◌>>=◌,
  Bool-cases, Option-cases, if◌then◌else◌, length, get_elem?,
}
use run_server.Token.{end_of_line, token_eq}
use run_server.TokenArray.{TokenArray, store_token}
use run_server.TokenArray.Growth.{IsInside, store_all, store_all-IsInside}
use run_server.Newlines.{Lex, NlBuff, close_text, open_text, read_tokens}
use run_server.Newlines.Lines.{
  lines, pass_tokens, Holds, first_pass-Holds, next_text_token_eol, next_text_token_other,
}

-- The tokens that are not End_Of_Line.
abbrev pub tokens : List ℕ → List ℕ
tokens [] = []
tokens (tk ∷ tks) = if token_eq tk end_of_line then tokens tks else tk ∷ tokens tks

module _ (try_realloc try_array : ℕ → Bool) where
  read_tokens_lem :
      (tks : List ℕ) (s : Lex × NlBuff) (a : TokenArray)
      → read_tokens try_realloc try_array tks s a
        ≡ (store_all try_array (tokens tks) a >>= λ a'. some (pass_tokens try_realloc tks s, a'))
  unfolding read_tokens
  read_tokens_lem [] s a = refl
  read_tokens_lem (tk ∷ tks) (x, b) a = elim (Bool-cases (token_eq tk end_of_line)) [
    | inl e ↦ rw (next_text_token_eol try_realloc tk x b e, e) (read_tokens_lem tks _ a)
    | inr e ↦
        rw (next_text_token_other try_realloc tk x b e, e)
          (elim (Option-cases (store_token try_array tk a)) [
            | inl f ↦ rw f refl
            | inr (a', f) ↦ rw f (read_tokens_lem tks _ a')
          ])
  ]

  -- If every request of less than 2 ^ 63 bytes for the token array is granted, then the first pass over a
  -- text, with a token array in order and up to 2 ^ 61 tokens, ends without a fatal error. It adds the
  -- tokens other than End_Of_Line to the array in their order, and leaves the old ones where they were.
  -- It adds the numbers of tokens on the lines to the buffer, blank lines and an unended last line
  -- included, or the buffer is abandoned.
  pub read_text-Holds :
      (granted : (size : ℕ) → size < 2 ^ 63 → try_array size ≡ true) (tks : List ℕ) (x : Lex)
      (b : NlBuff) (a : TokenArray) (entries : List ℕ)
      → IsInside a
      → a.tk_free + length (tokens tks) ≤ 2 ^ 61
      → Holds b entries
      → (s : Lex × NlBuff) × (a' : TokenArray) × (read_tokens try_realloc try_array tks
            (open_text (x, b))
            a
          ≡ some (s, a'))
        × IsInside a'
        × (a'.tk_free ≡ a.tk_free + length (tokens tks))
        × ((k : ℕ) → k < a.tk_free → a'.token_array k ≡ a.token_array k)
        × ((k : ℕ)
            → k < length (tokens tks)
            → get_elem? (tokens tks) k ≡ some (a'.token_array (a.tk_free + k)))
        × Holds (close_text try_realloc s).1 (entries ++ lines tks 0)
  read_text-Holds granted tks x b a entries i small h =
      let (a', e, j, free, old, new) =
        store_all-IsInside try_array granted (tokens tks) a i small in
      (
        pass_tokens try_realloc tks (open_text (x, b)),
        a',
        read_tokens_lem tks (open_text (x, b)) a ∙ rw e refl,
        j,
        free,
        old,
        new,
        first_pass-Holds try_realloc tks x b entries h,
      )
