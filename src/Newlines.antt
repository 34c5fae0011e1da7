-- ===== src/Newlines.antt =====
-- sim/sim_2_89/text.c, lex.h and pass1.c: the first pass over a text, and the buffer that keeps where
-- its lines end for the second pass.
pub mod Lines
pub mod FirstPass
use run_server.Base.{
  ℕ, zero, suc, ◌+◌, ◌-◌, ◌*◌, ◌/◌, ◌%◌, ◌^◌, Bool, true, false, List, [], ◌∷◌, ◌++◌, Option, none,
  some, ltb, ◌==◌, ◌&&◌, ◌||◌, not, if◌then◌else◌, ◌>>=◌, length,
}
use run_server.Token.{end_of_line, token_eq}
use run_server.TokenArray.{TokenArray, store_token}

-- `lex_token`, `lex_nl_cnt` and `lex_tk_cnt`
pub record Lex : Type 0 where
  pub lex_token : ℕ
  pub lex_nl_cnt : ℕ
  pub lex_tk_cnt : ℕ

-- A call of yylex() that returns 1, for a token: `return_eol()`, `return_tk(tk)` or `return_ch(ch)`.
unfoldable pub yylex : ℕ → Lex → Lex
yylex tk x =
    if token_eq tk end_of_line
    then record x { lex_token = end_of_line; lex_nl_cnt = x.lex_nl_cnt + 1 }
    else record x { lex_token = tk; lex_tk_cnt = x.lex_tk_cnt + 1 }

-- `nl_buff` with its first `nl_free` entries, `none` once it is abandoned; `nl_size`; `last_tk_cnt`.
pub record NlBuff : Type 0 where
  pub nl_buff : Option (List ℕ)
  pub nl_size : ℕ
  pub last_tk_cnt : ℕ

abbrev pub nl_start : ℕ
nl_start = 1024

-- `init_nl_buff`
unfoldable pub init_nl_buff : (ℕ → Bool) → ℕ → NlBuff
init_nl_buff try_malloc last_tk_cnt = record {
  nl_buff = if try_malloc (2 * nl_start) then some [] else none;
  nl_size = nl_start;
  last_tk_cnt = last_tk_cnt;
}

-- `abandon_nl_buff`
abbrev pub abandon_nl_buff : NlBuff → NlBuff
abandon_nl_buff b = record b { nl_buff = none }

-- The end of `store_newline`: the difference goes into an unsigned short.
unfoldable pub store_diff : ℕ → List ℕ → NlBuff → NlBuff
store_diff lex_tk_cnt entries b =
    let tk_diff = lex_tk_cnt - b.last_tk_cnt in
    let nl_tk_diff = tk_diff % 2 ^ 16 in
    if nl_tk_diff == tk_diff
    then record b { nl_buff = some (entries ++ (nl_tk_diff ∷ [])) }
    else abandon_nl_buff b

-- `Open_Text(First_Pass, txt)` with `Open_Stream`; `lex_token` keeps its value.
abbrev pub open_text : Lex × NlBuff → Lex × NlBuff
open_text (x, b) = (record x { lex_nl_cnt = 1; lex_tk_cnt = 0 }, record b { last_tk_cnt = 0 })

module _ (try_realloc : ℕ → Bool) where
  -- `store_newline`
  unfoldable pub store_newline : ℕ → NlBuff → NlBuff
  store_newline lex_tk_cnt b = elim b.nl_buff [
    | none ↦ b
    | some entries ↦
        let nl_free = length entries in
        let new_size = (b.nl_size + b.nl_size / 2) % 2 ^ 64 in
        let full = nl_free == b.nl_size in
        if full && (ltb new_size nl_free || not (try_realloc (2 * new_size % 2 ^ 64)))
        then abandon_nl_buff b
        else store_diff lex_tk_cnt entries (if full then record b { nl_size = new_size } else b)
  ]

  -- `Next_Text_Token_Obtained`, for a token that the scanner has obtained.
  unfoldable pub next_text_token : ℕ → Lex × NlBuff → Lex × NlBuff
  next_text_token tk (x, b) =
      let x' = yylex tk x in
      let b' = store_newline x'.lex_tk_cnt b in
      if token_eq x'.lex_token end_of_line
      then (x', record b' { last_tk_cnt = x'.lex_tk_cnt })
      else (x', b)

  -- `Close_Text(First_Pass, txt)`, for the buffer.
  unfoldable pub close_text : Lex × NlBuff → Lex × NlBuff
  close_text (x, b) =
      if b.last_tk_cnt == x.lex_tk_cnt then (x, b) else (x, store_newline x.lex_tk_cnt b)

  -- The loop of `Read_Input_Files` over the tokens of a text; `none` is a call of `fatal`.
  unfoldable pub read_tokens :
      (ℕ → Bool) → List ℕ → Lex × NlBuff → TokenArray → Option ((Lex × NlBuff) × TokenArray)
  read_tokens try_array [] s a = some (s, a)
  read_tokens try_array (tk ∷ tks) s a = do
    let s' = next_text_token tk s
    a' ←
        (if token_eq s'.0.lex_token end_of_line
          then some a
          else store_token try_array s'.0.lex_token a)
    read_tokens try_array tks s' a'
