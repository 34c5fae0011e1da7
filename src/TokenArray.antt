-- ===== src/TokenArray.antt =====
-- sim/sim_2_89/tokenarray.c: the array of all tokens, which grows.
pub mod Growth
use run_server.Base.{
  ℕ, ◌+◌, ◌*◌, ◌/◌, ◌%◌, ◌^◌, Bool, true, false, List, [], ◌∷◌, Option, none, some, ltb, ◌==◌,
  update, if◌then◌else◌, ◌>>=◌,
}

abbrev pub tk_start : ℕ
tk_start = 16384

-- `Token_Array`, `tk_size` and `tk_free`
pub record TokenArray : Type 0 where
  pub token_array : ℕ → ℕ
  pub tk_size : ℕ
  pub tk_free : ℕ

-- `Init_Token_Array`; the memory is any.
abbrev pub init_token_array : (ℕ → ℕ) → TokenArray
init_token_array memory = record { token_array = memory; tk_size = tk_start; tk_free = 1 }

module _ (try_realloc : ℕ → Bool) where
  -- The growth of a full array, where `new_size` may wrap. `none` is a call of `fatal`.
  unfoldable pub grow : TokenArray → Option TokenArray
  grow a =
      let new_size = (a.tk_size + a.tk_size / 2) % 2 ^ 64 in
      if ltb new_size a.tk_free
      then none
      else if try_realloc (2 * new_size % 2 ^ 64)
      then some (record a { tk_size = new_size })
      else none

  -- `Store_Token`; `none` is a call of `fatal`, or a store past the end of the array.
  unfoldable pub store_token : ℕ → TokenArray → Option TokenArray
  store_token tk a = do
    b ← (if a.tk_free == a.tk_size then grow a else some a)
    (if ltb b.tk_free b.tk_size
        then some
            (record b { token_array = update b.token_array b.tk_free tk; tk_free = b.tk_free + 1 })
        else none)

-- `Token_Array_Length`
abbrev pub token_array_length : TokenArray → ℕ
token_array_length a = a.tk_free
