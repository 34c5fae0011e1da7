-- ===== src/AnyInt.antt =====
-- sim/sim_2_89/any_int.c: integers as decimal strings, in a circular list of buffers.
pub mod Digits
pub mod Texts
pub mod Recent
use run_server.Base.{
  ℕ, zero, suc, ◌+◌, ◌-◌, ◌/◌, ◌%◌, ◌^◌, Bool, true, false, List, [], ◌∷◌, Option, none, some, ltb,
  leb, ◌==◌, ◌&&◌, ◌||◌, if◌then◌else◌, ◌>>=◌, length, update,
}
use run_server.Syscalls.{ℤ, pos, negsuc}

abbrev pub n_independent_calls : ℕ
n_independent_calls = 12

abbrev pub max_any_uint_digits : ℕ
max_any_uint_digits = 40

-- `size`, protected.
unfoldable pub protect_size : ℤ → ℕ
protect_size (pos n) = if ltb max_any_uint_digits n then 0 else n
protect_size (negsuc n) = 0

-- The loop over the digits, with the number of free characters in front of `res`; `none` is a write
-- in front of the buffer. What is left of `size`, which is only compared to 0, stops at 0.
unfoldable pub put_digits : ℕ → ℕ → ℕ → List ℕ → Option (ℕ × List ℕ)
put_digits zero val size res = none
put_digits (suc free) val size res = elim (val / 10 == 0) [
  | true ↦ some (size - 1, (b'0' + val % 10) ∷ res)
  | false ↦ put_digits free (val / 10) (size - 1) ((b'0' + val % 10) ∷ res)
]

-- `*--res = ch`.
unfoldable pub put_char : ℕ → List ℕ → Option (List ℕ)
put_char ch res = if ltb (length res) max_any_uint_digits then some (ch ∷ res) else none

abbrev pub put_sign : Bool → ℕ × List ℕ → Option (ℕ × List ℕ)
put_sign true (size, res) = put_char b'-' res >>= λ res'. some (size - 1, res')
put_sign false (size, res) = some (size, res)

-- The loop that fills up to `size`.
unfoldable pub fill_up : ℕ → List ℕ → Option (List ℕ)
fill_up zero res = some res
fill_up (suc size) res = put_char b' ' res >>= fill_up size

-- The text that int2string writes.
unfoldable pub int_text : ℕ → Bool → ℤ → Option (List ℕ)
int_text val neg size = put_digits max_any_uint_digits val (protect_size size) [] >>= λ r.
    put_sign neg r >>= λ r'. fill_up r'.0 r'.1

-- `buff`, the texts at the start of the pointers that were returned, and `next_buff_cnt`.
pub record Buffers : Type 0 where
  pub buff : ℕ → List ℕ
  pub next_buff_cnt : ℕ

-- `next_buff`, as the index of the buffer.
unfoldable pub next_buff : Buffers → ℕ × Buffers
next_buff b =
    let cnt = if b.next_buff_cnt == n_independent_calls then 0 else b.next_buff_cnt in
    (cnt, record b { next_buff_cnt = cnt + 1 })

unfoldable pub int2string : ℕ → Bool → ℤ → Buffers → Option (ℕ × Buffers)
int2string val neg size b =
    let (i, b') = next_buff b in
    int_text val neg size >>= λ text. some (i, record b' { buff = update b'.buff i text })

-- The absolute value, in 64 bits, and the sign.
abbrev pub absolute : ℤ → ℕ × Bool
absolute (pos n) = (n, false)
absolute (negsuc n) = (suc n, true)

unfoldable pub any_int2string : ℤ → ℤ → Buffers → Option (ℕ × Buffers)
any_int2string val size b = let (n, neg) = absolute val in int2string n neg size b

unfoldable pub any_uint2string : ℕ → ℤ → Buffers → Option (ℕ × Buffers)
any_uint2string val size b = int2string val false size b
