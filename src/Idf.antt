-- ===== src/Idf.antt =====
-- sim/sim_2_89/idf.c: keywords by binary search, identifiers by a hash
-- code, and lower case. A C string is the list of its bytes, without the 0 at its end.
pub mod Search
pub mod Codes
use run_server.Base.{
  ℕ, zero, suc, ◌+◌, ◌-◌, ◌*◌, ◌/◌, ◌%◌, ◌^◌, Bool, true, false, List, [], ◌∷◌, Option, none, some,
  ltb, leb, ◌==◌, ◌&&◌, if◌then◌else◌, get_elem?,
}
use run_server.Token.{n_tokens, n_regular_tokens}

-- `strcmp(a, b) > 0`
unfoldable pub str_gt : List ℕ → List ℕ → Bool
str_gt [] b = false
str_gt (x ∷ a) [] = true
str_gt (x ∷ a) (y ∷ b) = if ltb y x then true else if x == y then str_gt a b else false

-- `strcmp(a, b) == 0`
unfoldable pub str_eq : List ℕ → List ℕ → Bool
str_eq [] [] = true
str_eq [] (y ∷ b) = false
str_eq (x ∷ a) [] = false
str_eq (x ∷ a) (y ∷ b) = x == y && str_eq a b

pub record Idf : Type 0 where
  pub id_tag : List ℕ
  pub id_tr : ℕ

-- The loop of `idf_in_list`, on fuel: the index where it ends. `none` is a read out of bounds.
unfoldable pub search : ℕ → List ℕ → List Idf → ℕ → ℕ → Option ℕ
search zero str list first last = none
search (suc fuel) str list first last =
    let middle = (first + last) / 2 in
    let rest : Option ℕ = elim (get_elem? list middle) [
      | none ↦ none
      | some e ↦ elim (str_gt str e.id_tag) [
        | true ↦ search fuel str list (middle + 1) last
        | false ↦ search fuel str list first middle
      ]
    ] in
    if ltb first last then rest else some first

-- `idf_in_list`, for a list of `n` entries.
unfoldable pub idf_in_list : List ℕ → List Idf → ℕ → ℕ → Option ℕ
idf_in_list str list n default_token = elim (search (suc n) str list 0 (n - 1)) [
  | none ↦ none
  | some first ↦ elim (get_elem? list first) [
    | none ↦ none
    | some e ↦ some (if str_eq str e.id_tag then e.id_tr else default_token)
  ]
]

-- A 32-bit `int`, as its bit pattern: those from 2 ^ 31 on are negative.
abbrev pub is_negative : ℕ → Bool
is_negative h = leb (2 ^ 31) h

-- The body of the loop of `idf_hashed`, for a byte that is no space; arithmetic wraps.
unfoldable pub hash_byte : ℕ → ℕ → ℕ
hash_byte h ch =
    let h' = (h * 8209 + ch * 613) % 2 ^ 32 in
    if is_negative h' then (h' + 2147483647) % 2 ^ 32 else h'

unfoldable pub hash_bytes : List ℕ → ℕ → ℕ
hash_bytes [] h = h
hash_bytes (c ∷ str) h =
    let ch = c % 256 in hash_bytes str (if ch == b' ' then h else hash_byte h ch)

-- `h %= m`, for a positive `m`: the remainder of a negative `h` is negative, or 0.
unfoldable pub remainder : ℕ → ℕ → ℕ
remainder h m = if is_negative h then (2 ^ 32 - (2 ^ 32 - h) % m) % 2 ^ 32 else h % m

unfoldable pub idf_hashed : List ℕ → ℕ
idf_hashed str =
    let h = hash_bytes str 0 in
    let h' = if is_negative h then 0 else h in
    let h'' = remainder h' (n_tokens - n_regular_tokens - 1) in
    ((h'' + n_regular_tokens) % 2 ^ 32) % 2 ^ 16

unfoldable pub lower_case : List ℕ → List ℕ
lower_case [] = []
lower_case (s ∷ str) = (if leb b'A' s && leb s b'Z' then s + (b'a' - b'A') else s) ∷ lower_case str
