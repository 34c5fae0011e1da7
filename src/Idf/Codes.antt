-- ===== src/Idf/Codes.antt =====
-- `idf_hashed` and `lower_case`.
use run_server.Base.{
  ℕ, ◌-◌, ◌%◌, ◌^◌, ◌≤◌, ◌<◌, ◌≡◌, ◌⊎◌, inl, inr, refl, List, [], ◌∷◌, Bool-cases, ◌==◌,
  if◌then◌else◌, arith,
}
use run_server.Token.{n_regular_tokens, end_of_line}
use run_server.Idf.{hash_byte, hash_bytes, remainder, idf_hashed, lower_case}

-- The value of `h` is at least -1, and fits in an `int`.
abbrev pub InRange : ℕ → Type 0
InRange h = (h < 2 ^ 31) ⊎ (h ≡ 2 ^ 32 - 1)

hash_byte-InRange : (h ch : ℕ) → InRange (hash_byte h ch)
unfolding hash_byte
hash_byte-InRange h ch = ground arith

pub hash_bytes-InRange : (str : List ℕ) (h : ℕ) → InRange h → InRange (hash_bytes str h)
unfolding hash_bytes
hash_bytes-InRange [] h r = r
hash_bytes-InRange (c ∷ str) h r = elim (Bool-cases (c % 256 == b' ')) [
  | inl e ↦ rw e (hash_bytes-InRange str h r)
  | inr e ↦ rw e (hash_bytes-InRange str _ (hash_byte-InRange h (c % 256)))
]

-- The name without its spaces.
abbrev pub without_spaces : List ℕ → List ℕ
without_spaces [] = []
without_spaces (c ∷ str) = if c % 256 == b' ' then without_spaces str else c ∷ without_spaces str

hash_bytes-without_spaces :
    (str : List ℕ) (h : ℕ) → hash_bytes (without_spaces str) h ≡ hash_bytes str h
unfolding hash_bytes
hash_bytes-without_spaces [] h = refl
hash_bytes-without_spaces (c ∷ str) h =
    ground (
      arith,
      hash_bytes-without_spaces str h,
      hash_bytes-without_spaces str (hash_byte h (c % 256)),
    )

-- The spaces of a name do not change its token: idf_hashed gives the name without its spaces the same
-- token.
pub idf_hashed-without_spaces : (str : List ℕ) → idf_hashed (without_spaces str) ≡ idf_hashed str
unfolding idf_hashed
idf_hashed-without_spaces str = rw hash_bytes-without_spaces

-- Before its last steps the value of `h` in idf_hashed is from -1 to 2^31-1, so that the test for a
-- negative number leaves no other. The token is at least N_REGULAR_TOKENS and less than End_Of_Line, so
-- that it is neither a regular token nor End_Of_Line; and the name without its spaces has the same token.
pub idf_hashed_bounds :
    (str : List ℕ)
    → InRange (hash_bytes str 0)
      × (n_regular_tokens ≤ idf_hashed str)
      × (idf_hashed str < end_of_line)
      × (idf_hashed (without_spaces str) ≡ idf_hashed str)
unfolding idf_hashed remainder
idf_hashed_bounds str = (
  hash_bytes-InRange str 0 (inl (omega arith)),
  ground arith,
  ground arith,
  idf_hashed-without_spaces str,
)

-- A second call of lower_case changes nothing.
pub lower_case-lower_case : (str : List ℕ) → lower_case (lower_case str) ≡ lower_case str
unfolding lower_case
lower_case-lower_case [] = refl
lower_case-lower_case (s ∷ str) = ground (arith, lower_case-lower_case str)
