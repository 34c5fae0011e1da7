-- ===== src/Tests/Languages.antt =====
-- Keywords, identifiers and the sets of a language like Algol.
use run_server.Base.{
  ℕ, zero, suc, some_inv, get_elem?-lt, ◌≤◌, ◌<◌, ◌≡◌, ◌≢◌, ◌↔◌, refl, sym, true, List, [], ◌∷◌,
  ◌++◌, some, get_elem?, get_or, zeros, arith,
}
use run_server.Idf.{Idf, idf_in_list, hash_bytes, idf_hashed, str_gt}
use run_server.Idf.Search.{IsSorted, idf_in_list_lem}
use run_server.Idf.Codes.{InRange, without_spaces, idf_hashed_bounds}
use run_server.Token.{n_regular_tokens, end_of_line}
use run_server.Algol.{TokenSets, cvt2bittable, pos_in_set, largest_routine, best_algol_run_size}
use run_server.Algol.Sets.{IsIn, cvt2bittable-pos_in_set}
use run_server.Algol.Sizes.{NoneTooMany, IsBalanced, largest_routine_lem}
use run_server.Algol.Tail.{IsTrimmed, offered, best_algol_run_size-IsTrimmed}

-- `do` and `if`.
abbrev keywords : List Idf
keywords =
    record { id_tag = 100 ∷ 111 ∷ []; id_tr = 300 }
    ∷ record { id_tag = 105 ∷ 102 ∷ []; id_tr = 301 }
    ∷ []

if_after_do :
    (d e : Idf)
    → record { id_tag = 100 ∷ 111 ∷ []; id_tr = 300 } ≡ d
    → record { id_tag = 105 ∷ 102 ∷ []; id_tr = 301 } ≡ e
    → str_gt e.id_tag d.id_tag ≡ true
unfolding str_gt
if_after_do d e p q = rw (sym p, sym q) refl

keywords-IsSorted : IsSorted keywords
keywords-IsSorted zero zero d e lt f g = absurd (omega arith)
keywords-IsSorted zero (suc zero) d e lt f g = if_after_do d e (some_inv f) (some_inv g)
keywords-IsSorted (suc i) zero d e lt f g = absurd (omega arith)
keywords-IsSorted (suc zero) (suc zero) d e lt f g = absurd (omega arith)
keywords-IsSorted i (suc (suc j)) d e lt f g =
    absurd (omega (arith, get_elem?-lt keywords (suc (suc j)) g))
keywords-IsSorted (suc (suc i)) (suc zero) d e lt f g = absurd (omega arith)

-- The look-up of `if`.
idf_in_list_example :
    (r : ℕ) × (idf_in_list (105 ∷ 102 ∷ []) keywords 2 384 ≡ some r)
    × ((i : ℕ) (d : Idf)
        → get_elem? keywords i ≡ some d
        → (105 ∷ 102 ∷ []) ≡ d.id_tag
        → r ≡ d.id_tr)
    × (((i : ℕ) (d : Idf) → get_elem? keywords i ≡ some d → (105 ∷ 102 ∷ []) ≢ d.id_tag) → r ≡ 384)
idf_in_list_example = idf_in_list_lem (105 ∷ 102 ∷ []) keywords keywords-IsSorted 384 (omega arith)

idf_hashed_bounds_example :
    InRange (hash_bytes (120 ∷ 32 ∷ 49 ∷ []) 0)
    × (n_regular_tokens ≤ idf_hashed (120 ∷ 32 ∷ 49 ∷ []))
    × (idf_hashed (120 ∷ 32 ∷ 49 ∷ []) < end_of_line)
    × (idf_hashed (without_spaces (120 ∷ 32 ∷ 49 ∷ [])) ≡ idf_hashed (120 ∷ 32 ∷ 49 ∷ []))
idf_hashed_bounds_example = idf_hashed_bounds (120 ∷ 32 ∷ 49 ∷ [])

-- The parentheses `(`, `{` and `)`, `}`.
openers_table :
    (bt : ℕ → ℕ) × (cvt2bittable ((296 ∷ 379 ∷ []) ++ (0 ∷ [])) 1 zeros ≡ some bt)
    × ((tk : ℕ) → (pos_in_set bt tk ≢ 0) ↔ IsIn tk (296 ∷ 379 ∷ []))
    × ((tk : ℕ) → pos_in_set bt tk < 128)
openers_table = cvt2bittable-pos_in_set (296 ∷ 379 ∷ []) (omega arith) (omega arith)

abbrev open_table : ℕ → ℕ
open_table = openers_table.0

close_set :
    (bt : ℕ → ℕ) × (cvt2bittable ((297 ∷ 381 ∷ []) ++ (0 ∷ [])) 1 zeros ≡ some bt)
    × ((tk : ℕ) → (pos_in_set bt tk ≢ 0) ↔ IsIn tk (297 ∷ 381 ∷ []))
    × ((tk : ℕ) → pos_in_set bt tk < 128)
close_set = cvt2bittable-pos_in_set (297 ∷ 381 ∷ []) (omega arith) (omega arith)

abbrev close_table : ℕ → ℕ
close_table = close_set.0

abbrev sets : TokenSets
sets = record {
  non_finals = open_table;
  non_initials = close_table;
  openers = open_table;
  closers = close_table;
}

-- `( ) ) {`
abbrev run : ℕ → ℕ
run i = get_or (296 ∷ 297 ∷ 297 ∷ 379 ∷ []) i 0

small_open : (j : ℕ) → pos_in_set open_table (run j) < 512
small_open j = omega (arith, openers_table.3 (run j))

small_close : (j : ℕ) → pos_in_set close_table (run j) < 512
small_close j = omega (arith, close_set.3 (run j))

largest_routine_example :
    (largest_routine sets run 4 ≤ 4)
    × NoneTooMany sets run (largest_routine sets run 4)
    × IsBalanced sets run (largest_routine sets run 4)
    × ((k : ℕ)
        → k ≤ 4
        → NoneTooMany sets run k
        → IsBalanced sets run k
        → k ≤ largest_routine sets run 4)
largest_routine_example = largest_routine_lem sets run small_open small_close 4

best_algol_run_size_example :
    IsTrimmed sets run (offered sets run true 4) (best_algol_run_size sets run true 4)
    × (best_algol_run_size sets run true 4 ≤ 4)
best_algol_run_size_example = best_algol_run_size-IsTrimmed sets run true 4
