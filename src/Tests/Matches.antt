-- ===== src/Tests/Matches.antt =====
-- The forward references and the comparison of the two texts.
use run_server.AddRun.{Places}
use run_server.AddRun.Positions.{IsPlaced, AllInside, SameTexts}
use run_server.AddRun.Compared.{place_run, compare_files-IsPlaced}
use run_server.Base.{
  zero, suc, subst, some_inv, get_elem?-lt, ◌-◌, ℕ, ◌≤◌, ◌<◌, ◌≡◌, inl, refl, List, [], ◌∷◌, some,
  map, get_or, arith,
}
use mathlib.Core.Option
use run_server.Text.{Text, FitsIn}
use run_server.Hash.{
  forward_reference_at, make_forward_references, init_hash_table, make_forward_references_hash1,
  scan_texts, scan_text, visit, code1, hash1, clean_forward_references_hash2, clean_from,
  next_match, code2, hash2,
}
use run_server.Hash.Chains.{IsBuilt, make_forward_references-IsBuilt}
use run_server.Compare.{
  Best, bump, match_back, extend, is_match, accepted, offer, min_size, examine, lcs_from, lcs,
  compare_from, compare_one_text, compare_each, first_text, compare_text, compare_files_from,
  compare_files,
}
use run_server.Compare.Texts.{text_at, text_at-Follows}
use run_server.Compare.Lcs.{OkBest, IsBestAt}
use run_server.Compare.Search.{lcs_lem}
use run_server.Compare.Covers.{Covers, compare_one_text-Covers}
use run_server.Compare.Files.{compare_files-keeps}
use run_server.Tests.Data.{token_array, texts, texts-Ordered, any_token, any_run, plenty, to_others}

make_forward_references-IsBuilt_example :
    (table : ℕ → ℕ) × (make_forward_references 2 token_array 8 any_token plenty texts ≡ some table)
    × IsBuilt 2 token_array 8 any_token texts table
make_forward_references-IsBuilt_example =
    make_forward_references-IsBuilt 2 token_array 8 any_token plenty texts (omega arith)
      texts-Ordered refl (omega arith)

abbrev table : ℕ → ℕ
table = make_forward_references-IsBuilt_example.0

table-IsBuilt : IsBuilt 2 token_array 8 any_token texts table
table-IsBuilt = make_forward_references-IsBuilt_example.2

-- The longest run at position 1 against the second text.
lcs_lem_example :
    (best : Best) × (lcs any_run 2 token_array 8 table (text_at texts 0) 4 1 4 8 ≡ some best)
    × OkBest any_run 2 token_array texts 4 1 4 8 (omega arith) best
    × ((q : ℕ)
        → 4 ≤ q
        → q < 8
        → FitsIn 2 q texts
        → IsBestAt any_run 2 token_array texts 4 1 4 8 (omega arith) best q)
lcs_lem_example =
    lcs_lem any_run 2 token_array 8 table texts 4 1 4 8 (omega arith) texts-Ordered table-IsBuilt
      (omega arith) (text_at texts 0)
      (text_at-Follows texts 0 1 8 1 texts-Ordered refl (omega arith))
      (inl (omega arith, omega arith))

abbrev Call : Type 0
Call = ℕ × ℕ × ℕ × ℕ × ℕ

abbrev record_call : ℕ → ℕ → ℕ → ℕ → ℕ → List Call → List Call
record_call k i0 b i_b size calls = (k, i0, b, i_b, size) ∷ calls

compare_one_text-Covers_example :
    (cs : List Call) × (compare_one_text record_call any_run 2 token_array 8 table texts 0 1 2 []
      ≡ some cs)
    × Covers record_call any_run 2 token_array 8 table texts
        (omega arith)
        texts-Ordered
        table-IsBuilt
        0
        4
        4
        8
        cs
        1
        []
compare_one_text-Covers_example =
    compare_one_text-Covers record_call any_run 2 token_array 8 table texts (omega arith)
      texts-Ordered table-IsBuilt 0 1 2 [] refl refl refl

-- The reported runs are long.
abbrev AllLong : List Call → Type 0
AllLong [] = Unit
AllLong ((k, i0, b, i_b, size) ∷ calls) = (2 ≤ size) × AllLong calls

compare_files-keeps_example :
    (cs : List Call) × (compare_files record_call any_run 2 token_array 8 table texts to_others 2 []
      ≡ some cs)
    × AllLong cs
compare_files-keeps_example =
    compare_files-keeps record_call any_run 2 token_array 8 table texts (omega arith) texts-Ordered
      table-IsBuilt to_others 2 AllLong (λ k i0 b i_b size s l a r p. (r.long, p)) (omega arith) []
      tt

abbrev no_places : Places
no_places = record {
  texts = texts;
  positions = λ p. record { ps_type = 0; ps_tk_cnt = 0; ps_nl_cnt = 0 };
  n_positions = 0;
}

no_places-IsPlaced : IsPlaced no_places
no_places-IsPlaced zero t e =
    subst (λ (u : Text). AllInside no_places.positions 0 (u.tx_limit - u.tx_start) u.tx_pos)
      (some_inv e) tt
no_places-IsPlaced (suc zero) t e =
    subst (λ (u : Text). AllInside no_places.positions 0 (u.tx_limit - u.tx_start) u.tx_pos)
      (some_inv e) tt
no_places-IsPlaced (suc (suc k)) t e = absurd (omega (arith, get_elem?-lt texts (suc (suc k)) e))

compare_files-IsPlaced_example :
    (s : Places) × (compare_files place_run any_run 2 token_array 8 table texts to_others 2
        (some no_places)
      ≡ some (some s))
    × IsPlaced s
    × SameTexts no_places s
compare_files-IsPlaced_example =
    compare_files-IsPlaced any_run 2 token_array 8 table no_places (omega arith) texts-Ordered
      table-IsBuilt to_others 2 (omega arith) no_places-IsPlaced

-- The two passes over the seven tokens, and the runs that are found.
references :
    Option.map
      (λ t. map t (1 ∷ 2 ∷ 3 ∷ 4 ∷ 5 ∷ 6 ∷ 7 ∷ []))
      (make_forward_references 2 token_array 8 any_token plenty texts)
    ≡ some (4 ∷ 5 ∷ 0 ∷ 0 ∷ 0 ∷ 0 ∷ 0 ∷ [])
unfolding make_forward_references init_hash_table make_forward_references_hash1 scan_texts scan_text
    visit code1 hash1 clean_forward_references_hash2 clean_from next_match code2 hash2
references = refl

abbrev references_of : ℕ → ℕ
references_of i = get_or (0 ∷ 4 ∷ 5 ∷ 0 ∷ 0 ∷ 0 ∷ 0 ∷ 0 ∷ []) i 0

calls :
    compare_files record_call any_run 2 token_array 8 references_of texts to_others 2 []
    ≡ some ((0, 1, 1, 4, 3) ∷ [])
unfolding compare_files compare_files_from compare_text first_text compare_each compare_one_text
    compare_from lcs lcs_from examine min_size is_match match_back extend offer accepted bump
    forward_reference_at
calls = refl
