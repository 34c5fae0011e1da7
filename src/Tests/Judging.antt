-- ===== src/Tests/Judging.antt =====
-- The checker on small files, and the theorems at such files.
use run_server.Base.{ℕ, ◌≡◌, ◌≢◌, ◌⊎◌, refl, List, [], ◌∷◌, some}
use run_server.Verdict.{judge_ac, judge_wa, judge_pe}
use run_server.Checker.{
  is_space, skip_spaces, pass_space, gap_step, find_from, find_next_nonspace, in_word, compare_word,
  after_gap, turn, after_word, compare_lines, compare,
}
use run_server.Checker.Tidy.{tidy_text}
use run_server.Checker.Words.{compare-tidy}
use run_server.Checker.SameLines.{trailing, same, cr_lf, compare-SameLines}

abbrev lf_text : List ℕ
lf_text = b'a' ∷ b' ' ∷ b'b' ∷ 10 ∷ []

abbrev wide_text : List ℕ
wide_text = b'a' ∷ b' ' ∷ b' ' ∷ b'b' ∷ []

abbrev joined_text : List ℕ
joined_text = b'a' ∷ b'b' ∷ 10 ∷ []

wide_is_pe : compare (some lf_text) (some wide_text) ≡ some judge_pe
unfolding compare compare_lines after_word turn after_gap compare_word find_next_nonspace find_from
    gap_step pass_space skip_spaces in_word is_space
wide_is_pe = refl

joined_is_wa : compare (some lf_text) (some joined_text) ≡ some judge_wa
unfolding compare compare_lines after_word turn after_gap compare_word find_next_nonspace find_from
    gap_step pass_space skip_spaces in_word is_space
joined_is_wa = refl

compare-tidy_example :
    (v : ℕ) × (compare (some lf_text) (some wide_text) ≡ some v)
    × (((tidy_text lf_text ≡ tidy_text wide_text) × ((v ≡ judge_ac) ⊎ (v ≡ judge_pe)))
        ⊎ ((tidy_text lf_text ≢ tidy_text wide_text) × (v ≡ judge_wa)))
compare-tidy_example = compare-tidy lf_text wide_text

two_spaces : skip_spaces (10 ∷ b' ' ∷ []) ≡ []
unfolding skip_spaces is_space
two_spaces = refl

compare-SameLines_example :
    compare (some (b'a' ∷ 13 ∷ 10 ∷ b'b' ∷ [])) (some (b'a' ∷ 10 ∷ b'b' ∷ 10 ∷ b' ' ∷ []))
    ≡ some judge_ac
compare-SameLines_example =
    compare-SameLines (b'a' ∷ 13 ∷ 10 ∷ b'b' ∷ []) (b'a' ∷ 10 ∷ b'b' ∷ 10 ∷ b' ' ∷ [])
      (same b'a' (cr_lf 13 10 refl refl (same b'b' (trailing (10 ∷ b' ' ∷ []) two_spaces))))
