-- ===== src/Percentages/Sums.antt =====
-- What the match list says of two files.
use run_server.Base.{
  ℕ, ◌+◌, ◌≡◌, refl, sym, ap, ap₂, ◌∙◌, List, [], ◌∷◌, ◌==◌, ◌&&◌, if◌then◌else◌, arith,
}
use run_server.Text.{Text}
use run_server.Percentages.{Match, is_entry, do_add_to_percentages, RunSize, add_to_percentages}

-- The number of tokens that the list has for a pair of files, 0 if there is no entry.
abbrev pub matched : ℕ → ℕ → List Match → ℕ
matched f0 f1 [] = 0
matched f0 f1 (m ∷ ms) = if is_entry f0 f1 m then m.ma_size else matched f0 f1 ms

-- What a run adds to a pair of files.
abbrev pub contribution : ℕ → ℕ → RunSize → ℕ
contribution f0 f1 r =
    if r.index0 == r.index1
    then 0
    else (if r.text0.tx_fname == f0 && r.text1.tx_fname == f1 then r.rn_size else 0)
      + (if r.text1.tx_fname == f0 && r.text0.tx_fname == f1 then r.rn_size else 0)

abbrev pub contributions : ℕ → ℕ → List RunSize → ℕ
contributions f0 f1 [] = 0
contributions f0 f1 (r ∷ rs) = contribution f0 f1 r + contributions f0 f1 rs

-- The calls of `add_to_percentages` for some runs, the last one first in the list.
abbrev pub add_all : List RunSize → List Match
add_all [] = []
add_all (r ∷ rs) = add_to_percentages r (add_all rs)

matched-do_add :
    (text0 text1 : Text) (size : ℕ) (ms : List Match) (f0 f1 : ℕ)
    → matched f0 f1 (do_add_to_percentages text0 text1 size ms)
      ≡ matched f0 f1 ms + (if text0.tx_fname == f0 && text1.tx_fname == f1 then size else 0)
unfolding do_add_to_percentages
matched-do_add text0 text1 size [] f0 f1 = ground arith
matched-do_add text0 text1 size (m ∷ ms) f0 f1 =
    ground (arith, matched-do_add text0 text1 size ms f0 f1)

matched-add_to_percentages :
    (r : RunSize) (ms : List Match) (f0 f1 : ℕ)
    → matched f0 f1 (add_to_percentages r ms) ≡ contribution f0 f1 r + matched f0 f1 ms
unfolding add_to_percentages
matched-add_to_percentages r ms f0 f1 =
    let once = do_add_to_percentages r.text0 r.text1 r.rn_size ms in
    ground (
      arith,
      matched-do_add r.text0 r.text1 r.rn_size ms f0 f1,
      matched-do_add r.text1 r.text0 r.rn_size once f0 f1,
    )

-- After add_to_percentages has been called for some runs, the match list has for two files the sum of
-- what the runs between them contribute: for a run between two texts its size, once for each of its
-- two sides that stands in the first file with the other side in the second one.
pub matched-add_all :
    (rs : List RunSize) (f0 f1 : ℕ) → matched f0 f1 (add_all rs) ≡ contributions f0 f1 rs
matched-add_all [] f0 f1 = refl
matched-add_all (r ∷ rs) f0 f1 =
    matched-add_to_percentages r (add_all rs) f0 f1
    ∙ ap (λ n. contribution f0 f1 r + n) (matched-add_all rs f0 f1)

contribution-sym : (r : RunSize) (f0 f1 : ℕ) → contribution f0 f1 r ≡ contribution f1 f0 r
contribution-sym r f0 f1 = ground arith

contributions-sym :
    (rs : List RunSize) (f0 f1 : ℕ) → contributions f0 f1 rs ≡ contributions f1 f0 rs
contributions-sym [] f0 f1 = refl
contributions-sym (r ∷ rs) f0 f1 = ap₂ ◌+◌ (contribution-sym r f0 f1) (contributions-sym rs f0 f1)

-- After add_to_percentages has been called for some runs, the match list has for two files the same
-- number of tokens in both directions.
pub matched-add_all-sym :
    (rs : List RunSize) (f0 f1 : ℕ) → matched f0 f1 (add_all rs) ≡ matched f1 f0 (add_all rs)
matched-add_all-sym rs f0 f1 =
    matched-add_all rs f0 f1 ∙ contributions-sym rs f0 f1 ∙ sym (matched-add_all rs f1 f0)
