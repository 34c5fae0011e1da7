-- ===== src/Tests/Lists.antt =====
-- Sorting, and the percentages.
use mathlib.Core.List.{Perm}
use run_server.Base.{ℕ, ◌*◌, ◌/◌, ◌≡◌, refl, Bool, true, false, List, [], ◌∷◌, ltb, arith}
use run_server.SortList.{sort_list, split, merge, sort_from}
use run_server.SortList.Laws.{IsSorted, sort_list-perm, sort_list-IsSorted}
use run_server.Percentages.{
  RunSize, Floats, show_percentages, sort_match_list, Line, print_percentages, print_top_file,
  print_others, print_perc_info, add_to_percentages, do_add_to_percentages,
}
use run_server.Percentages.Sums.{matched, contributions, add_all, matched-add_all}
use run_server.Percentages.Printing.{lines_of, mains, show_percentages-perm, show_percentages-mains}
use run_server.Tests.Data.{text}

before : ℕ → ℕ → Bool
before x y = ltb x y

abbrev numbers : List ℕ
numbers = 3 ∷ 1 ∷ 2 ∷ 1 ∷ []

ltb_asym : (x y : ℕ) → ltb x y ≡ true → ltb y x ≡ false
ltb_asym x y e = ground arith

ltb_trans : (x y z : ℕ) → ltb y x ≡ false → ltb z y ≡ false → ltb z x ≡ false
ltb_trans x y z e f = ground arith

sort_list-perm_example : Perm (sort_list ltb numbers) numbers
sort_list-perm_example = sort_list-perm ltb numbers

sort_list-IsSorted_example : IsSorted ltb (sort_list ltb numbers)
sort_list-IsSorted_example = sort_list-IsSorted ltb ltb_asym ltb_trans numbers

sorted : sort_list ltb numbers ≡ (1 ∷ 1 ∷ 2 ∷ 3 ∷ [])
unfolding sort_list sort_from split merge
sorted = refl

-- Quotients as millionths.
abbrev millionths : Floats
millionths = record {
  Float = ℕ;
  quotient = λ a b. a * 1000000 / b;
  gt = λ x y. ltb y x;
  percent = λ x. x / 10000;
  gt_asym = λ x y e. ltb_asym y x e;
  gt_trans = λ x y z e f. ltb_trans z y x f e;
}

-- Two runs between the first two of three files of 10, 20 and 40 tokens, and one between the
-- first and the third.
abbrev runs : List RunSize
runs =
    record { index0 = 0; text0 = text 100 1 11; index1 = 1; text1 = text 101 11 31; rn_size = 4 }
    ∷ record { index0 = 0; text0 = text 100 1 11; index1 = 2; text1 = text 102 31 71; rn_size = 8 }
    ∷ record { index0 = 1; text0 = text 101 11 31; index1 = 0; text1 = text 100 1 11; rn_size = 3 }
    ∷ []

matched-add_all_example : matched 100 101 (add_all runs) ≡ contributions 100 101 runs
matched-add_all_example = matched-add_all runs 100 101

show_percentages-perm_example :
    Perm (show_percentages millionths 1 false (add_all runs)) (lines_of millionths 1 (add_all runs))
show_percentages-perm_example = show_percentages-perm millionths 1 (add_all runs)

show_percentages-mains_example :
    show_percentages millionths 1 true (add_all runs)
    ≡ lines_of millionths 1 (mains (sort_match_list millionths (add_all runs)))
show_percentages-mains_example = show_percentages-mains millionths 1 (add_all runs)

abbrev line : ℕ → ℕ → ℕ → Line
line f0 p f1 = record { fname0 = f0; mp = p; fname1 = f1 }

printed :
    show_percentages millionths 1 false (add_all runs)
    ≡ (line 100 80 102 ∷ line 100 70 101 ∷ line 101 35 100 ∷ line 102 20 100 ∷ [])
unfolding show_percentages sort_match_list print_percentages print_top_file print_others
    print_perc_info add_to_percentages do_add_to_percentages sort_list sort_from split merge
printed = refl
