-- ===== src/Percentages.antt =====
-- sim/sim_2_89/percentages.c: how much of each file is found in each other file. A chunk is given by
-- the index of its text; the text descriptors say its file name and size.
pub mod Sums
pub mod Printing
use run_server.Base.{
  ℕ, zero, suc, ◌+◌, ◌-◌, ◌≡◌, Bool, true, false, List, [], ◌∷◌, ◌++◌, ltb, leb, ◌==◌, ◌&&◌,
  if◌then◌else◌, length,
}
use run_server.Text.{Text}
use run_server.SortList.{sort_list}

-- `struct match`; a file name is its pointer.
pub record Match : Type 0 where
  pub ma_fname0 : ℕ
  pub ma_fname1 : ℕ
  pub ma_size : ℕ
  pub ma_size0 : ℕ

-- The test that finds the entry of a pair of files.
abbrev pub is_entry : ℕ → ℕ → Match → Bool
is_entry fname0 fname1 m = m.ma_fname0 == fname0 && m.ma_fname1 == fname1

-- `do_add_to_precentages(ch0, ch1, size)`
unfoldable pub do_add_to_percentages : Text → Text → ℕ → List Match → List Match
do_add_to_percentages text0 text1 size [] =
    record {
      ma_fname0 = text0.tx_fname;
      ma_fname1 = text1.tx_fname;
      ma_size = size;
      ma_size0 = text0.tx_limit - text0.tx_start;
    }
    ∷ []
do_add_to_percentages text0 text1 size (m ∷ ms) =
    if is_entry text0.tx_fname text1.tx_fname m
    then record m { ma_size = m.ma_size + size } ∷ ms
    else m ∷ do_add_to_percentages text0 text1 size ms

-- The part of a run that is counted: its texts, by their pointers, and its size.
pub record RunSize : Type 0 where
  pub index0 : ℕ
  pub text0 : Text
  pub index1 : ℕ
  pub text1 : Text
  pub rn_size : ℕ

-- `add_to_percentages`
unfoldable pub add_to_percentages : RunSize → List Match → List Match
add_to_percentages r ms =
    if r.index0 == r.index1
    then ms
    else do_add_to_percentages r.text1 r.text0 r.rn_size
        (do_add_to_percentages r.text0 r.text1 r.rn_size ms)

-- What the code takes of the arithmetic on `float`: the quotient of two numbers of tokens, its
-- order, and the quotient times 100.0 cut to an `int`. Of numbers that are no NaN, `>` is a strict
-- order whose failure is transitive.
pub record Floats : Type 1 where
  pub Float : Type 0
  pub quotient : ℕ → ℕ → Float
  pub gt : Float → Float → Bool
  pub percent : Float → ℕ
  pub gt_asym : (x y : Float) → gt x y ≡ true → gt y x ≡ false
  pub gt_trans : (x y z : Float) → gt y x ≡ false → gt z y ≡ false → gt z x ≡ false

-- A line of output.
pub record Line : Type 0 where
  pub fname0 : ℕ
  pub mp : ℕ
  pub fname1 : ℕ

module _ (floats : Floats) where
  open floats use {Float, quotient, gt, percent}

  abbrev pub match_percentage : Match → Float
  match_percentage m = quotient m.ma_size m.ma_size0

  -- SORT_BEFORE
  abbrev pub before : Match → Match → Bool
  before p1 p2 = gt (match_percentage p1) (match_percentage p2)

  unfoldable pub sort_match_list : List Match → List Match
  sort_match_list = sort_list before

  module _ (threshold_percentage : ℕ) where
    unfoldable pub print_perc_info : Match → List Line
    print_perc_info m =
        let mp = percent (match_percentage m) in
        let mp' = if ltb 100 mp then 100 else mp in
        if leb threshold_percentage mp'
        then record { fname0 = m.ma_fname0; mp = mp'; fname1 = m.ma_fname1 } ∷ []
        else []

    module _ (main_only : Bool) where
      -- The loop over the subsequent contributors: the lines, and the structs that are skipped.
      unfoldable pub print_others : ℕ → List Match → List Line × List Match
      print_others fname [] = ([], [])
      print_others fname (m ∷ ms) =
          let (lines, rest) = print_others fname ms in
          if m.ma_fname0 == fname
          then ((if main_only then [] else print_perc_info m) ++ lines, rest)
          else (lines, m ∷ rest)

      -- `print_and_remove_perc_info_for_top_file`
      unfoldable pub print_top_file : Match → List Match → List Line × List Match
      print_top_file m ms =
          let (lines, rest) = print_others m.ma_fname0 ms in (print_perc_info m ++ lines, rest)

      -- `print_percentages`, on fuel.
      unfoldable pub print_percentages : ℕ → List Match → List Line
      print_percentages zero ms = []
      print_percentages (suc fuel) [] = []
      print_percentages (suc fuel) (m ∷ ms) =
          let (lines, rest) = print_top_file m ms in lines ++ print_percentages fuel rest

      -- `Show_Percentages`
      unfoldable pub show_percentages : List Match → List Line
      show_percentages ms =
          let sorted = sort_match_list ms in print_percentages (length sorted) sorted
