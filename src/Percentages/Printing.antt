-- ===== src/Percentages/Printing.antt =====
-- Which lines Show_Percentages prints.
use mathlib.Core.List.{Permᴰ, Perm, append-nil, append_assoc, perm_append_comm}
use mathlib.Core.List.Perm
use mathlib.Core.Logic.{∥∥₁_elim, ∥∥₁_prop}
use Prim.Native.Nat.{min}
use run_server.Base.{
  ltb, leb, ℕ, zero, suc, ◌≡◌, ◌≤◌, refl, sym, ap, ◌∙◌, Bool, true, false, List, [], ◌∷◌, ◌++◌,
  ◌==◌, Bool-cases, inl, inr, ◌≢◌, ℕ_discrete, if◌then◌else◌, length, arith,
}
use run_server.Percentages.{
  Match, Floats, Line, before, sort_match_list, print_perc_info, print_others, print_percentages,
  print_top_file, show_percentages,
}
use run_server.SortList.Laws.{sort_list-perm}

-- The matches of other files than `fname`.
abbrev pub remove : ℕ → List Match → List Match
remove fname [] = []
remove fname (m ∷ ms) = if m.ma_fname0 == fname then remove fname ms else m ∷ remove fname ms

-- The first match of each file.
abbrev pub mains : List Match → List Match
mains [] = []
mains (m ∷ ms) = m ∷ remove m.ma_fname0 (mains ms)

remove-length : (fname : ℕ) (ms : List Match) → length (remove fname ms) ≤ length ms
remove-length fname [] = omega arith
remove-length fname (m ∷ ms) = ground (arith, remove-length fname ms)

remove-remove : (f g : ℕ) (ms : List Match) → remove f (remove g ms) ≡ remove g (remove f ms)
remove-remove f g [] = refl
remove-remove f g (m ∷ ms) = ground (arith, remove-remove f g ms)

remove_twice : (f : ℕ) (ms : List Match) → remove f (remove f ms) ≡ remove f ms
remove_twice f [] = refl
remove_twice f (m ∷ ms) = ground (arith, remove_twice f ms)

-- The removal of a file's matches: the match in front goes or stays.
remove_same :
    (f : ℕ) (m : Match) (ms : List Match) → m.ma_fname0 ≡ f → remove f (m ∷ ms) ≡ remove f ms
remove_same f m ms e = ground (arith, e)

remove_other :
    (f : ℕ) (m : Match) (ms : List Match) → m.ma_fname0 ≢ f → remove f (m ∷ ms) ≡ (m ∷ remove f ms)
remove_other f m ms ne = ground (arith, ne)

mains-remove : (f : ℕ) (ms : List Match) → mains (remove f ms) ≡ remove f (mains ms)
mains-remove f [] = refl
mains-remove f (m ∷ ms) = elim (ℕ_discrete m.ma_fname0 f) [
  | yes e ↦
      ap mains (remove_same f m ms e)
      ∙ mains-remove f ms
      ∙ sym (remove_twice f (mains ms))
      ∙ ap (λ g. remove f (remove g (mains ms))) (sym e)
      ∙ sym (remove_same f m (remove m.ma_fname0 (mains ms)) e)
  | no ne ↦
      ap mains (remove_other f m ms ne)
      ∙ ap (λ l. m ∷ remove m.ma_fname0 l) (mains-remove f ms)
      ∙ ap (λ l. m ∷ l) (remove-remove m.ma_fname0 f (mains ms))
      ∙ sym (remove_other f m (remove m.ma_fname0 (mains ms)) ne)
]

perm_between : (o p l k : List Line) → Perm (o ++ l) k → Perm (o ++ (p ++ l)) (p ++ k)
perm_between o p l k perm =
    Perm.trans
      (rw (append_assoc o p l, append_assoc p o l) at (Perm.append_right l (perm_append_comm o p)))
      (Perm.append_left p perm)

module _ (floats : Floats) (threshold_percentage : ℕ) where
  -- The percentage of a match, and 100 where it is larger.
  abbrev pub capped : Match → ℕ
  capped m = min 100 (floats.percent (floats.quotient m.ma_size m.ma_size0))

  -- One line, with its percentage, for each match whose percentage is the threshold or more.
  abbrev pub lines_of : List Match → List Line
  lines_of [] = []
  lines_of (m ∷ ms) =
      let rest = lines_of ms in
      if ltb (capped m) threshold_percentage
      then rest
      else record { fname0 = m.ma_fname0; mp = capped m; fname1 = m.ma_fname1 } ∷ rest

  -- The lines that are printed for some matches.
  abbrev printed_of : List Match → List Line
  printed_of [] = []
  printed_of (m ∷ ms) = print_perc_info floats threshold_percentage m ++ printed_of ms

  print_others-rest :
      (main_only : Bool) (fname : ℕ) (ms : List Match)
      → (print_others floats threshold_percentage main_only fname ms).1 ≡ remove fname ms
  unfolding print_others
  print_others-rest main_only fname [] = refl
  print_others-rest main_only fname (m ∷ ms) = elim (Bool-cases (m.ma_fname0 == fname)) [
    | inl e ↦ rw e (print_others-rest main_only fname ms)
    | inr e ↦ rw e (ap (λ l. m ∷ l) (print_others-rest main_only fname ms))
  ]

  print_others-none :
      (fname : ℕ) (ms : List Match)
      → (print_others floats threshold_percentage true fname ms).0 ≡ []
  unfolding print_others
  print_others-none fname [] = refl
  print_others-none fname (m ∷ ms) = elim (Bool-cases (m.ma_fname0 == fname)) [
    | inl e ↦ rw e (print_others-none fname ms)
    | inr e ↦ rw e (print_others-none fname ms)
  ]

  print_others-perm :
      (fname : ℕ) (ms : List Match)
      → Perm
          ((print_others floats threshold_percentage false fname ms).0
            ++ printed_of (print_others floats threshold_percentage false fname ms).1)
          (printed_of ms)
  unfolding print_others
  print_others-perm fname [] = Perm.rfl
  print_others-perm fname (m ∷ ms) = elim (Bool-cases (m.ma_fname0 == fname)) [
    | inl e ↦
        rw (e, append_assoc)
          (Perm.append_left (print_perc_info floats threshold_percentage m)
            (print_others-perm fname ms))
    | inr e ↦ rw e (
        perm_between (print_others floats threshold_percentage false fname ms).0
          (print_perc_info floats threshold_percentage m) _ _ (print_others-perm fname ms))
  ]

  print_percentages-perm :
      (fuel : ℕ) (ms : List Match)
      → length ms ≤ fuel
      → Perm (print_percentages floats threshold_percentage false fuel ms) (printed_of ms)
  unfolding print_percentages print_top_file
  print_percentages-perm zero [] le = Perm.rfl
  print_percentages-perm zero (m ∷ ms) le = absurd (omega arith)
  print_percentages-perm (suc fuel) [] le = Perm.rfl
  print_percentages-perm (suc fuel) (m ∷ ms) le = rw append_assoc (
      Perm.append_left (print_perc_info floats threshold_percentage m) (
        Perm.trans
          (Perm.append_left (print_others floats threshold_percentage false m.ma_fname0 ms).0 (
            print_percentages-perm fuel _ (
              rw (print_others-rest false m.ma_fname0 ms)
                (omega (arith, le, remove-length m.ma_fname0 ms)))))
          (print_others-perm m.ma_fname0 ms)))

  print_percentages-mains :
      (fuel : ℕ) (ms : List Match)
      → length ms ≤ fuel
      → print_percentages floats threshold_percentage true fuel ms ≡ printed_of (mains ms)
  unfolding print_percentages print_top_file
  print_percentages-mains zero [] le = refl
  print_percentages-mains zero (m ∷ ms) le = absurd (omega arith)
  print_percentages-mains (suc fuel) [] le = refl
  print_percentages-mains (suc fuel) (m ∷ ms) le =
      rw (print_others-none m.ma_fname0 ms, print_others-rest true m.ma_fname0 ms, append-nil)
        (ap (λ l. print_perc_info floats threshold_percentage m ++ l)
          (print_percentages-mains fuel (remove m.ma_fname0 ms)
              (omega (arith, le, remove-length m.ma_fname0 ms))
            ∙ ap printed_of (mains-remove m.ma_fname0 ms)))

  printed_of-permᴰ : {l k : List Match} → Permᴰ l k → Perm (printed_of l) (printed_of k)
  printed_of-permᴰ Permᴰ.nil = Perm.rfl
  printed_of-permᴰ (Permᴰ.cons {b = b} e d) =
      rw e (Perm.append_left (print_perc_info floats threshold_percentage b) (printed_of-permᴰ d))
  printed_of-permᴰ (Permᴰ.swap {a' = a'} {b' = b'} {l = l} e f) =
      rw (e, f)
        (perm_between (print_perc_info floats threshold_percentage b')
          (print_perc_info floats threshold_percentage a') (printed_of l) _ Perm.rfl)
  printed_of-permᴰ (Permᴰ.trans d d') = Perm.trans (printed_of-permᴰ d) (printed_of-permᴰ d')

  printed_of-perm : {l k : List Match} → Perm l k → Perm (printed_of l) (printed_of k)
  printed_of-perm p = ∥∥₁_elim p ∥∥₁_prop printed_of-permᴰ

  capped_lem : (mp : ℕ) → (if ltb 100 mp then 100 else mp) ≡ min 100 mp
  capped_lem mp = ground arith

  print_perc_info-lines_of :
      (m : Match) (ms : List Match)
      → print_perc_info floats threshold_percentage m ++ lines_of ms ≡ lines_of (m ∷ ms)
  unfolding print_perc_info
  print_perc_info-lines_of m ms =
      let cap = capped_lem (floats.percent (floats.quotient m.ma_size m.ma_size0)) in
      elim (Bool-cases (ltb (capped m) threshold_percentage)) [
        | inl e ↦
            let below : leb threshold_percentage (capped m) ≡ false = ground arith in
            rw (cap, below, e) refl
        | inr e ↦
            let reached : leb threshold_percentage (capped m) ≡ true = ground arith in
            rw (cap, reached, e) refl
      ]

  printed_of-lines_of : (ms : List Match) → printed_of ms ≡ lines_of ms
  printed_of-lines_of [] = refl
  printed_of-lines_of (m ∷ ms) =
      ap (λ l. print_perc_info floats threshold_percentage m ++ l) (printed_of-lines_of ms)
      ∙ print_perc_info-lines_of m ms

  -- Without the option -P Show_Percentages prints the line of every match whose percentage, 100 at
  -- most, reaches the threshold, each once and no other, in some order.
  pub show_percentages-perm :
      (ms : List Match) → Perm (show_percentages floats threshold_percentage false ms) (lines_of ms)
  unfolding show_percentages sort_match_list
  show_percentages-perm ms = rw (sym (printed_of-lines_of ms)) (
      Perm.trans (print_percentages-perm _ _ (omega arith))
        (printed_of-perm (sort_list-perm (before floats) ms)))

  -- With the option -P Show_Percentages prints the lines of the matches that are, in the list sorted
  -- by percentage, the first of their file, in that order.
  pub show_percentages-mains :
      (ms : List Match)
      → show_percentages floats threshold_percentage true ms
        ≡ lines_of (mains (sort_match_list floats ms))
  unfolding show_percentages
  show_percentages-mains ms = print_percentages-mains _ _ (omega arith) ∙ printed_of-lines_of _
