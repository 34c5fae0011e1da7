-- ===== src/Checker/SameLines.antt =====
-- Differences that compare does not mind: CR LF for an end of line, and white space at the end.
use run_server.Base.{
  ℕ, zero, suc, ◌+◌, ◌≡◌, inl, inr, refl, sym, ap, subst, ◌∙◌, true, false, List, [], ◌∷◌, some,
  some_inv, Bool-cases, >>=-some, ◌==◌, ◌&&◌, ◌||◌, arith, length,
}
use run_server.Verdict.{judge_ac}
use run_server.Checker.{
  is_space, at_space, skip_spaces, in_word, Reading, gap_step, pass_space, find_from,
  find_next_nonspace, WordEnd, finished, left, compare_word, after_gap, ends_line, turn, after_word,
  compare_lines, compare,
}
use run_server.Checker.Gaps.{find_next_nonspace-Skips, at_space-skip_spaces, skip_spaces-space}
use run_server.Checker.Words.{reading, turn-next_line, turn-next_word, compare-tidy}

-- The same characters, but CR LF in the first file may stand for LF in the second, which may end
-- with white space.
pub data SameLines : List ℕ → List ℕ → Type 0 where
  trailing : (s2 : List ℕ) → skip_spaces s2 ≡ [] → SameLines [] s2
  same : (c : ℕ) {s1 s2 : List ℕ} → SameLines s1 s2 → SameLines (c ∷ s1) (c ∷ s2)
  cr_lf :
      (r n : ℕ) {s1 s2 : List ℕ}
      → r ≡ b'\r'
      → n ≡ b'\n'
      → SameLines s1 s2
      → SameLines (r ∷ n ∷ s1) (n ∷ s2)

gap_step-SameLines :
    (s1 s2 : List ℕ) (ret : ℕ)
    → SameLines s1 s2
    → (at_space s1 || at_space s2) ≡ true
    → let g = gap_step s1 s2 ret in SameLines g.f1 g.f2 × (g.ret ≡ ret)
unfolding gap_step pass_space skip_spaces is_space
gap_step-SameLines [] [] ret (trailing s2 k) h = cc
gap_step-SameLines [] (c2 ∷ s2) ret (trailing s k) h =
    let rest : skip_spaces s2 ≡ [] = sym (skip_spaces-space c2 s2 h) ∙ k in
    (trailing (skip_spaces s2) (ap skip_spaces rest), refl)
gap_step-SameLines (c1 ∷ s1) [] ret l h = elim l [ ]
gap_step-SameLines (c1 ∷ s1) (c2 ∷ s2) ret (same c l) h =
    let space : is_space c1 ≡ true = ground arith in
    let equal : (c1 == c1) ≡ true = ground arith in rw (equal, space) (l, refl)
gap_step-SameLines (r1 ∷ n1 ∷ s1) (n2 ∷ s2) ret (cr_lf r n e f l) h = rw (e, f) (l, refl)

find_from-SameLines :
    (fuel : ℕ) (s1 s2 : List ℕ) (ret : ℕ) (g : Reading)
    → SameLines s1 s2
    → find_from fuel (reading s1 s2 ret) ≡ some g
    → SameLines g.f1 g.f2 × (g.ret ≡ ret)
unfolding find_from
find_from-SameLines zero s1 s2 ret g l e = cc
find_from-SameLines (suc fuel) s1 s2 ret g l e = elim (Bool-cases (at_space s1 || at_space s2)) [
  | inl h ↦
      let (l', r') = gap_step-SameLines s1 s2 ret l h in
      let next = gap_step s1 s2 ret in
      let (l'', r'') =
        find_from-SameLines fuel next.f1 next.f2 next.ret g l' (rw (h, find_from) at e) in
      (l'', r'' ∙ r')
  | inr h ↦
      let found = some_inv (rw (h, find_from) at e) in
      subst (λ (r : Reading). SameLines r.f1 r.f2 × (r.ret ≡ ret)) found (l, refl)
]

-- What is left behind the gaps.
find_next_nonspace-SameLines :
    (s1 s2 : List ℕ) (ret : ℕ)
    → SameLines s1 s2
    → (find_next_nonspace (reading s1 s2 ret)
        ≡ some (reading (skip_spaces s1) (skip_spaces s2) ret))
      × SameLines (skip_spaces s1) (skip_spaces s2)
unfolding find_next_nonspace
find_next_nonspace-SameLines s1 s2 ret l =
    let (v, found, j) = find_next_nonspace-Skips (reading s1 s2 ret) in
    let (l', r') =
      find_from-SameLines (suc (length s1 + length s2)) s1 s2 ret
        (reading (skip_spaces s1) (skip_spaces s2) v) l found in
    (found ∙ ap (λ w. some (reading (skip_spaces s1) (skip_spaces s2) w)) r', l')

abbrev WordSame : ℕ → WordEnd → Type 0
WordSame ret (finished v) = v ≡ ret
WordSame ret (left t1 t2) = SameLines t1 t2

compare_word-SameLines :
    (s1 s2 : List ℕ) (ret : ℕ) → SameLines s1 s2 → WordSame ret (compare_word s1 s2 ret)
unfolding compare_word in_word is_space
compare_word-SameLines [] [] ret l = refl
compare_word-SameLines [] (c2 ∷ s2) ret l = l
compare_word-SameLines (c1 ∷ s1) [] ret l = elim l [ ]
compare_word-SameLines (c1 ∷ s1) (c2 ∷ s2) ret (same c l) =
    let equal : (c1 == c1) ≡ true = ground arith in
    elim (Bool-cases (in_word c1)) [
      | inl w ↦ rw (w, equal) (compare_word-SameLines s1 s2 ret l)
      | inr w ↦ rw w (same c1 l)
    ]
compare_word-SameLines (r1 ∷ n1 ∷ s1) (n2 ∷ s2) ret (cr_lf r n e f l) =
    rw (e, f) (cr_lf b'\r' b'\n' refl refl l)

module _ (n : ℕ)
    (judge : (s1 s2 : List ℕ) (ret v : ℕ)
      → SameLines s1 s2
      → compare_lines n (reading s1 s2 ret) ≡ some v
      → v ≡ ret) where
  turn-SameLines :
      (u1 u2 : List ℕ) (ret v : ℕ)
      → SameLines u1 u2
      → (at_space u1 || at_space u2) ≡ false
      → turn (compare_lines n) (reading u1 u2 ret) ≡ some v
      → v ≡ ret
  unfolding turn after_gap skip_spaces is_space
  turn-SameLines [] [] ret v l h e = sym (some_inv e)
  turn-SameLines [] (c2 ∷ s2) ret v (trailing s k) h e = cc (rw h at k)
  turn-SameLines (c1 ∷ s1) [] ret v l h e = elim l [ ]
  turn-SameLines (c1 ∷ s1) (c2 ∷ s2) ret v (same c l) h e =
      elim (Bool-cases (ends_line c1 && ends_line c1)) [
        | inl b ↦
            let (found, l') = find_next_nonspace-SameLines s1 s2 ret l in
            let go = sym (
              turn-next_line (compare_lines n) c1 c1 s1 s2 ret b
              ∙ >>=-some _ (compare_lines n) _ found) in
            judge (skip_spaces s1) (skip_spaces s2) ret v l' (go ∙ e)
        | inr b ↦
            judge (c1 ∷ s1) (c1 ∷ s2) ret v (same c1 l)
              (sym (turn-next_word (compare_lines n) c1 c1 s1 s2 ret b) ∙ e)
      ]
  turn-SameLines (r1 ∷ n1 ∷ s1) (n2 ∷ s2) ret v (cr_lf r n e f l) h _ = absurd (ground arith)

  after_word-SameLines :
      (ret v : ℕ) (w : WordEnd)
      → WordSame ret w
      → after_word (compare_lines n) ret w ≡ some v
      → v ≡ ret
  unfolding after_word
  after_word-SameLines ret v (finished x) h e = sym (some_inv e) ∙ h
  after_word-SameLines ret v (left t1 t2) l e =
      let (found, l') = find_next_nonspace-SameLines t1 t2 ret l in
      turn-SameLines (skip_spaces t1) (skip_spaces t2) ret v l'
        (rw (at_space-skip_spaces t1) (at_space-skip_spaces t2))
        (sym (>>=-some _ (turn (compare_lines n)) _ found) ∙ e)

compare_lines-SameLines :
    (n : ℕ) (s1 s2 : List ℕ) (ret v : ℕ)
    → SameLines s1 s2
    → compare_lines n (reading s1 s2 ret) ≡ some v
    → v ≡ ret
unfolding compare_lines
compare_lines-SameLines zero s1 s2 ret v l e = cc
compare_lines-SameLines (suc n) s1 s2 ret v l e =
    after_word-SameLines n (compare_lines-SameLines n) ret v (compare_word s1 s2 ret)
      (compare_word-SameLines s1 s2 ret l) e

-- compare returns JudgeAC on two files with the same characters, also where the first has CR LF for
-- some of the LF of the second, and where the second goes on with white space behind the last
-- character of the first.
pub compare-SameLines :
    (s1 s2 : List ℕ) → SameLines s1 s2 → compare (some s1) (some s2) ≡ some judge_ac
unfolding compare
compare-SameLines s1 s2 l =
    let (found, l') = find_next_nonspace-SameLines s1 s2 judge_ac l in
    let (v, judged, j) = compare-tidy s1 s2 in
    let lines = compare_lines (suc (length s1 + length s2)) in
    judged
    ∙ ap some (
        compare_lines-SameLines (suc (length s1 + length s2)) (skip_spaces s1) (skip_spaces s2)
          judge_ac v l' (sym (>>=-some _ lines _ found) ∙ judged))
