-- ===== src/Checker/Words.antt =====
-- compare accepts two files exactly when they have the same tidy texts.
use mathlib.Core.Option.{some-ne-none}
use run_server.Base.{
  ℕ, zero, suc, ◌+◌, ◌≤◌, ◌<◌, ◌≡◌, ◌≢◌, ◌⊎◌, ◌↔◌, inl, inr, refl, sym, ap, subst, ◌∙◌, true, false,
  List, [], ◌∷◌, Option, none, some, some_inv, Bool-cases, ◌>>=◌, >>=-some, ◌==◌, ◌&&◌, ◌||◌,
  length, arith, ℕ_discrete,
}
use run_server.Verdict.{judge_ac, judge_re, judge_wa, judge_pe}
use run_server.Checker.{
  skip_spaces, in_word, Reading, find_next_nonspace, WordEnd, finished, left, compare_word,
  after_gap, ends_line, turn, after_word, compare_lines, compare,
}
use run_server.Checker.Gaps.{find_next_nonspace-Skips, judged_trans, length-skip_spaces}
use run_server.Checker.Tidy.{tidy, tidy_text, tidy_ne, tidy-cons_iff}
use run_server.Checker.Behind.{
  at_gap, tidy-next_line, tidy-next_word, length-next_word, tidy-end, tidy_on,
}

-- The verdict on what is left of two files, where `ret` is the one so far.
record IsJudged (s1 s2 : List ℕ) (ret v : ℕ) : Type 0 where
  accepted : tidy s1 ≡ tidy s2 → (v ≡ ret) ⊎ (v ≡ judge_pe)
  refused : tidy s1 ≢ tidy s2 → v ≡ judge_wa

IsJudged-iff :
    {s1 s2 t1 t2 : List ℕ} {ret w v : ℕ}
    → (tidy s1 ≡ tidy s2) ↔ (tidy t1 ≡ tidy t2)
    → (w ≡ ret) ⊎ (w ≡ judge_pe)
    → IsJudged t1 t2 w v
    → IsJudged s1 s2 ret v
IsJudged-iff i j h = record {
  accepted = λ e. judged_trans (h.accepted (i.0 e)) j;
  refused = λ n. h.refused (λ e. n (i.1 e));
}

IsJudged-ne : {s1 s2 : List ℕ} {ret : ℕ} → tidy s1 ≢ tidy s2 → IsJudged s1 s2 ret judge_wa
IsJudged-ne n = record { accepted = λ e. absurd (n e); refused = λ m. refl }

abbrev Left : List ℕ → List ℕ → Type 0
Left t1 t2 = ((at_gap t1 ≡ true) × (at_gap t2 ≡ true)) ⊎ ((t1 ≡ []) ⊎ (t2 ≡ []))

-- What the loop over a word leaves to judge.
abbrev WordResult : List ℕ → List ℕ → ℕ → WordEnd → Type 0
WordResult s1 s2 ret (finished v) = IsJudged s1 s2 ret v
WordResult s1 s2 ret (left t1 t2) =
    ((tidy s1 ≡ tidy s2) ↔ (tidy t1 ≡ tidy t2))
    × ((length t1 + length t2 ≤ length s1 + length s2) × Left t1 t2)

WordResult-cons :
    (c : ℕ) (s1 s2 : List ℕ) (ret : ℕ) (w : WordEnd)
    → in_word c ≡ true
    → WordResult s1 s2 ret w
    → WordResult (c ∷ s1) (c ∷ s2) ret w
WordResult-cons c s1 s2 ret (finished v) h r = IsJudged-iff (tidy-cons_iff c s1 s2 h) (inl refl) r
WordResult-cons c s1 s2 ret (left t1 t2) h r =
    let i = tidy-cons_iff c s1 s2 h in
    ((λ e. r.0.0 (i.0 e), λ e. i.1 (r.0.1 e)), (omega (arith, r.1.0), r.1.1))

same_word :
    (c1 c2 : ℕ) (s1 s2 : List ℕ) (ret : ℕ) (w : WordEnd)
    → (in_word c1 || in_word c2) ≡ true
    → (c1 == c2) ≡ true
    → WordResult s1 s2 ret w
    → WordResult (c1 ∷ s1) (c2 ∷ s2) ret w
same_word c1 c2 s1 s2 ret w h e r =
    let eq : c2 ≡ c1 = ground arith in
    let word : in_word c1 ≡ true = ground arith in
    subst (λ c. WordResult (c1 ∷ s1) (c ∷ s2) ret w) (sym eq)
      (WordResult-cons c1 s1 s2 ret w word r)

same_refl : {P : Type 0} → P ↔ P
same_refl = (λ e. e, λ e. e)

compare_word-WordResult : (s1 s2 : List ℕ) (ret : ℕ) → WordResult s1 s2 ret (compare_word s1 s2 ret)
unfolding compare_word
compare_word-WordResult [] [] ret = record {
  accepted = λ e. inl refl;
  refused = λ n. absurd (n refl);
}
compare_word-WordResult [] (c2 ∷ s2) ret = (same_refl, (omega arith, inr (inl refl)))
compare_word-WordResult (c1 ∷ s1) [] ret = (same_refl, (omega arith, inr (inr refl)))
compare_word-WordResult (c1 ∷ s1) (c2 ∷ s2) ret = elim (Bool-cases (in_word c1 || in_word c2)) [
  | inl w ↦ elim (Bool-cases (c1 == c2)) [
    | inl e ↦ rw (w, e) (same_word c1 c2 s1 s2 ret _ w e (compare_word-WordResult s1 s2 ret))
    | inr n ↦ rw (w, n) (IsJudged-ne (tidy_ne c1 c2 s1 s2 w n))
  ]
  | inr g ↦ rw g (same_refl, (omega arith, inl (ground arith, ground arith)))
]

abbrev pub reading : List ℕ → List ℕ → ℕ → Reading
reading s1 s2 ret = record { f1 = s1; f2 = s2; ret = ret }

abbrev Judges : List ℕ → List ℕ → ℕ → Option ℕ → Type 0
Judges s1 s2 ret o = (v : ℕ) × (o ≡ some v) × IsJudged s1 s2 ret v

both_at_gap :
    (t1 t2 s1 s2 : List ℕ) (c1 c2 : ℕ)
    → Left t1 t2
    → skip_spaces t1 ≡ c1 ∷ s1
    → skip_spaces t2 ≡ c2 ∷ s2
    → (at_gap t1 ≡ true) × (at_gap t2 ≡ true)
unfolding skip_spaces
both_at_gap t1 t2 s1 s2 c1 c2 (inl g) k1 k2 = g
both_at_gap t1 t2 s1 s2 c1 c2 (inr (inl e)) k1 k2 = absurd (cc (rw e at k1))
both_at_gap t1 t2 s1 s2 c1 c2 (inr (inr e)) k1 k2 = absurd (cc (rw e at k2))

-- The two ways on.
module _ (lines : Reading → Option ℕ) (c1 c2 : ℕ) (s1 s2 : List ℕ) (ret : ℕ) where
  pub turn-next_line :
      (ends_line c1 && ends_line c2) ≡ true
      → turn lines (reading (c1 ∷ s1) (c2 ∷ s2) ret)
        ≡ (find_next_nonspace (reading s1 s2 ret) >>= lines)
  unfolding turn after_gap
  turn-next_line e = rw (e, turn, after_gap) refl

  pub turn-next_word :
      (ends_line c1 && ends_line c2) ≡ false
      → turn lines (reading (c1 ∷ s1) (c2 ∷ s2) ret) ≡ lines (reading (c1 ∷ s1) (c2 ∷ s2) ret)
  unfolding turn after_gap
  turn-next_word e = rw (e, turn, after_gap) refl

-- A round that is left behind a word.
module _ (n : ℕ)
    (judge : (s1 s2 : List ℕ) (ret : ℕ)
      → length s1 + length s2 < n
      → Judges s1 s2 ret (compare_lines n (reading s1 s2 ret))) where
  compare_lines-turn :
      (t1 t2 u1 u2 : List ℕ) (ret ret' : ℕ)
      → Left t1 t2
      → length t1 + length t2 < suc n
      → skip_spaces t1 ≡ u1
      → skip_spaces t2 ≡ u2
      → (ret' ≡ ret) ⊎ (ret' ≡ judge_pe)
      → Judges t1 t2 ret (turn (compare_lines n) (reading u1 u2 ret'))
  unfolding turn after_gap
  compare_lines-turn t1 t2 [] [] ret ret' a l k1 k2 j = (
    ret',
    refl,
    record { accepted = λ e. j; refused = λ n. absurd (n (tidy-end t1 k1 ∙ sym (tidy-end t2 k2))) },
  )
  compare_lines-turn t1 t2 [] (c2 ∷ s2) ret ret' a l k1 k2 j =
      (judge_wa, refl, IsJudged-ne (λ e. tidy_on t2 s2 c2 k2 (sym e ∙ tidy-end t1 k1)))
  compare_lines-turn t1 t2 (c1 ∷ s1) [] ret ret' a l k1 k2 j =
      (judge_wa, refl, IsJudged-ne (λ e. tidy_on t1 s1 c1 k1 (e ∙ tidy-end t2 k2)))
  compare_lines-turn t1 t2 (c1 ∷ s1) (c2 ∷ s2) ret ret' a l k1 k2 j =
      let (g1, g2) = both_at_gap t1 t2 s1 s2 c1 c2 a k1 k2 in
      elim (Bool-cases (ends_line c1 && ends_line c2)) [
        | inl e ↦
            let (w, found, j') = find_next_nonspace-Skips (reading s1 s2 ret') in
            let shorter : length (skip_spaces s1) + length (skip_spaces s2) < n = omega (
              arith,
              ap (length {0}) k1,
              ap (length {0}) k2,
              length-skip_spaces t1,
              length-skip_spaces t2,
              length-skip_spaces s1,
              length-skip_spaces s2,
            ) in
            let (v, judged, h) = judge (skip_spaces s1) (skip_spaces s2) w shorter in
            (
              v,
              turn-next_line (compare_lines n) c1 c2 s1 s2 ret' e
                  ∙ >>=-some _ (compare_lines n) _ found
                  ∙ judged,
              IsJudged-iff (tidy-next_line t1 t2 s1 s2 c1 c2 g1 g2 k1 k2 e) (judged_trans j' j) h,
            )
        | inr e ↦
            let shorter : length (c1 ∷ s1) + length (c2 ∷ s2) < n =
              omega (arith, length-next_word t1 t2 s1 s2 c1 c2 g1 g2 k1 k2 e) in
            let (v, judged, h) = judge (c1 ∷ s1) (c2 ∷ s2) ret' shorter in
            (
              v,
              turn-next_word (compare_lines n) c1 c2 s1 s2 ret' e ∙ judged,
              IsJudged-iff (tidy-next_word t1 t2 s1 s2 c1 c2 g1 g2 k1 k2 e) j h,
            )
      ]

  after_word-Judges :
      (s1 s2 : List ℕ) (ret : ℕ) (w : WordEnd)
      → length s1 + length s2 < suc n
      → WordResult s1 s2 ret w
      → Judges s1 s2 ret (after_word (compare_lines n) ret w)
  unfolding after_word
  after_word-Judges s1 s2 ret (finished v) h r = (v, refl, r)
  after_word-Judges s1 s2 ret (left t1 t2) h (i, (l, a)) =
      let (w, found, j) = find_next_nonspace-Skips (reading t1 t2 ret) in
      let (v, judged, k) =
        compare_lines-turn t1 t2 (skip_spaces t1) (skip_spaces t2) ret w a (omega arith) refl refl
          j in
      (v, rw found judged, IsJudged-iff i (inl refl) k)

compare_lines-Judges :
    (n : ℕ) (s1 s2 : List ℕ) (ret : ℕ)
    → length s1 + length s2 < n
    → Judges s1 s2 ret (compare_lines n (reading s1 s2 ret))
unfolding compare_lines
compare_lines-Judges zero s1 s2 ret h = absurd (omega arith)
compare_lines-Judges (suc n) s1 s2 ret h =
    after_word-Judges n (compare_lines-Judges n) s1 s2 ret (compare_word s1 s2 ret) h
      (compare_word-WordResult s1 s2 ret)

text_discrete : Discrete (List ℕ)
text_discrete = hlevel (ℕ_discrete)

verdict_range :
    {P Q : Type 0} (v : ℕ)
    → (P × ((v ≡ judge_ac) ⊎ (v ≡ judge_pe))) ⊎ (Q × (v ≡ judge_wa))
    → (judge_ac ≤ v) × (v ≤ judge_pe)
verdict_range v (inl (p, inl e)) = (omega arith, omega arith)
verdict_range v (inl (p, inr e)) = (omega arith, omega arith)
verdict_range v (inr (q, e)) = (omega arith, omega arith)

not_re :
    {P Q : Type 0} (v : ℕ)
    → (P × ((v ≡ judge_ac) ⊎ (v ≡ judge_pe))) ⊎ (Q × (v ≡ judge_wa))
    → v ≢ judge_re
not_re v (inl (p, inl e)) f = omega arith
not_re v (inl (p, inr e)) f = omega arith
not_re v (inr (q, e)) f = omega arith

opened : {s1 s2 : List ℕ} {P : Type 0} → (some s1 ≡ none) ⊎ (some s2 ≡ none) → P
opened (inl e) = absurd (some-ne-none _ e)
opened (inr e) = absurd (some-ne-none _ e)

-- compare terminates with a verdict on any two files that can be opened: JudgeAC or JudgePE where the
-- tidy texts of the two are the same, and JudgeWA where they differ.
pub compare-tidy :
    (s1 s2 : List ℕ)
    → (v : ℕ) × (compare (some s1) (some s2) ≡ some v)
      × (((tidy_text s1 ≡ tidy_text s2) × ((v ≡ judge_ac) ⊎ (v ≡ judge_pe)))
          ⊎ ((tidy_text s1 ≢ tidy_text s2) × (v ≡ judge_wa)))
unfolding compare
compare-tidy s1 s2 =
    let (w, found, j) = find_next_nonspace-Skips (reading s1 s2 judge_ac) in
    let (v, judged, h) =
      compare_lines-Judges (suc (length s1 + length s2)) (skip_spaces s1) (skip_spaces s2) w
        (omega (arith, length-skip_spaces s1, length-skip_spaces s2)) in
    (
      v,
      rw found judged,
      elim (text_discrete (tidy_text s1) (tidy_text s2)) [
        | yes e ↦ inl (e, judged_trans (h.accepted e) j)
        | no n ↦ inr (n, h.refused n)
      ],
    )

-- The verdicts of compare are those from JudgeRE to JudgePE, and JudgeAC.
pub compare-verdict :
    (file1 file2 : Option (List ℕ))
    → (v : ℕ) × (compare file1 file2 ≡ some v) × ((judge_ac ≤ v) × (v ≤ judge_pe))
unfolding compare
compare-verdict none file2 = (judge_re, refl, (omega arith, omega arith))
compare-verdict (some s1) none = (judge_re, refl, (omega arith, omega arith))
compare-verdict (some s1) (some s2) =
    let (v, judged, h) = compare-tidy s1 s2 in (v, judged, verdict_range v h)

-- compare returns JudgeRE exactly when one of the files cannot be opened.
pub compare-unopened :
    (file1 file2 : Option (List ℕ))
    → (compare file1 file2 ≡ some judge_re) ↔ ((file1 ≡ none) ⊎ (file2 ≡ none))
unfolding compare
compare-unopened none file2 = (λ e. inl refl, λ h. refl)
compare-unopened (some s1) none = (λ e. inr refl, λ h. refl)
compare-unopened (some s1) (some s2) =
    let (v, judged, h) = compare-tidy s1 s2 in
    (λ e. absurd (not_re v h (some_inv (sym judged ∙ e))), opened)
