-- ===== src/Checker/Gaps.antt =====
-- What find_next_nonspace does to the two files.
use run_server.Base.{
  ℕ, zero, suc, ◌+◌, ◌≤◌, ◌<◌, ◌≡◌, ◌⊎◌, inl, inr, refl, sym, ap₂, ◌∙◌, true, false, List, [], ◌∷◌,
  Option, some, Bool-cases, ◌==◌, ◌&&◌, ◌||◌, length, arith,
}
use run_server.Verdict.{judge_pe}
use run_server.Checker.{
  is_space, at_space, skip_spaces, Reading, pass_space, gap_step, find_from, find_next_nonspace,
}

pub length-skip_spaces : (s : List ℕ) → length (skip_spaces s) ≤ length s
unfolding skip_spaces
length-skip_spaces [] = omega arith
length-skip_spaces (c ∷ s) = ground (arith, length-skip_spaces s)

pub skip_spaces-stay : (s : List ℕ) → at_space s ≡ false → skip_spaces s ≡ s
unfolding skip_spaces
skip_spaces-stay [] h = refl
skip_spaces-stay (c ∷ s) h = rw h

pub at_space-skip_spaces : (s : List ℕ) → at_space (skip_spaces s) ≡ false
unfolding skip_spaces
at_space-skip_spaces [] = refl
at_space-skip_spaces (c ∷ s) = elim (Bool-cases (is_space c)) [
  | inl e ↦ rw e (at_space-skip_spaces s)
  | inr e ↦ rw (e, e)
]

skip_spaces-skipped : (s : List ℕ) → skip_spaces (skip_spaces s) ≡ skip_spaces s
skip_spaces-skipped s = skip_spaces-stay (skip_spaces s) (at_space-skip_spaces s)

pub skip_spaces-space :
    (c : ℕ) (s : List ℕ) → is_space c ≡ true → skip_spaces (c ∷ s) ≡ skip_spaces s
unfolding skip_spaces
skip_spaces-space c s h = rw h

skip_spaces-pass_space : (s : List ℕ) → skip_spaces (pass_space s) ≡ skip_spaces s
unfolding skip_spaces pass_space
skip_spaces-pass_space [] = refl
skip_spaces-pass_space (c ∷ s) = ground arith

-- A round of the loop takes white space only, and some of it.
record IsPassed (s1 s2 : List ℕ) (ret : ℕ) (r : Reading) : Type 0 where
  first : skip_spaces r.f1 ≡ skip_spaces s1
  second : skip_spaces r.f2 ≡ skip_spaces s2
  shorter : length r.f1 + length r.f2 < length s1 + length s2
  judged : (r.ret ≡ ret) ⊎ (r.ret ≡ judge_pe)

length-pass_space : (s : List ℕ) → at_space s ≡ true → suc (length (pass_space s)) ≡ length s
unfolding pass_space
length-pass_space [] h = cc
length-pass_space (c ∷ s) h = rw h refl

length-pass_space_le : (s : List ℕ) → length (pass_space s) ≤ length s
unfolding pass_space
length-pass_space_le [] = omega arith
length-pass_space_le (c ∷ s) = ground arith

pass_spaces-IsPassed :
    (s1 s2 : List ℕ) (ret ret' : ℕ)
    → (at_space s1 || at_space s2) ≡ true
    → (ret' ≡ ret) ⊎ (ret' ≡ judge_pe)
    → IsPassed s1 s2 ret (record { f1 = pass_space s1; f2 = pass_space s2; ret = ret' })
pass_spaces-IsPassed s1 s2 ret ret' h j = record {
  first = skip_spaces-pass_space s1;
  second = skip_spaces-pass_space s2;
  shorter = ground (
    arith,
    length-pass_space s1,
    length-pass_space s2,
    length-pass_space_le s1,
    length-pass_space_le s2,
  );
  judged = j;
}

is_space_cr : (c : ℕ) → c ≡ b'\r' → is_space c ≡ true
unfolding is_space
is_space_cr c e = ground arith

gap_step-IsPassed :
    (s1 s2 : List ℕ) (ret : ℕ)
    → (at_space s1 || at_space s2) ≡ true
    → IsPassed s1 s2 ret (gap_step s1 s2 ret)
unfolding gap_step
gap_step-IsPassed [] [] ret h = cc
gap_step-IsPassed (c1 ∷ s1) [] ret h = record {
  first = skip_spaces-skipped s1 ∙ sym (skip_spaces-space c1 s1 (ground arith));
  second = refl;
  shorter = omega (arith, length-skip_spaces s1);
  judged = inl refl;
}
gap_step-IsPassed [] (c2 ∷ s2) ret h = record {
  first = refl;
  second = skip_spaces-skipped s2 ∙ sym (skip_spaces-space c2 s2 (ground arith));
  shorter = omega (arith, length-skip_spaces s2);
  judged = inl refl;
}
gap_step-IsPassed (c1 ∷ s1) (c2 ∷ s2) ret h = elim (Bool-cases (c1 == c2)) [
  | inl e ↦ rw e (pass_spaces-IsPassed (c1 ∷ s1) (c2 ∷ s2) ret ret h (inl refl))
  | inr e ↦ elim (Bool-cases (c1 == b'\r' && c2 == b'\n')) [
    | inl a ↦
        rw (e, a)
          (record {
            first =
                skip_spaces-pass_space s1
                ∙ sym (skip_spaces-space c1 s1 (is_space_cr c1 (ground arith)));
            second = skip_spaces-pass_space (c2 ∷ s2);
            shorter = omega (arith, length-pass_space_le s1, length-pass_space_le (c2 ∷ s2));
            judged = inl refl;
          })
    | inr a ↦ elim (Bool-cases (c2 == b'\r' && c1 == b'\n')) [
      | inl b ↦
          rw (e, a, b)
            (record {
              first = skip_spaces-pass_space (c1 ∷ s1);
              second =
                  skip_spaces-pass_space s2
                  ∙ sym (skip_spaces-space c2 s2 (is_space_cr c2 (ground arith)));
              shorter = omega (arith, length-pass_space_le s2, length-pass_space_le (c1 ∷ s1));
              judged = inl refl;
            })
      | inr b ↦ rw (e, a, b) (pass_spaces-IsPassed (c1 ∷ s1) (c2 ∷ s2) ret judge_pe h (inr refl))
    ]
  ]
]

pub judged_trans :
    {v w ret : ℕ}
    → (v ≡ w) ⊎ (v ≡ judge_pe)
    → (w ≡ ret) ⊎ (w ≡ judge_pe)
    → (v ≡ ret) ⊎ (v ≡ judge_pe)
judged_trans (inl e) j = ground arith
judged_trans (inr e) j = inr e

-- The files stand behind their white space, and the verdict is the same or a presentation error.
abbrev pub Skips : Reading → Option Reading → Type 0
Skips r o =
    (ret : ℕ) × (o ≡ some (record { f1 = skip_spaces r.f1; f2 = skip_spaces r.f2; ret = ret }))
    × ((ret ≡ r.ret) ⊎ (ret ≡ judge_pe))

find_from-Skips :
    (n : ℕ) (s1 s2 : List ℕ) (ret : ℕ)
    → length s1 + length s2 < n
    → Skips
        (record { f1 = s1; f2 = s2; ret = ret })
        (find_from n (record { f1 = s1; f2 = s2; ret = ret }))
unfolding find_from
find_from-Skips zero s1 s2 ret h = absurd (omega arith)
find_from-Skips (suc n) s1 s2 ret h = elim (Bool-cases (at_space s1 || at_space s2)) [
  | inl e ↦
      let p = gap_step-IsPassed s1 s2 ret e in
      let r = gap_step s1 s2 ret in
      let (v, found, j) = find_from-Skips n r.f1 r.f2 r.ret (omega (arith, p.shorter)) in
      (
        v,
        rw (e, find_from)
            (found ∙ ap₂ (λ t1 t2. some (record { f1 = t1; f2 = t2; ret = v })) p.first p.second),
        judged_trans j p.judged,
      )
  | inr e ↦ (
    ret,
    rw (e, find_from)
        (ap₂ (λ t1 t2. some (record { f1 = t1; f2 = t2; ret = ret }))
          (sym (skip_spaces-stay s1 (ground arith))) (sym (skip_spaces-stay s2 (ground arith)))),
    inl refl,
  )
]

pub find_next_nonspace-Skips : (r : Reading) → Skips r (find_next_nonspace r)
unfolding find_next_nonspace
find_next_nonspace-Skips r =
    find_from-Skips (suc (length r.f1 + length r.f2)) r.f1 r.f2 r.ret (omega arith)
