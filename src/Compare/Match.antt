-- ===== src/Compare/Match.antt =====
-- The two loops of `lcs` that compare tokens, against the statement that two runs match.
use run_server.Base.{
  ℕ, zero, suc, ◌+◌, ◌-◌, ◌≤◌, ◌<◌, ◌≡◌, inl, inr, refl, sym, ap, ◌∙◌, subst, Bool, true, false,
  ltb, ◌&&◌, ◌==◌, ==_iff, Bool-cases, arith,
}
use native.Mathlib.Nat.{add_assoc}
use native.Mathlib.Decide.{dec_lt}
use run_server.Compare.{match_back, extend, is_match}

module _ (token_array : ℕ → ℕ) where
  -- The runs of `k` tokens at `i0` and `i1` are equal, lie inside their texts and do not overlap.
  pub record IsMatch (limit0 limit1 i0 i1 k : ℕ) : Type 0 where
    pub equal : (d : ℕ) → d < k → token_array (i0 + d) ≡ token_array (i1 + d)
    pub inside0 : i0 + k ≤ limit0
    pub inside1 : i1 + k ≤ limit1
    pub apart : i0 + k ≤ i1

  -- A match that cannot be made longer.
  abbrev pub IsLongest : ℕ → ℕ → ℕ → ℕ → ℕ → Type 0
  IsLongest limit0 limit1 i0 i1 k =
      IsMatch limit0 limit1 i0 i1 k × (¬ IsMatch limit0 limit1 i0 i1 (k + 1))

  module _ {limit0 limit1 i0 i1 : ℕ} where
    pub IsMatch-le :
        (k l : ℕ) → l ≤ k → IsMatch limit0 limit1 i0 i1 k → IsMatch limit0 limit1 i0 i1 l
    IsMatch-le k l le h = record {
      equal = λ d lt. h.equal d (omega arith);
      inside0 = omega (arith, h.inside0);
      inside1 = omega (arith, h.inside1);
      apart = omega (arith, h.apart);
    }

    IsMatch-suc :
        (k : ℕ)
        → IsMatch limit0 limit1 i0 i1 k
        → i0 + k < limit0
        → i1 + k < limit1
        → i0 + k < i1
        → token_array (i0 + k) ≡ token_array (i1 + k)
        → IsMatch limit0 limit1 i0 i1 (k + 1)
    IsMatch-suc k h a b c e = record {
      equal = λ d lt. elim (dec_lt d k) [
        | yes below ↦ h.equal d below
        | no top ↦
            let at : k ≡ d = omega arith in
            subst (λ x. token_array (i0 + x) ≡ token_array (i1 + x)) at e
      ];
      inside0 = omega arith;
      inside1 = omega arith;
      apart = omega arith;
    }

    pub IsLongest-eq :
        (k l : ℕ) → IsLongest limit0 limit1 i0 i1 k → IsLongest limit0 limit1 i0 i1 l → k ≡ l
    IsLongest-eq k l (a, b) (c, d) = elim (dec_lt k l) [
      | yes lt ↦ absurd (b (IsMatch-le l (k + 1) (omega arith) c))
      | no ge ↦ elim (dec_lt l k) [
        | yes lt ↦ absurd (d (IsMatch-le k (l + 1) (omega arith) a))
        | no le ↦ omega arith
      ]
    ]

    -- The forward loop ends at the longest match.
    pub extend-IsLongest :
        (fuel k : ℕ)
        → limit0 ≤ i0 + k + fuel
        → IsMatch limit0 limit1 i0 i1 k
        → IsLongest limit0 limit1 i0 i1 (extend token_array fuel limit0 limit1 (i0 + k) (i1 + k) k)
    unfolding extend
    extend-IsLongest zero k le h = (h, λ l. omega (arith, l.inside0))
    extend-IsLongest (suc fuel) k le h = elim (Bool-cases goes_on) [
      | inl e ↦
          let f = extend-IsLongest fuel (k + 1) (omega arith) (longer e) in
          rw e (rw (add_assoc i0 k 1, add_assoc i1 k 1) f)
      | inr e ↦ rw e (h, stuck e)
    ]
      where
        goes_on : Bool
        goes_on =
            ltb (i0 + k) limit0
            && (ltb (i1 + k) limit1
                && (ltb (i0 + k + k) (i1 + k) && (token_array (i0 + k) == token_array (i1 + k))))

        longer : goes_on ≡ true → IsMatch limit0 limit1 i0 i1 (k + 1)
        longer e = IsMatch-suc k h (ground arith) (ground arith) (ground arith) (ground arith)

        stuck : goes_on ≡ false → ¬ IsMatch limit0 limit1 i0 i1 (k + 1)
        stuck e l = ground (arith, l.equal k (omega arith), l.inside0, l.inside1, l.apart)

  -- The backward loop comes to its end exactly if the runs are equal.
  match_back_sound :
      (cnt i0 i1 j0 j1 : ℕ)
      → j0 ≡ i0 + cnt - 1
      → j1 ≡ i1 + cnt - 1
      → match_back token_array cnt j0 j1 ≡ 0
      → (d : ℕ) → d < cnt
      → token_array (i0 + d) ≡ token_array (i1 + d)
  unfolding match_back
  match_back_sound zero i0 i1 j0 j1 e f h d lt = absurd (omega arith)
  match_back_sound (suc cnt) i0 i1 j0 j1 e f h d lt =
      elim (Bool-cases (token_array j0 == token_array j1)) [
        | inl t ↦ elim (dec_lt d cnt) [
          | yes below ↦
              match_back_sound cnt i0 i1 (j0 - 1) (j1 - 1) (omega arith) (omega arith)
                (ground arith) d below
          | no top ↦
              let p : j0 ≡ i0 + d = omega arith in
              let q : j1 ≡ i1 + d = omega arith in
              ap token_array (sym p) ∙ (==_iff _ _).0 t ∙ ap token_array q
        ]
        | inr t ↦ absurd (ground arith)
      ]

  match_back_complete :
      (cnt i0 i1 j0 j1 : ℕ)
      → j0 ≡ i0 + cnt - 1
      → j1 ≡ i1 + cnt - 1
      → ((d : ℕ) → d < cnt → token_array (i0 + d) ≡ token_array (i1 + d))
      → match_back token_array cnt j0 j1 ≡ 0
  unfolding match_back
  match_back_complete zero i0 i1 j0 j1 e f h = refl
  match_back_complete (suc cnt) i0 i1 j0 j1 e f h =
      let p : j0 ≡ i0 + cnt = omega arith in
      let q : j1 ≡ i1 + cnt = omega arith in
      let top : (token_array j0 == token_array j1) ≡ true =
        (==_iff _ _).1 (ap token_array p ∙ h cnt (omega arith) ∙ ap token_array (sym q)) in
      rw top (
        match_back_complete cnt i0 i1 (j0 - 1) (j1 - 1) (omega arith) (omega arith)
          (λ d lt. h d (omega arith)))

  -- The test of `lcs` decides whether the two runs match.
  pub is_match_sound :
      (limit0 limit1 i0 i1 size : ℕ)
      → 0 < size
      → is_match token_array limit0 limit1 i0 i1 size ≡ true
      → IsMatch limit0 limit1 i0 i1 size
  unfolding is_match
  is_match_sound limit0 limit1 i0 i1 size pos h = record {
    equal = match_back_sound size i0 i1 (i0 + size - 1) (i1 + size - 1) refl refl (ground arith);
    inside0 = ground arith;
    inside1 = ground arith;
    apart = ground arith;
  }

  pub is_match_complete :
      (limit0 limit1 i0 i1 size : ℕ)
      → 0 < size
      → IsMatch limit0 limit1 i0 i1 size
      → is_match token_array limit0 limit1 i0 i1 size ≡ true
  unfolding is_match
  is_match_complete limit0 limit1 i0 i1 size pos h = ground (
    arith,
    match_back_complete size i0 i1 (i0 + size - 1) (i1 + size - 1) refl refl h.equal,
    h.inside0,
    h.inside1,
    h.apart,
  )
