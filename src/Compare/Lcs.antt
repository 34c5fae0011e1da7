-- ===== src/Compare/Lcs.antt =====
-- `lcs` finds the longest run that the language accepts.
use run_server.Base.{
  ℕ, ◌+◌, ◌≤◌, ◌<◌, ◌≡◌, ◌≢◌, ◌⊎◌, inl, inr, refl, sym, subst, Bool, true, List, some, ltb, leb,
  ◌&&◌, Bool-cases, if◌then◌else◌, arith,
}
use native.Mathlib.Decide.{dec_lt}
use run_server.Text.{Text, FitsIn}
use run_server.Language.{Language}
use run_server.Hash.{tokens_at}
use run_server.Compare.{Cursor, Best, extend, is_match, accepted, offer, min_size, examine}
use run_server.Compare.Match.{
  IsMatch, IsLongest, IsMatch-le, IsLongest-eq, extend-IsLongest, is_match_sound, is_match_complete,
}
use run_server.Compare.Texts.{limit_at, index_at, Follows, bump-Follows}

module _ (lang : Language) (m : ℕ) (token_array : ℕ → ℕ) (i0 : ℕ) where
  accepted-le : (k : ℕ) → accepted lang m token_array i0 k ≤ k
  unfolding accepted
  accepted-le k = ground (arith, lang.best_run_size-le (tokens_at token_array i0) k)

  -- The language accepts a run only at a token where one may start.
  pub accepted-long :
      (k : ℕ)
      → 0 < m
      → m ≤ accepted lang m token_array i0 k
      → (lang.may_be_start_of_run (token_array i0) ≡ true) × (m ≤ k)
  unfolding accepted
  accepted-long k pm le = ground (arith, lang.best_run_size-le (tokens_at token_array i0) k)

module _ (lang : Language) (m : ℕ) (token_array : ℕ → ℕ) (texts : List Text)
    (limit0 i0 i_first i_limit : ℕ) (pm : 0 < m) where
  -- A recorded run is long enough, matches and lies in the range.
  pub record IsSound (best : Best) : Type 0 where
    pub long : m ≤ best.size_best
    pub text : best.tx_b ≡ index_at texts best.i_b
    pub from : i_first ≤ best.i_b
    pub below : best.i_b < i_limit
    pub fits : FitsIn m best.i_b texts
    pub matches : IsMatch token_array limit0 (limit_at texts best.i_b) i0 best.i_b best.size_best

  -- There is nothing better at position `q`.
  abbrev pub IsBestAt : Best → ℕ → Type 0
  IsBestAt best q =
      (k : ℕ)
      → IsLongest token_array limit0 (limit_at texts q) i0 q k
      → m ≤ accepted lang m token_array i0 k
      → accepted lang m token_array i0 k ≤ best.size_best

  abbrev pub OkBest : Best → Type 0
  OkBest best = (best.size_best ≡ 0) ⊎ IsSound best

  -- What the body of the loop does with a position in range.
  pub record Examined (i1 : ℕ) (best best' : Best) : Type 0 where
    pub grows : best.size_best ≤ best'.size_best
    pub sound : OkBest best → OkBest best'
    pub optimal : IsBestAt best' i1

  step : ℕ → Best → Best
  step i1 best =
      let size = min_size lang m token_array best in
      if is_match token_array limit0 (limit_at texts i1) i0 i1 size
      then offer lang m token_array i0 i1 (index_at texts i1)
          (extend token_array limit0 limit0 (limit_at texts i1) (i0 + size) (i1 + size) size) best
      else best

  module _ (i1 : ℕ) (from : i_first ≤ i1) (below : i1 < i_limit) (fits : FitsIn m i1 texts)
      (best : Best) where
    size : ℕ
    size = min_size lang m token_array best

    size_pos : 0 < size
    unfolding size min_size
    size_pos = ground arith

    small :
        (k : ℕ)
        → k < size
        → m ≤ accepted lang m token_array i0 k
        → accepted lang m token_array i0 k ≤ best.size_best
    unfolding size min_size
    small k lt le = ground (arith, accepted-le lang m token_array i0 k)

    run : ℕ
    run = extend token_array limit0 limit0 (limit_at texts i1) (i0 + size) (i1 + size) size

    offered_sound :
        IsMatch token_array limit0 (limit_at texts i1) i0 i1 run
        → OkBest best
        → OkBest (offer lang m token_array i0 i1 (index_at texts i1) run best)
    unfolding offer
    offered_sound h b = elim (Bool-cases taken) [
      | inl e ↦ rw e (
          inr (record {
            long = ground arith;
            text = refl;
            from = from;
            below = below;
            fits = fits;
            matches = IsMatch-le token_array run _ (accepted-le lang m token_array i0 run) h;
          }))
      | inr e ↦ rw e b
    ]
      where
        taken : Bool
        taken =
            leb m (accepted lang m token_array i0 run)
            && ltb best.size_best (accepted lang m token_array i0 run)

    offered_grows :
        best.size_best ≤ (offer lang m token_array i0 i1 (index_at texts i1) run best).size_best
    unfolding offer
    offered_grows = ground arith

    offered_takes :
        m ≤ accepted lang m token_array i0 run
        → accepted lang m token_array i0 run
          ≤ (offer lang m token_array i0 i1 (index_at texts i1) run best).size_best
    unfolding offer
    offered_takes le = ground arith

    step_match :
        IsMatch token_array limit0 (limit_at texts i1) i0 i1 size
        → Examined i1 best (offer lang m token_array i0 i1 (index_at texts i1) run best)
    step_match h = record {
      grows = offered_grows;
      sound = offered_sound longest.0;
      optimal = λ k l le.
          let same : run ≡ k = IsLongest-eq token_array run k longest l in
          subst
            (λ x.
              accepted lang m token_array i0 x
              ≤ (offer lang m token_array i0 i1 (index_at texts i1) run best).size_best)
            same (offered_takes (subst (λ x. m ≤ accepted lang m token_array i0 x) (sym same) le));
    }
      where
        longest : IsLongest token_array limit0 (limit_at texts i1) i0 i1 run
        longest = unfold run in extend-IsLongest token_array limit0 size (omega arith) h

    step_miss :
        (¬ IsMatch token_array limit0 (limit_at texts i1) i0 i1 size) → Examined i1 best best
    step_miss none_there = record {
      grows = omega arith;
      sound = λ b. b;
      optimal = λ k (l, _) le. elim (dec_lt k size) [
        | yes lt ↦ small k lt le
        | no ge ↦ absurd (none_there (IsMatch-le token_array k size (omega arith) l))
      ];
    }

    step-Examined : Examined i1 best (step i1 best)
    unfolding step size run
    step-Examined = elim (Bool-cases matches) [
      | inl e ↦ rw e (step_match (is_match_sound token_array _ _ _ _ size size_pos e))
      | inr e ↦ rw e (step_miss (λ h. cc (is_match_complete token_array _ _ _ _ size size_pos h)))
    ]
      where
        matches : Bool
        matches = is_match token_array limit0 (limit_at texts i1) i0 i1 size

    -- The body of the loop, with the pointer `txt1`.
    pub examine-Examined :
        (txt1 : Cursor)
        → Follows texts i1 txt1
        → limit_at texts i1 ≢ 0
        → (txt1' : Cursor) × (best' : Best) × (examine lang m token_array limit0 i0 i1 txt1 best
            ≡ some (txt1', best'))
          × Follows texts i1 txt1'
          × Examined i1 best best'
    unfolding examine step
    examine-Examined txt1 f ne =
        let (txt1', e, k, g) = bump-Follows texts i1 txt1.index txt1.rest f ne in
        (txt1', step i1 best, rw (e, examine, k), g, step-Examined)

  pub IsBestAt-le :
      (best best' : Best) (q : ℕ)
      → best.size_best ≤ best'.size_best
      → IsBestAt best q
      → IsBestAt best' q
  IsBestAt-le best best' q le h k l a = omega (arith, h k l a)
