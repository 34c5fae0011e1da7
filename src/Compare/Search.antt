-- ===== src/Compare/Search.antt =====
-- `lcs` follows the chain of forward references to its end, and returns the best run on it.
use run_server.Base.{
  ℕ, zero, suc, ◌+◌, ◌≤◌, ◌<◌, ◌≡◌, inl, inr, refl, sym, ap, ◌∙◌, subst, true, false, List, some,
  ltb, leb, ◌||◌, ◌==◌, Bool-cases, if◌then◌else◌, arith,
}
use native.Mathlib.Nat.{add-zero}
use run_server.Text.{Text, Ordered, FitsIn}
use run_server.Language.{Language}
use run_server.Hash.{forward_reference_at}
use run_server.Hash.Scan.{IsStart}
use run_server.Hash.Chains.{Reaches, here, along, IsBuilt}
use run_server.Compare.{Cursor, Best, examine, lcs_from, lcs}
use run_server.Compare.Match.{IsMatch}
use run_server.Compare.Texts.{limit_at, Follows, Follows-le, FitsIn-limit}
use run_server.Compare.Lcs.{OkBest, IsBestAt, IsBestAt-le, accepted-long, examine-Examined}

module _ (lang : Language) (m : ℕ) (token_array : ℕ → ℕ) (n : ℕ) (table : ℕ → ℕ) (texts : List Text)
    (limit0 i0 i_first i_limit : ℕ) (pm : 0 < m) (ordered : Ordered 1 texts n)
    (built : IsBuilt m token_array n lang.may_be_start_of_run texts table)
    (le_n : i_limit ≤ n) where
  abbrev Ok : Best → Type 0
  Ok = OkBest lang m token_array texts limit0 i0 i_first i_limit pm

  abbrev BestAt : Best → ℕ → Type 0
  BestAt = IsBestAt lang m token_array texts limit0 i0 i_first i_limit pm

  -- What the loop has found when it ends, started at `i1` with `best`.
  record Searched (i1 : ℕ) (best best' : Best) : Type 0 where
    grows : best.size_best ≤ best'.size_best
    sound : Ok best → Ok best'
    optimal : (q : ℕ) → Reaches table i1 q → i_first ≤ q → q < i_limit → 0 < i1 → BestAt best' q

  up : (p q : ℕ) → Reaches table p q → p ≤ q
  up p q (here _) = omega arith
  up p q (along _ r _ ne e rest) = omega (arith, up r q rest, (built.sound p ne).2)

  -- A round of the loop, with the position in range or not.
  round :
      (i1 : ℕ) (txt1 : Cursor) (best : Best)
      → Follows texts i1 txt1
      → FitsIn m i1 texts
      → i1 < i_limit
      → (txt1' : Cursor) × (best' : Best) × ((if ltb i1 i_first
            then some (txt1, best)
            else examine lang m token_array limit0 i0 i1 txt1 best)
          ≡ some (txt1', best'))
        × Follows texts i1 txt1'
        × (best.size_best ≤ best'.size_best)
        × (Ok best → Ok best')
        × (i_first ≤ i1 → BestAt best' i1)
  round i1 txt1 best f fits below = elim (Bool-cases (ltb i1 i_first)) [
    | inl e ↦ (txt1, best, rw e, f, omega arith, λ b. b, λ le. absurd (ground arith))
    | inr e ↦
        let (_, k, _) = FitsIn-limit m 1 n i1 texts pm ordered fits in
        let (txt1', best', e', g, x) =
          examine-Examined lang m token_array texts limit0 i0 i_first i_limit pm i1 (ground arith)
            below fits best txt1 f (λ z. omega (arith, k)) in
        (txt1', best', rw e e', g, x.grows, x.sound, λ _. x.optimal)
  ]

  -- Where the loop stands: the pointer is right, and the position is in a text.
  record IsAt (fuel i1 : ℕ) (txt1 : Cursor) : Type 0 where
    follows : Follows texts i1 txt1
    fits : FitsIn m i1 texts
    enough : n < i1 + fuel

  next-IsAt :
      (fuel i1 : ℕ) (txt1 : Cursor)
      → Follows texts i1 txt1
      → n < i1 + suc fuel
      → 0 < table i1
      → IsAt fuel (table i1) txt1
  next-IsAt fuel i1 txt1 f enough pos =
      let (_, t, lt, _) = built.sound i1 (λ z. omega arith) in
      record {
        follows = Follows-le i1 (table i1) (omega arith) f;
        fits = t.1;
        enough = omega arith;
      }

  -- The chain of a position is the position, and the chain of its reference.
  later_best :
      (i1 : ℕ) (best' best'' : Best)
      → (i_first ≤ i1 → BestAt best' i1)
      → Searched (table i1) best' best''
      → (q : ℕ) → Reaches table i1 q
      → i_first ≤ q
      → q < i_limit
      → 0 < i1
      → BestAt best'' q
  later_best i1 best' best'' at s q (here _) from below pos =
      IsBestAt-le lang m token_array texts limit0 i0 i_first i_limit pm best' best'' q s.grows
        (at from)
  later_best i1 best' best'' at s q (along _ r _ ne e rest) from below pos =
      s.optimal q (subst (λ x. Reaches table x q) (sym e) rest) from below (omega arith)

  lcs_from-round :
      (fuel i1 : ℕ) (txt1 txt1' : Cursor) (best best' : Best)
      → (i1 == 0 || leb i_limit i1) ≡ false
      → (if ltb i1 i_first
          then some (txt1, best)
          else examine lang m token_array limit0 i0 i1 txt1 best)
        ≡ some (txt1', best')
      → lcs_from lang m token_array n table (suc fuel) limit0 i0 i_first i_limit i1 txt1 best
        ≡ lcs_from lang m token_array n table fuel limit0 i0 i_first i_limit (table i1) txt1' best'
  unfolding lcs_from forward_reference_at
  lcs_from-round fuel i1 txt1 txt1' best best' e e' =
      let nonzero : (i1 == 0) ≡ false = ground arith in
      let inside : leb n i1 ≡ false = ground arith in rw (e, e', nonzero, inside) refl

  lcs_from-Searched :
      (fuel i1 : ℕ) (txt1 : Cursor) (best : Best)
      → (0 < i1 → IsAt fuel i1 txt1)
      → 0 < fuel
      → (best' : Best) × (lcs_from lang m token_array n table fuel limit0 i0 i_first i_limit i1 txt1
            best
          ≡ some best')
        × Searched i1 best best'
  unfolding lcs_from
  lcs_from-Searched zero i1 txt1 best at pf = absurd (omega arith)
  lcs_from-Searched (suc fuel) i1 txt1 best at pf = elim (Bool-cases (i1 == 0 || leb i_limit i1)) [
    | inl e ↦ (best, rw e, ended e)
    | inr e ↦
        let pos : 0 < i1 = ground arith in
        let here' = at pos in
        let (txt1', best', e', g, grows, sound, best_here) =
          round i1 txt1 best here'.follows here'.fits (ground arith) in
        let (best'', e'', s) =
          lcs_from-Searched fuel (table i1) txt1' best' (next-IsAt fuel i1 txt1' g here'.enough)
            (ground (arith, here'.enough)) in
        (
          best'',
          lcs_from-round fuel i1 txt1 txt1' best best' e e' ∙ e'',
          record {
            grows = omega (arith, s.grows);
            sound = λ b. s.sound (sound b);
            optimal = later_best i1 best' best'' best_here s;
          },
        )
  ]
    where
      ended : (i1 == 0 || leb i_limit i1) ≡ true → Searched i1 best best
      ended e = record {
        grows = omega arith;
        sound = λ b. b;
        optimal = λ q r from below pos. absurd (ground (arith, up i1 q r));
      }

  -- `lcs` ends, and what it returns is sound and the best that there is in the range.
  pub lcs-best :
      (txt0 : Cursor)
      → Follows texts i0 txt0
      → FitsIn m i0 texts
      → (best : Best) × (lcs lang m token_array n table txt0 limit0 i0 i_first i_limit ≡ some best)
        × Ok best
        × ((q : ℕ) → Reaches table i0 q → i_first ≤ q → q < i_limit → BestAt best q)
  unfolding lcs
  lcs-best txt0 f fits =
      let (pos, within, top) = FitsIn-limit m 1 n i0 texts pm ordered fits in
      let (best, e, s) =
        lcs_from-Searched n i0 txt0 (record { size_best = 0; tx_b = 0; i_b = 0 })
          (λ _. record { follows = f; fits = fits; enough = omega arith }) (omega arith) in
      (best, e, s.sound (inl refl), λ q r from below. s.optimal q r from below pos)

  -- A position where a run matches is on the chain, if a run may start with the token.
  match-Reaches :
      (q k : ℕ)
      → IsStart m token_array lang.may_be_start_of_run texts i0
      → FitsIn m q texts
      → IsMatch token_array limit0 (limit_at texts q) i0 q k
      → m ≤ k
      → Reaches table i0 q
  match-Reaches q k s fits h le =
      built.complete i0 q s (starts, fits) (omega (arith, h.apart))
        (λ d lt. h.equal d (omega arith))
    where
      starts : lang.may_be_start_of_run (token_array q) ≡ true
      starts =
          subst (λ (t : ℕ). lang.may_be_start_of_run t ≡ true) (first (h.equal 0 (omega arith))) s.0
        where
          first : token_array (i0 + 0) ≡ token_array (q + 0) → token_array i0 ≡ token_array q
          first e = ap token_array (sym (add-zero i0)) ∙ e ∙ ap token_array (add-zero q)

  -- `lcs` ends, within bounds. A run that it returns is accepted by the language, matches and lies
  -- in the range. No run that the language accepts, at any place in the range, is longer.
  pub lcs_lem :
      (txt0 : Cursor)
      → Follows texts i0 txt0
      → FitsIn m i0 texts
      → (best : Best) × (lcs lang m token_array n table txt0 limit0 i0 i_first i_limit ≡ some best)
        × Ok best
        × ((q : ℕ) → i_first ≤ q → q < i_limit → FitsIn m q texts → BestAt best q)
  lcs_lem txt0 f fits =
      let (best, e, ok, all) = lcs-best txt0 f fits in
      (best, e, ok, λ q from below there. optimal best q (all q) from below there)
    where
      optimal :
          (best : Best) (q : ℕ)
          → (Reaches table i0 q → i_first ≤ q → q < i_limit → BestAt best q)
          → i_first ≤ q
          → q < i_limit
          → FitsIn m q texts
          → BestAt best q
      optimal best q reached from below there k longest le =
          let (starts, size) = accepted-long lang m token_array i0 k pm le in
          reached (match-Reaches q k (starts, fits) there longest.0 (omega arith)) from below k
            longest le
