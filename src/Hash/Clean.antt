-- ===== src/Hash/Clean.antt =====
-- `clean_forward_references_hash2`: the second pass takes the references between runs with
-- different second hash codes out of the chains, and leaves the others.
use run_server.Base.{
  ℕ, zero, suc, ◌+◌, ◌-◌, ◌≤◌, ◌<◌, ◌≡◌, ◌≢◌, refl, sym, ap, ◌∙◌, subst, some, update, update_eq,
  update_ne, arith,
}
use native.Mathlib.Decide.{ℕ_discrete, dec_lt}
use run_server.Hash.{code2, next_match, clean_from, clean_forward_references_hash2}
use run_server.Hash.Forward.{IsForward}

module _ (m : ℕ) (token_array : ℕ → ℕ) where
  abbrev d : ℕ → ℕ
  d = code2 m token_array

  -- The search reads the table from its starting point on only.
  next_match-eq :
      (fuel : ℕ) (g fr : ℕ → ℕ) (h2 j : ℕ)
      → ((k : ℕ) → j ≤ k → g k ≡ fr k)
      → ((p : ℕ) → fr p ≢ 0 → p < fr p)
      → next_match m token_array fuel g h2 j ≡ next_match m token_array fuel fr h2 j
  unfolding next_match
  next_match-eq zero g fr h2 j same up = refl
  next_match-eq (suc fuel) g fr h2 j same up = elim (ℕ_discrete (fr j) 0) [
    | yes z ↦ ground (arith, same j (omega arith))
    | no ne ↦ ground (
      arith,
      same j (omega arith),
      next_match-eq fuel g fr h2 (fr j) (λ k le. same k (omega (arith, up j ne))) up,
    )
  ]

  module _ (S : ℕ → Type 0) (Same : ℕ → ℕ → Type 0) (n : ℕ) (fr : ℕ → ℕ)
      (trans_same : (p q r : ℕ) → Same p q → Same q r → Same p r)
      (sym_same : (p q : ℕ) → Same p q → Same q p) (f : IsForward S Same n fr) where
    up : (p : ℕ) → fr p ≢ 0 → p < fr p
    up p ne = (f.sound p ne).2

    -- What the search for the code `h2` finds on the chain of `j`.
    record Found (h2 j r : ℕ) : Type 0 where
      found : r ≢ 0 → S j × S r × (j < r) × Same j r × (d r ≡ h2)
      first : (q : ℕ) → S j → S q → Same j q → j < q → d q ≡ h2 → (r ≢ 0) × (r ≤ q)

    module _ (h2 j : ℕ) where
      Found-end : fr j ≡ 0 → Found h2 j 0
      Found-end z = record {
        found = λ ne. absurd (ne refl);
        first = λ q s t e lt k. absurd ((f.next j q s t e lt).0 z);
      }

      Found-here : fr j ≢ 0 → d (fr j) ≡ h2 → Found h2 j (fr j)
      Found-here ne e = record {
        found = λ _. let (s, t, lt, same) = f.sound j ne in (s, t, lt, same, e);
        first = λ q s t same lt k. f.next j q s t same lt;
      }

      Found-later : (r : ℕ) → fr j ≢ 0 → d (fr j) ≢ h2 → Found h2 (fr j) r → Found h2 j r
      Found-later r ne other below = record {
        found = λ nz.
            let (s, t, lt, same) = f.sound j ne in
            let (_, u, lt', same', e) = below.found nz in
            (s, u, omega arith, trans_same _ _ _ same same', e);
        first = first;
      }
        where
          first : (q : ℕ) → S j → S q → Same j q → j < q → d q ≡ h2 → (r ≢ 0) × (r ≤ q)
          first q s t same lt k =
              let (_, le) = f.next j q s t same lt in
              let (_, u, _, same') = f.sound j ne in
              let apart : fr j ≢ q = λ e. other (ap d e ∙ k) in
              below.first q u t (trans_same _ _ _ (sym_same _ _ same') same) (omega arith) k

    -- `n` rounds are enough for the search.
    next_match-Found :
        (fuel h2 j : ℕ)
        → j < n
        → n ≤ j + fuel
        → (r : ℕ) × (next_match m token_array fuel fr h2 j ≡ some r) × Found h2 j r
    unfolding next_match
    next_match-Found zero h2 j lt le = absurd (omega arith)
    next_match-Found (suc fuel) h2 j lt le = elim (ℕ_discrete (fr j) 0) [
      | yes z ↦ (0, ground arith, Found-end h2 j z)
      | no ne ↦ elim (ℕ_discrete (d (fr j)) h2) [
        | yes e ↦ (fr j, ground arith, Found-here h2 j ne e)
        | no other ↦
            let (r, e, below) =
              next_match-Found fuel h2 (fr j) (f.within (fr j) (f.sound j ne).1).1
                (omega (arith, up j ne)) in
            (r, ground arith, Found-later h2 j r ne other below)
      ]
    ]

    -- The outer loop: what it leaves, what it has cleaned and what it does not reach.
    clean_from-Found :
        (rounds i : ℕ) (g : ℕ → ℕ)
        → i + rounds ≤ n
        → ((k : ℕ) → i ≤ k → g k ≡ fr k)
        → (g' : ℕ → ℕ) × (clean_from m token_array n rounds i g ≡ some g')
          × ((j : ℕ) → j < i → g' j ≡ g j)
          × ((j : ℕ) → i ≤ j → j < i + rounds → Found (d j) j (g' j))
          × ((j : ℕ) → i + rounds ≤ j → g' j ≡ fr j)
    unfolding clean_from
    clean_from-Found zero i g le same =
        (g, refl, λ j lt. refl, λ j l lt. absurd (omega arith), λ j l. same j (omega arith))
    clean_from-Found (suc rounds) i g le same =
        let (r, e, found) = next_match-Found n (d i) i (omega arith) (omega arith) in
        let (g', e', before, cleaned, after) =
          clean_from-Found rounds (i + 1) (update g i r) (omega arith)
            (λ k l. update_ne g i k r (omega arith) ∙ same k (omega arith)) in
        let here : g' i ≡ r = before i (omega arith) ∙ update_eq g i i r refl in
        (
          g',
          rw (next_match-eq n g fr (d i) i same up ∙ e, clean_from) e',
          λ j lt. before j (omega arith) ∙ update_ne g i j r (omega arith),
          λ j l lt. elim (dec_lt i j) [
            | yes more ↦ cleaned j (omega arith) (omega arith)
            | no this ↦
                let at : i ≡ j = omega arith in subst (λ k. Found (d k) k (g' k)) at (rw here found)
          ],
          λ j l. after j (omega arith),
        )

    -- The second pass ends, and leaves the references between runs that agree in both codes.
    pub clean-IsForward :
        ((q : ℕ) → S q → q + m ≤ n)
        → (g : ℕ → ℕ) × (clean_forward_references_hash2 m token_array n fr ≡ some g)
          × IsForward S (λ p q. Same p q × (d p ≡ d q)) n g
    unfolding clean_forward_references_hash2
    clean-IsForward fits =
        let (g, e, _, cleaned, after) = clean_from-Found (n - m) 0 fr (omega arith) (λ k l. refl) in
        (
          g,
          e,
          record {
            within = f.within;
            sound = λ p ne. elim (dec_lt p (n - m)) [
              | yes lt ↦
                  let (s, t, up', same, k) = (cleaned p (omega arith) (omega arith)).found ne in
                  (s, t, up', (same, sym k))
              | no ge ↦
                  let kept : g p ≡ fr p = after p (omega arith) in
                  let (s, t, up', same) = f.sound p (λ z. ne (kept ∙ z)) in
                  absurd (omega (arith, fits _ t))
            ];
            next = λ p q s t same lt.
                (cleaned p (omega arith) (omega (arith, fits q t))).first q s t same.0 lt
                  (sym same.1);
          },
        )
