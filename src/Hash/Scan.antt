-- ===== src/Hash/Scan.antt =====
-- The loops of `make_forward_references_hash1` enter every place where a run may start, once and
-- in ascending order.
use run_server.Base.{
  ℕ, zero, suc, ◌+◌, ◌-◌, ◌≤◌, ◌<◌, ◌≡◌, ◌⊎◌, inl, inr, sym, ap, ◌∙◌, Bool, true, false, List, [],
  ◌∷◌, ltb, Bool-cases, zeros, arith,
}
use native.Mathlib.Decide.{ℕ_discrete}
use run_server.Text.{Text, Ordered, FitsIn}
use run_server.Hash.{Tables, code1, visit, scan_text, scan_texts, make_forward_references_hash1}
use run_server.Hash.Forward.{IsForward}
use run_server.Hash.Links.{Linked, Linked-iff, Added, entered, entered-Linked, zeros-Linked}

-- A run of `m` tokens may start at `q`, inside one of the texts.
abbrev pub IsStart : ℕ → (ℕ → ℕ) → (ℕ → Bool) → List Text → ℕ → Type 0
IsStart m token_array may_start texts q = (may_start (token_array q) ≡ true) × FitsIn m q texts

module _ (m : ℕ) (token_array : ℕ → ℕ) (may_start : ℕ → Bool) (size : ℕ) where
  abbrev c : ℕ → ℕ
  c = code1 m token_array size

  abbrev Start : List Text → ℕ → Type 0
  Start = IsStart m token_array may_start

  visit-entered :
      (V : ℕ → Type 0) (b : ℕ) (s : Tables) (inv : Linked c V b s) (j : ℕ)
      → may_start (token_array j) ≡ true
      → visit m token_array may_start size j s ≡ entered c V b s inv j
  unfolding visit
  visit-entered V b s inv j e = rw e

  visit-skip :
      (s : Tables) (j : ℕ)
      → may_start (token_array j) ≡ false
      → visit m token_array may_start size j s ≡ s
  unfolding visit
  visit-skip s j e = rw e

  -- The body of the loop enters position `j` if a run may start with its token.
  abbrev Visited : (ℕ → Type 0) → ℕ → ℕ → Type 0
  Visited V j q = V q ⊎ ((may_start (token_array q) ≡ true) × (q ≡ j))

  visit-Linked :
      (V : ℕ → Type 0) (j : ℕ) (s : Tables)
      → 0 < j
      → Linked c V j s
      → Linked c (Visited V j) (j + 1) (visit m token_array may_start size j s)
  visit-Linked V j s pj inv = elim (Bool-cases (may_start (token_array j))) [
    | inl e ↦ rw (visit-entered V j s inv j e) (
        Linked-iff c _ (j + 1) _ (entered-Linked c V j s inv j pj (omega arith)) (Visited V j)
          (j + 1) (λ q. added e q) (λ q. entered_at q) (omega arith))
    | inr e ↦ rw (visit-skip s j e) (
        Linked-iff c V j s inv (Visited V j) (j + 1) (λ q v. inl v) (λ q. skipped e q)
          (omega arith))
  ]
    where
      added : may_start (token_array j) ≡ true → (q : ℕ) → Added c V j s inv j q → Visited V j q
      added e q (inl v) = inl v
      added e q (inr f) = inr (ap (λ k. may_start (token_array k)) f ∙ e, f)

      entered_at : (q : ℕ) → Visited V j q → Added c V j s inv j q
      entered_at q (inl v) = inl v
      entered_at q (inr (e, f)) = inr f

      skipped : may_start (token_array j) ≡ false → (q : ℕ) → Visited V j q → V q
      skipped e q (inl v) = v
      skipped e q (inr (t, f)) = cc (ap (λ k. may_start (token_array k)) f)

  -- The positions from `j` on that the inner loop enters.
  abbrev Rest : ℕ → ℕ → ℕ → Type 0
  Rest j limit q = (may_start (token_array q) ≡ true) × ((j ≤ q) × (q + m - 1 < limit))

  none_left :
      (V : ℕ → Type 0) (j limit : ℕ) → limit ≤ j + m - 1 → (q : ℕ) → V q ⊎ Rest j limit q → V q
  none_left V j limit le q (inl v) = v
  none_left V j limit le q (inr (e, (l, r))) = absurd (omega arith)

  scan_text-Linked :
      (fuel j limit : ℕ) (V : ℕ → Type 0) (s : Tables)
      → 0 < m
      → 0 < j
      → j ≤ limit
      → limit ≤ j + fuel
      → Linked c V j s
      → Linked c
          (λ q. V q ⊎ Rest j limit q)
          limit
          (scan_text m token_array may_start size fuel j limit s)
  unfolding scan_text
  scan_text-Linked zero j limit V s pm pj le f inv =
      Linked-iff c V j s inv _ limit (λ q v. inl v) (none_left V j limit (omega arith)) le
  scan_text-Linked (suc fuel) j limit V s pm pj le f inv =
      elim (Bool-cases (ltb (j + m - 1) limit)) [
        | inl e ↦ rw e (
            Linked-iff c _ limit _
              (scan_text-Linked fuel (j + 1) limit (Visited V j)
                (visit m token_array may_start size j s) pm (omega arith) (ground arith)
                (omega arith) (visit-Linked V j s pj inv))
              _ limit (λ q. ahead e q) (λ q. behind q) (omega arith))
        | inr e ↦
            rw e (
              Linked-iff c V j s inv _ limit (λ q v. inl v) (none_left V j limit (ground arith)) le)
      ]
    where
      ahead :
          ltb (j + m - 1) limit ≡ true
          → (q : ℕ) → Visited V j q ⊎ Rest (j + 1) limit q
          → V q ⊎ Rest j limit q
      ahead e q (inl (inl v)) = inl v
      ahead e q (inl (inr (t, f))) = inr (t, (omega arith, ground arith))
      ahead e q (inr (t, (l, r))) = inr (t, (omega arith, r))

      behind : (q : ℕ) → V q ⊎ Rest j limit q → Visited V j q ⊎ Rest (j + 1) limit q
      behind q (inl v) = inl (inl v)
      behind q (inr (t, (l, r))) = elim (ℕ_discrete q j) [
        | yes e ↦ inl (inr (t, e))
        | no d ↦ inr (t, (omega arith, r))
      ]

  scan_texts-Linked :
      (texts : List Text) (b n : ℕ) (V : ℕ → Type 0) (s : Tables)
      → 0 < m
      → 0 < b
      → Ordered b texts n
      → Linked c V b s
      → Linked c (λ q. V q ⊎ Start texts q) n (scan_texts m token_array may_start size texts s)
  unfolding scan_texts
  scan_texts-Linked [] b n V s pm pb o inv = Linked-iff c V b s inv _ n (λ q v. inl v) back o
    where
      back : (q : ℕ) → V q ⊎ Start [] q → V q
      back q (inl v) = v
      back q (inr (t, e)) = absurd e
  scan_texts-Linked (t ∷ ts) b n V s pm pb (lo, le, o) inv =
      Linked-iff c _ n _
        (scan_texts-Linked ts t.tx_limit n _ _ pm (omega arith) o (
          scan_text-Linked t.tx_limit t.tx_start t.tx_limit V s pm (omega arith) le (omega arith)
            (Linked-iff c V b s inv V t.tx_start (λ q v. v) (λ q v. v) lo)))
        _ n to from (omega arith)
    where
      to : (q : ℕ) → (V q ⊎ Rest t.tx_start t.tx_limit q) ⊎ Start ts q → V q ⊎ Start (t ∷ ts) q
      to q (inl (inl v)) = inl v
      to q (inl (inr (e, f))) = inr (e, inl f)
      to q (inr (e, f)) = inr (e, inr f)

      from : (q : ℕ) → V q ⊎ Start (t ∷ ts) q → (V q ⊎ Rest t.tx_start t.tx_limit q) ⊎ Start ts q
      from q (inl v) = inl (inl v)
      from q (inr (e, inl f)) = inl (inr (e, f))
      from q (inr (e, inr f)) = inr (e, f)

  -- The table of the first pass.
  abbrev pub first_pass : List Text → ℕ → ℕ
  first_pass = make_forward_references_hash1 m token_array may_start size

  module _ (texts : List Text) (n : ℕ) (pm : 0 < m) (o : Ordered 1 texts n) where
    final : Tables
    final =
        scan_texts m token_array may_start size texts
          (record { last_index = zeros; forward_reference = zeros })

    final-Linked : Linked c (Start texts) n final
    unfolding final
    final-Linked =
        Linked-iff c _ n _ (scan_texts-Linked texts 1 n _ _ pm (omega arith) o (zeros-Linked c 1))
          (Start texts) n to (λ q v. inr v) (omega arith)
      where
        to : (q : ℕ) → ⊥ ⊎ Start texts q → Start texts q
        to q (inl v) = absurd v
        to q (inr v) = v

    -- The first pass leaves forward references between the places that share a table entry.
    pub first_pass-IsForward : IsForward (Start texts) (λ p q. c p ≡ c q) n (first_pass texts)
    unfolding make_forward_references_hash1 final
    first_pass-IsForward = record {
      within = final-Linked.within;
      sound = λ p ne. let (s, t, l, e) = final-Linked.ref_entered p ne in (s, t, l, sym e);
      next = final-Linked.ref_next;
    }
