-- ===== src/Compare/Covers.antt =====
-- `compare_one_text`: from the start of a text to its end, the longest run is entered and skipped.
use run_server.Base.{
  ℕ, zero, suc, ◌+◌, ◌-◌, ◌≤◌, ◌<◌, ◌≡◌, ◌≢◌, inl, inr, refl, true, false, List, some, leb, ◌==◌,
  Bool-cases, get_elem?, arith,
}
use native.Mathlib.Decide.{ℕ_discrete}
use run_server.Text.{Text, Ordered, FitsIn}
use run_server.Language.{Language}
use run_server.Hash.Chains.{IsBuilt}
use run_server.Compare.{Best, lcs, compare_from, compare_one_text}
use run_server.Compare.Texts.{text_at, text_at-Follows, FitsIn-get, Ordered-get}
use run_server.Compare.Lcs.{IsSound, IsBestAt, OkBest}
use run_server.Compare.Search.{lcs_lem}

module _ {ℓ} {State : Type ℓ} (add_run : ℕ → ℕ → ℕ → ℕ → ℕ → State → State) (lang : Language)
    (m : ℕ) (token_array : ℕ → ℕ) (n : ℕ) (table : ℕ → ℕ) (texts : List Text) (pm : 0 < m)
    (ordered : Ordered 1 texts n)
    (built : IsBuilt m token_array n lang.may_be_start_of_run texts table)
    (k limit0 i_first i_limit : ℕ) where
  abbrev pub Sound : ℕ → Best → Type 0
  Sound i0 = IsSound lang m token_array texts limit0 i0 i_first i_limit pm

  -- No run at `i0` that the language accepts is longer than `best`.
  abbrev pub Unbeaten : ℕ → Best → Type 0
  Unbeaten i0 best =
      (q : ℕ)
      → i_first ≤ q
      → q < i_limit
      → FitsIn m q texts
      → IsBestAt lang m token_array texts limit0 i0 i_first i_limit pm best q

  -- The calls of `add_run` for the positions from `i0` on lead to the state `s'`.
  pub data Covers (s' : State) : ℕ → State → Type ℓ where
    stop : (i0 : ℕ) (s : State) → limit0 < i0 + m → s ≡ s' → Covers s' i0 s
    skip :
        (i0 : ℕ) (s : State) (best : Best)
        → best.size_best ≡ 0
        → Unbeaten i0 best
        → Covers s' (i0 + 1) s
        → Covers s' i0 s
    enter :
        (i0 : ℕ) (s : State) (best : Best)
        → Sound i0 best
        → Unbeaten i0 best
        → Covers s' (i0 + best.size_best) (add_run k i0 best.tx_b best.i_b best.size_best s)
        → Covers s' i0 s

  module _ {txt0 : Text} (at : get_elem? texts k ≡ some txt0) (ends : limit0 ≡ txt0.tx_limit)
      (le_n : i_limit ≤ n) where
    found :
        (i0 : ℕ)
        → txt0.tx_start ≤ i0
        → i0 + m ≤ limit0
        → (best : Best) × (lcs lang m token_array n table
              (text_at texts k)
              limit0
              i0
              i_first
              i_limit
            ≡ some best)
          × OkBest lang m token_array texts limit0 i0 i_first i_limit pm best
          × Unbeaten i0 best
    found i0 from room =
        lcs_lem lang m token_array n table texts limit0 i0 i_first i_limit pm ordered built le_n
          (text_at texts k) (text_at-Follows texts k 1 n i0 ordered at from)
          (FitsIn-get texts k m i0 at pm from (omega arith))

    compare_from-Covers :
        (fuel i0 : ℕ) (s : State)
        → txt0.tx_start ≤ i0
        → i0 ≤ limit0
        → limit0 < i0 + fuel
        → (s' : State) × (compare_from add_run lang m token_array n table texts fuel k limit0
              i_first i_limit i0 s
            ≡ some s')
          × Covers s' i0 s
    unfolding compare_from
    compare_from-Covers zero i0 s from le enough = absurd (omega arith)
    compare_from-Covers (suc fuel) i0 s from le enough = elim (Bool-cases (leb (i0 + m) limit0)) [
      | inr e ↦ (s, rw e, stop i0 s (ground arith) refl)
      | inl e ↦
          let (best, e', ok, all) = found i0 from (ground arith) in
          elim (ℕ_discrete best.size_best 0) [
            | yes z ↦
                let (s', e'', c) =
                  compare_from-Covers fuel (i0 + 1) s (omega arith) (ground arith) (omega arith) in
                (s', rw (e, e', empty z) e'', skip i0 s best z all c)
            | no ne ↦
                let sound = good best ok ne in
                let (s', e'', c) =
                  compare_from-Covers fuel (i0 + best.size_best)
                    (add_run k i0 best.tx_b best.i_b best.size_best s) (omega arith)
                    (omega (arith, sound.matches.inside0)) (omega (arith, size_pos ne)) in
                (s', rw (e, e', full ne) e'', enter i0 s best sound all c)
          ]
    ]
      where
        empty : {x : ℕ} → x ≡ 0 → (x == 0) ≡ true
        empty z = ground arith

        full : {x : ℕ} → x ≢ 0 → (x == 0) ≡ false
        full ne = ground arith

        size_pos : {x : ℕ} → x ≢ 0 → 0 < x
        size_pos ne = omega arith

        good :
            (best : Best)
            → OkBest lang m token_array texts limit0 i0 i_first i_limit pm best
            → best.size_best ≢ 0
            → Sound i0 best
        good best (inl z) ne = absurd (ne z)
        good best (inr s) ne = s

module _ {ℓ} {State : Type ℓ} (add_run : ℕ → ℕ → ℕ → ℕ → ℕ → State → State) (lang : Language)
    (m : ℕ) (token_array : ℕ → ℕ) (n : ℕ) (table : ℕ → ℕ) (texts : List Text) (pm : 0 < m)
    (ordered : Ordered 1 texts n)
    (built : IsBuilt m token_array n lang.may_be_start_of_run texts table) where
  -- `compare_one_text` ends, within bounds, when it is called for texts that there are.
  pub compare_one_text-Covers :
      (k first limit : ℕ) (s : State) {txt0 txt_first txt_last : Text}
      → get_elem? texts k ≡ some txt0
      → get_elem? texts first ≡ some txt_first
      → get_elem? texts (limit - 1) ≡ some txt_last
      → (s' : State) × (compare_one_text add_run lang m token_array n table texts k first limit s
          ≡ some s')
        × Covers add_run lang m token_array n table texts pm ordered built k txt0.tx_limit
            txt_first.tx_start txt_last.tx_limit s' txt0.tx_start s
  unfolding compare_one_text
  compare_one_text-Covers k first limit s {txt0} {txt_first} {txt_last} e f g =
      let (le, _) = Ordered-get texts k 1 n ordered e in
      let (_, le_n) = Ordered-get texts (limit - 1) 1 n ordered g in
      let (s', e', c) =
        compare_from-Covers add_run lang m token_array n table texts pm ordered built k
          txt0.tx_limit txt_first.tx_start txt_last.tx_limit e refl le_n (suc txt0.tx_limit)
          txt0.tx_start s (omega arith) le (omega arith) in
      (s', rw (e, f, g) e', c)
