-- ===== src/Hash/Chains.antt =====
-- Chains of forward references, and the table that `Make_Forward_References` builds.
use run_server.Base.{
  ℕ, zero, suc, ◌+◌, ◌%◌, ◌≤◌, ◌<◌, ◌≡◌, ◌≢◌, refl, sym, ap, subst, ◌∙◌, Bool, true, some, List,
  arith,
}
use native.Mathlib.Decide.{ℕ_discrete}
use run_server.Text.{Text, Ordered, FitsIn-end}
use run_server.Hash.{tokens_at, code1, code2, make_forward_references}
use run_server.Hash.Codes.{SameRun, hash1-eq, hash2-eq}
use run_server.Hash.Scan.{IsStart, first_pass-IsForward}
use run_server.Hash.Forward.{IsForward}
use run_server.Hash.Clean.{clean-IsForward}
use run_server.Hash.TableSize.{largest_prime, init_hash_table-total}

-- The references of the table lead from one position to another, in any number of steps.
pub data Reaches (table : ℕ → ℕ) : ℕ → ℕ → Type 0 where
  here : (p : ℕ) → Reaches table p p
  along : (p q r : ℕ) → table p ≢ 0 → table p ≡ q → Reaches table q r → Reaches table p r

module _ (S : ℕ → Type 0) (Same : ℕ → ℕ → Type 0) (n : ℕ) (table : ℕ → ℕ)
    (trans_same : (p q r : ℕ) → Same p q → Same q r → Same p r)
    (sym_same : (p q : ℕ) → Same p q → Same q p) (f : IsForward S Same n table) where
  -- The chain of a position holds every later one that is the same.
  pub IsForward-Reaches :
      (fuel p q : ℕ) → q ≤ p + fuel → S p → S q → Same p q → p < q → Reaches table p q
  IsForward-Reaches zero p q le s t same lt = absurd (omega arith)
  IsForward-Reaches (suc fuel) p q le s t same lt =
      let (ne, near) = f.next p q s t same lt in
      let (_, u, up, same') = f.sound p ne in
      along p (table p) q ne refl (elim (ℕ_discrete (table p) q) [
        | yes e ↦ subst (Reaches table (table p)) e (here (table p))
        | no other ↦
            IsForward-Reaches fuel (table p) q (omega arith) u t
              (trans_same _ _ _ (sym_same _ _ same') same) (omega arith)
      ])

-- What the table of `Make_Forward_References` is good for, over an array of `n` tokens.
pub record IsBuilt (m : ℕ) (token_array : ℕ → ℕ) (n : ℕ) (may_start : ℕ → Bool) (texts : List Text)
    (table : ℕ → ℕ) : Type 0 where
  pub sound :
      (p : ℕ)
      → table p ≢ 0
      → IsStart m token_array may_start texts p
        × IsStart m token_array may_start texts (table p)
        × (p < table p)
        × (table p + m ≤ n)
  pub complete :
      (p q : ℕ)
      → IsStart m token_array may_start texts p
      → IsStart m token_array may_start texts q
      → p < q
      → SameRun m (tokens_at token_array p) (tokens_at token_array q)
      → Reaches table p q

module _ (m : ℕ) (token_array : ℕ → ℕ) (n : ℕ) (may_start try_calloc : ℕ → Bool) (texts : List Text)
    (pm : 0 < m) (ordered : Ordered 1 texts n) where
  -- Equal runs have equal hash codes, so the chain of the first finds the second.
  IsForward-IsBuilt :
      (size : ℕ) (table : ℕ → ℕ)
      → IsForward
          (IsStart m token_array may_start texts)
          (λ p q.
            (code1 m token_array size p ≡ code1 m token_array size q)
            × (code2 m token_array p ≡ code2 m token_array q))
          n
          table
      → IsBuilt m token_array n may_start texts table
  unfolding code1 code2
  IsForward-IsBuilt size table f = record {
    sound = λ p ne.
        let (s, t, up, _) = f.sound p ne in
        (s, t, up, FitsIn-end m 1 n (table p) texts pm ordered t.1);
    complete = λ p q s t lt same.
        IsForward-Reaches _ _ n table (λ a b c (d, e) (d', e'). (d ∙ d', e ∙ e'))
          (λ a b (d, e). (sym d, sym e)) f q p q (omega arith) s t
          (ap (λ h. h % size) (hash1-eq m pm _ _ same), hash2-eq m pm _ _ same) lt;
  }

  pub make_forward_references-IsBuilt :
      try_calloc 14051 ≡ true
      → n ≤ largest_prime
      → (table : ℕ → ℕ) × (make_forward_references m token_array n may_start try_calloc texts
          ≡ some table)
        × IsBuilt m token_array n may_start texts table
  unfolding make_forward_references
  make_forward_references-IsBuilt memory small =
      let (size, e, _) = init_hash_table-total try_calloc n memory small in
      let (table, e', f) =
        clean-IsForward m token_array _ _ n _ (λ p q r. ◌∙◌) (λ p q. sym)
          (first_pass-IsForward m token_array may_start size texts n pm ordered)
          (λ q s. FitsIn-end m 1 n q texts pm ordered s.1) in
      (table, rw (e, make_forward_references) e', IsForward-IsBuilt size table f)
