-- ===== src/Hash/Links.antt =====
-- The tables while `make_forward_references_hash1` runs: the invariant of the two arrays.
use run_server.Base.{
  ℕ, ◌+◌, ◌≤◌, ◌<◌, ◌≡◌, ◌≢◌, ◌⊎◌, inl, inr, refl, sym, ap, ◌∙◌, subst, ◌==◌, if◌then◌else◌, update,
  update_eq, update_ne, zeros, arith,
}
use native.Mathlib.Decide.{ℕ_discrete}
use run_server.Hash.{Tables}

-- What the tables say of the positions `V` that have been entered, all below `b`, for a hash
-- code `c`.
pub record Linked (c : ℕ → ℕ) (V : ℕ → Type 0) (b : ℕ) (s : Tables) : Type 0 where
  pub within : (q : ℕ) → V q → (0 < q) × (q < b)
  pub last_entered : (h : ℕ) → s.last_index h ≢ 0 → V (s.last_index h) × (c (s.last_index h) ≡ h)
  pub last_max : (q : ℕ) → V q → q ≤ s.last_index (c q)
  pub ref_entered :
      (p : ℕ)
      → s.forward_reference p ≢ 0
      → V p
        × V (s.forward_reference p)
        × (p < s.forward_reference p)
        × (c (s.forward_reference p) ≡ c p)
  pub ref_next :
      (p q : ℕ)
      → V p
      → V q
      → c p ≡ c q
      → p < q
      → (s.forward_reference p ≢ 0) × (s.forward_reference p ≤ q)

module _ (c : ℕ → ℕ) (V : ℕ → Type 0) (b : ℕ) (s : Tables) (inv : Linked c V b s) where
  pub Linked-iff :
      (W : ℕ → Type 0) (b' : ℕ)
      → ((q : ℕ) → V q → W q)
      → ((q : ℕ) → W q → V q)
      → b ≤ b'
      → Linked c W b' s
  Linked-iff W b' to from le = record {
    within = λ q w. let (p, l) = inv.within q (from q w) in (p, omega arith);
    last_entered = λ h ne. let (v, e) = inv.last_entered h ne in (to _ v, e);
    last_max = λ q w. inv.last_max q (from q w);
    ref_entered = λ p ne. let (v, w, l, e) = inv.ref_entered p ne in (to _ v, to _ w, l, e);
    ref_next = λ p q v w. inv.ref_next p q (from p v) (from q w);
  }

  -- One position more, at or above the bound.
  abbrev pub Added : ℕ → ℕ → Type 0
  Added j q = V q ⊎ (q ≡ j)

  abbrev pub entered : ℕ → Tables
  entered j = record {
    last_index = update s.last_index (c j) j;
    forward_reference =
        if s.last_index (c j) == 0
        then s.forward_reference
        else update s.forward_reference (s.last_index (c j)) j;
  }

  module _ (j : ℕ) (pos : 0 < j) (above : b ≤ j) where
    entered-last_entered :
        (h : ℕ)
        → (entered j).last_index h ≢ 0
        → Added j ((entered j).last_index h) × (c ((entered j).last_index h) ≡ h)
    entered-last_entered h ne = elim (ℕ_discrete (c j) h) [
      | yes e ↦ rw (update_eq s.last_index (c j) h j e) (inr refl, e)
      | no d ↦
          let same = update_ne s.last_index (c j) h j d in
          let (v, e) = inv.last_entered h (λ z. ne (same ∙ z)) in rw same (inl v, e)
    ]

    entered-last_max : (q : ℕ) → Added j q → q ≤ (entered j).last_index (c q)
    entered-last_max q (inl v) = elim (ℕ_discrete (c j) (c q)) [
      | yes e ↦ rw (update_eq s.last_index (c j) (c q) j e) (omega (arith, (inv.within q v).1))
      | no d ↦ rw (update_ne s.last_index (c j) (c q) j d) (inv.last_max q v)
    ]
    entered-last_max q (inr e) =
        rw (update_eq s.last_index (c j) (c q) j (ap c (sym e))) (omega arith)

    -- The reference that is written, and those that are kept.
    entered-ref_new : (p : ℕ) → p ≢ 0 → s.last_index (c j) ≡ p → (entered j).forward_reference p ≡ j
    entered-ref_new p ne e = ground arith

    entered-ref_old :
        (p : ℕ)
        → (p ≡ 0) ⊎ (s.last_index (c j) ≢ p)
        → (entered j).forward_reference p ≡ s.forward_reference p
    entered-ref_old p (inl e) = ground arith
    entered-ref_old p (inr e) = ground arith

    entered-ref_entered :
        (p : ℕ)
        → (entered j).forward_reference p ≢ 0
        → Added j p
          × Added j ((entered j).forward_reference p)
          × (p < (entered j).forward_reference p)
          × (c ((entered j).forward_reference p) ≡ c p)
    entered-ref_entered p ne = go (ℕ_discrete (s.last_index (c j)) p) (ℕ_discrete p 0)
      where
        old :
            (p ≡ 0) ⊎ (s.last_index (c j) ≢ p)
            → Added j p
              × Added j ((entered j).forward_reference p)
              × (p < (entered j).forward_reference p)
              × (c ((entered j).forward_reference p) ≡ c p)
        old k =
            let same = entered-ref_old p k in
            let (v, w, l, e) = inv.ref_entered p (λ z. ne (same ∙ z)) in
            rw same (inl v, inl w, l, e)

        go :
            Dec (s.last_index (c j) ≡ p)
            → Dec (p ≡ 0)
            → Added j p
              × Added j ((entered j).forward_reference p)
              × (p < (entered j).forward_reference p)
              × (c ((entered j).forward_reference p) ≡ c p)
        go (yes e) (no z) =
            let (v, e') = inv.last_entered (c j) (λ w. z (sym e ∙ w)) in
            let v' : V p = subst V e v in
            rw (entered-ref_new p z e)
              (inl v', inr refl, omega (arith, (inv.within p v').1), sym e' ∙ ap c e)
        go (no d) _ = old (inr d)
        go _ (yes z) = old (inl z)

    entered-ref_next :
        (p q : ℕ)
        → Added j p
        → Added j q
        → c p ≡ c q
        → p < q
        → ((entered j).forward_reference p ≢ 0) × ((entered j).forward_reference p ≤ q)
    -- The later position was there before: so was what `p` refers to.
    entered-ref_next p q (inl v) (inl w) e lt =
        let l : s.last_index (c j) ≢ p = λ z. absurd (omega (arith, last_above z)) in
        rw (entered-ref_old p (inr l)) (inv.ref_next p q v w e lt)
      where
        last_above : s.last_index (c j) ≡ p → q ≤ p
        last_above z =
            let (_, e') = inv.last_entered (c j) (λ y. omega (arith, z, (inv.within p v).0)) in
            let same : c j ≡ c q = sym e' ∙ ap c z ∙ e in
            subst (λ h. s.last_index h ≡ p → q ≤ p) (sym same)
              (λ y. omega (arith, inv.last_max q w)) z
    -- The later position is the new one: `p` refers to it, or to one between.
    entered-ref_next p q (inl v) (inr f) e lt = go (ℕ_discrete (s.last_index (c j)) p)
      where
        top : p ≤ s.last_index (c j)
        top = rw (e ∙ ap c f) at (inv.last_max p v)

        go :
            Dec (s.last_index (c j) ≡ p)
            → ((entered j).forward_reference p ≢ 0) × ((entered j).forward_reference p ≤ q)
        go (yes z) = rw (entered-ref_new p (λ y. omega (arith, (inv.within p v).0)) z) (omega arith)
        go (no z) =
            let ne : s.last_index (c j) ≢ 0 = λ y. omega (arith, top, (inv.within p v).0) in
            let (u, e') = inv.last_entered (c j) ne in
            let (r, le) =
              inv.ref_next p (s.last_index (c j)) v u (e ∙ ap c f ∙ sym e') (omega (arith, top)) in
            rw (entered-ref_old p (inr z)) (r, omega (arith, (inv.within _ u).1))
    entered-ref_next p q (inr f) (inl w) e lt = absurd (omega (arith, (inv.within q w).1))
    entered-ref_next p q (inr f) (inr g) e lt = absurd (omega arith)

    pub entered-Linked : Linked c (Added j) (j + 1) (entered j)
    entered-Linked = record {
      within = within;
      last_entered = entered-last_entered;
      last_max = entered-last_max;
      ref_entered = entered-ref_entered;
      ref_next = entered-ref_next;
    }
      where
        within : (q : ℕ) → Added j q → (0 < q) × (q < j + 1)
        within q (inl v) = let (p, l) = inv.within q v in (p, omega arith)
        within q (inr e) = (omega arith, omega arith)

-- Both arrays are clear before the first position is entered.
pub zeros-Linked :
    (c : ℕ → ℕ) (b : ℕ)
    → Linked c (λ q. ⊥) b (record { last_index = zeros; forward_reference = zeros })
zeros-Linked c b = record {
  within = λ q v. absurd v;
  last_entered = λ h ne. absurd (ne refl);
  last_max = λ q v. absurd v;
  ref_entered = λ p ne. absurd (ne refl);
  ref_next = λ p q v. absurd v;
}
