-- ===== src/AddRun/Positions.antt =====
-- Every position on the list of a text is one of a token of that text.
use run_server.Base.{
  ℕ, ◌+◌, ◌-◌, ◌≤◌, ◌<◌, ◌≡◌, refl, sym, ap, subst, ◌∙◌, List, [], ◌∷◌, some, some_inv, update,
  update_eq, update_ne, get_elem?, get_elem?-lt, get_elem?-set_self, get_elem?-set_ne, set,
  ℕ_discrete, arith,
}
use run_server.Text.{Text, Position}
use run_server.AddRun.{Chunk, Run, Places, set_pos, set_chunk, make_run}

module _ (positions : ℕ → Position) (n : ℕ) where
  -- Positions that are in use, of tokens of a text of `size` tokens.
  abbrev pub AllInside : ℕ → List ℕ → Type 0
  AllInside size [] = Unit
  AllInside size (p ∷ ps) = (p < n) × ((positions p).ps_tk_cnt < size) × AllInside size ps

-- The positions of every text are in use, and of its own tokens.
abbrev pub IsPlaced : Places → Type 0
IsPlaced s =
    (k : ℕ) (t : Text)
    → get_elem? s.texts k ≡ some t
    → AllInside s.positions s.n_positions (t.tx_limit - t.tx_start) t.tx_pos

-- A new position leaves the old ones as they are.
AllInside-update :
    (positions : ℕ → Position) (n size : ℕ) (v : Position) (ps : List ℕ)
    → AllInside positions n size ps
    → AllInside (update positions n v) (n + 1) size ps
AllInside-update positions n size v [] a = tt
AllInside-update positions n size v (q ∷ ps) (lt, inside, a) = (
  omega arith,
  subst (λ (x : Position). x.ps_tk_cnt < size)
      (sym (update_ne positions n q v (λ e. absurd (omega (arith, e))))) inside,
  AllInside-update positions n size v ps a,
)

-- Every text keeps its place in the token array.
abbrev pub SameTexts : Places → Places → Type 0
SameTexts s s' =
    (k : ℕ) (u : Text)
    → get_elem? s.texts k ≡ some u
    → (u' : Text) × (get_elem? s'.texts k ≡ some u')
      × (u.tx_start ≡ u'.tx_start)
      × (u.tx_limit ≡ u'.tx_limit)

set_pos-IsPlaced :
    (ps_type txt start : ℕ) (s : Places) (t : Text)
    → IsPlaced s
    → get_elem? s.texts txt ≡ some t
    → start < t.tx_limit - t.tx_start
    → (s' : Places) × (set_pos ps_type txt start s ≡ some s') × IsPlaced s' × SameTexts s s'
unfolding set_pos
set_pos-IsPlaced ps_type txt start s t placed at inside = (
  record {
    texts = set s.texts txt t';
    positions = update s.positions s.n_positions v;
    n_positions = s.n_positions + 1;
  },
  rw at refl,
  placed',
  kept,
)
  where
    t' : Text
    t' = record t { tx_pos = s.n_positions ∷ t.tx_pos }

    v : Position
    v = record { ps_type = ps_type; ps_tk_cnt = start; ps_nl_cnt = 18446744073709551615 }

    here : get_elem? (set s.texts txt t') txt ≡ some t'
    here = get_elem?-set_self s.texts txt t' (get_elem?-lt s.texts txt at)

    placed' :
        (k : ℕ) (u : Text)
        → get_elem? (set s.texts txt t') k ≡ some u
        → AllInside
            (update s.positions s.n_positions v)
            (s.n_positions + 1)
            (u.tx_limit - u.tx_start)
            u.tx_pos
    placed' k u e = elim (ℕ_discrete txt k) [
      | yes same ↦
          let now : t' ≡ u =
            some_inv
              (sym here ∙ subst (λ j. get_elem? (set s.texts txt t') j ≡ some u) (sym same) e) in
          subst
            (λ (w : Text).
              AllInside (update s.positions s.n_positions v) (s.n_positions + 1)
                (w.tx_limit - w.tx_start) w.tx_pos)
            now
            (
              omega arith,
              subst (λ (x : Position). x.ps_tk_cnt < t.tx_limit - t.tx_start)
                  (sym (update_eq s.positions s.n_positions s.n_positions v refl)) inside,
              AllInside-update s.positions s.n_positions (t.tx_limit - t.tx_start) v t.tx_pos
                  (placed txt t at),
            )
      | no other ↦
          AllInside-update s.positions s.n_positions (u.tx_limit - u.tx_start) v u.tx_pos
            (placed k u (sym (get_elem?-set_ne s.texts t' other) ∙ e))
    ]

    kept :
        (k : ℕ) (u : Text)
        → get_elem? s.texts k ≡ some u
        → (u' : Text) × (get_elem? (set s.texts txt t') k ≡ some u')
          × (u.tx_start ≡ u'.tx_start)
          × (u.tx_limit ≡ u'.tx_limit)
    kept k u e = elim (ℕ_discrete txt k) [
      | yes same ↦
          let old : u ≡ t =
            some_inv (sym (subst (λ j. get_elem? s.texts j ≡ some u) (sym same) e) ∙ at) in
          (
            t',
            subst (λ j. get_elem? (set s.texts txt t') j ≡ some t') same here,
            ap (λ (w : Text). w.tx_start) old,
            ap (λ (w : Text). w.tx_limit) old,
          )
      | no other ↦ (u, get_elem?-set_ne s.texts t' other ∙ e, refl, refl)
    ]

set_chunk-IsPlaced :
    (txt start size : ℕ) (s : Places) (t : Text)
    → IsPlaced s
    → get_elem? s.texts txt ≡ some t
    → 0 < size
    → start + size ≤ t.tx_limit - t.tx_start
    → (chunk : Chunk) × (s' : Places) × (set_chunk txt start size s ≡ some (chunk, s'))
      × IsPlaced s'
      × SameTexts s s'
unfolding set_chunk
set_chunk-IsPlaced txt start size s t placed at pos inside =
    let (s1, e1, p1, k1) = set_pos-IsPlaced 0 txt start s t placed at (omega arith) in
    let (t1, at1, starts, limits) = k1 txt t at in
    let (s2, e2, p2, k2) =
      set_pos-IsPlaced 1 txt (start + size - 1) s1 t1 p1 at1
        (omega (arith, starts, limits, inside, pos)) in
    (
      record { ch_text = txt; ch_first = s.n_positions; ch_last = s1.n_positions },
      s2,
      rw e1 (rw e2 refl),
      p2,
      λ k u e.
          let (u1, f1, starts1, limits1) = k1 k u e in
          let (u2, f2, starts2, limits2) = k2 k u1 f1 in
          (u2, f2, starts1 ∙ starts2, limits1 ∙ limits2),
    )

-- Let the positions of every text be those of tokens that it has, and a run of a token or more lie inside
-- two texts. Then add_run ends without an access out of bounds, and the positions of every text, with
-- those that it has set, are those of tokens that the text has. No text moves in the token array.
pub make_run-IsPlaced :
    (txt0 i0 txt1 i1 size : ℕ) (s : Places) (t0 t1 : Text)
    → IsPlaced s
    → get_elem? s.texts txt0 ≡ some t0
    → get_elem? s.texts txt1 ≡ some t1
    → 0 < size
    → t0.tx_start ≤ i0
    → i0 + size ≤ t0.tx_limit
    → t1.tx_start ≤ i1
    → i1 + size ≤ t1.tx_limit
    → (run : Run) × (s' : Places) × (make_run txt0 i0 txt1 i1 size s ≡ some (run, s'))
      × IsPlaced s'
      × SameTexts s s'
unfolding make_run
make_run-IsPlaced txt0 i0 txt1 i1 size s t0 t1 placed at0 at1 pos from0 to0 from1 to1 =
    let (c0, s1, e1, p1, k1) =
      set_chunk-IsPlaced txt0 (i0 - t0.tx_start) size s t0 placed at0 pos (omega arith) in
    let (u1, at1', starts, limits) = k1 txt1 t1 at1 in
    let (c1, s2, e2, p2, k2) =
      set_chunk-IsPlaced txt1 (i1 - u1.tx_start) size s1 u1 p1 at1' pos
        (omega (arith, starts, limits, from1, to1)) in
    (
      record { rn_chunk0 = c0; rn_chunk1 = c1; rn_size = size },
      s2,
      rw at0 (rw e1 (rw at1' (rw e2 refl))),
      p2,
      λ k u e.
          let (v1, f1, starts1, limits1) = k1 k u e in
          let (v2, f2, starts2, limits2) = k2 k v1 f1 in
          (v2, f2, starts1 ∙ starts2, limits1 ∙ limits2),
    )
