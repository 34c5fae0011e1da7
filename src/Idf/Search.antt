-- ===== src/Idf/Search.antt =====
-- `idf_in_list` finds every keyword of a sorted list.
use run_server.Base.{
  ℕ, zero, suc, ◌+◌, ◌-◌, ◌/◌, ◌≤◌, ◌<◌, ◌≡◌, ◌≢◌, inl, inr, refl, sym, ap, ◌∙◌, subst, true, false,
  List, [], ◌∷◌, some, ltb, Bool-cases, length, get_elem?, get_elem?-some, get_elem?-lt, some_inv,
  arith,
}
use native.Mathlib.Decide.{ℕ_discrete, dec_lt}
use run_server.Idf.{Idf, str_gt, str_eq, search, idf_in_list}

str_eq_sound : (a b : List ℕ) → str_eq a b ≡ true → a ≡ b
unfolding str_eq
str_eq_sound [] [] e = refl
str_eq_sound [] (y ∷ b) e = cc
str_eq_sound (x ∷ a) [] e = cc
str_eq_sound (x ∷ a) (y ∷ b) e = ground (arith, str_eq_sound a b)

str_eq_refl : (a : List ℕ) → str_eq a a ≡ true
unfolding str_eq
str_eq_refl [] = refl
str_eq_refl (x ∷ a) = ground (arith, str_eq_refl a)

-- `strcmp` orders the strings.
str_gt_irrefl : (a : List ℕ) → str_gt a a ≡ false
unfolding str_gt
str_gt_irrefl [] = refl
str_gt_irrefl (x ∷ a) = ground (arith, str_gt_irrefl a)

str_gt_trans : (a b c : List ℕ) → str_gt a b ≡ true → str_gt b c ≡ true → str_gt a c ≡ true
unfolding str_gt
str_gt_trans [] b c e f = cc
str_gt_trans (x ∷ a) [] c e f = cc
str_gt_trans (x ∷ a) (y ∷ b) [] e f = refl
str_gt_trans (x ∷ a) (y ∷ b) (z ∷ c) e f = ground (arith, str_gt_trans a b c)

-- The keywords ascend strictly.
abbrev pub IsSorted : List Idf → Type 0
IsSorted list =
    (i j : ℕ) (d e : Idf)
    → i < j
    → get_elem? list i ≡ some d
    → get_elem? list j ≡ some e
    → str_gt e.id_tag d.id_tag ≡ true

module _ (str : List ℕ) (list : List Idf) (sorted : IsSorted list) where
  -- All keywords before `first` are smaller, and the one at `last` is not, unless it is the end.
  record Bracket (first last : ℕ) : Type 0 where
    order : first ≤ last
    inside : last < length list
    below : (i : ℕ) (d : Idf) → i < first → get_elem? list i ≡ some d → str_gt str d.id_tag ≡ true
    above : (i : ℕ) (d : Idf) → last < i → get_elem? list i ≡ some d → str ≢ d.id_tag

  raise :
      (first last middle : ℕ) (e : Idf)
      → Bracket first last
      → middle < last
      → get_elem? list middle ≡ some e
      → str_gt str e.id_tag ≡ true
      → Bracket (middle + 1) last
  raise first last middle e b lt at gt = record {
    order = omega arith;
    inside = b.inside;
    below = λ i d l f. elim (ℕ_discrete i middle) [
      | yes same ↦
          let equal : e ≡ d = some_inv (sym at ∙ subst (λ k. get_elem? list k ≡ some d) same f) in
          subst (λ (x : Idf). str_gt str x.id_tag ≡ true) equal gt
      | no other ↦ str_gt_trans str e.id_tag d.id_tag gt (sorted i middle d e (omega arith) f at)
    ];
    above = b.above;
  }

  lower :
      (first last middle : ℕ) (e : Idf)
      → Bracket first last
      → first ≤ middle
      → middle < last
      → get_elem? list middle ≡ some e
      → str_gt str e.id_tag ≡ false
      → Bracket first middle
  lower first last middle e b le lt at gt = record {
    order = le;
    inside = omega (arith, b.inside);
    below = b.below;
    above = λ i d l f same. cc (sorted middle i e d l at f, ap (λ s. str_gt s e.id_tag) same);
  }

  search-Bracket :
      (fuel first last : ℕ)
      → Bracket first last
      → last < first + fuel
      → (k : ℕ) × (search fuel str list first last ≡ some k) × Bracket k k
  unfolding search
  search-Bracket zero first last b enough = absurd (omega (arith, b.order))
  search-Bracket (suc fuel) first last b enough = elim (Bool-cases (ltb first last)) [
    | inr e ↦
        let same : last ≡ first = ground (arith, b.order) in
        (first, rw e refl, subst (Bracket first) same b)
    | inl e ↦
        let lt : first < last = ground arith in
        let (x, at) = get_elem?-some list ((first + last) / 2) (omega (arith, b.inside)) in
        elim (Bool-cases (str_gt str x.id_tag)) [
          | inl gt ↦
              let (k, f, c) =
                search-Bracket fuel ((first + last) / 2 + 1) last
                  (raise first last _ x b (omega arith) at gt) (omega arith) in
              (k, rw (e, at, gt) f, c)
          | inr gt ↦
              let (k, f, c) =
                search-Bracket fuel first ((first + last) / 2)
                  (lower first last _ x b (omega arith) (omega arith) at gt) (omega arith) in
              (k, rw (e, at, gt) f, c)
        ]
  ]

  start : 0 < length list → Bracket 0 (length list - 1)
  start pos = record {
    order = omega arith;
    inside = omega arith;
    below = λ i d l f. absurd (omega arith);
    above = λ i d l f. absurd (omega (arith, get_elem?-lt list i f));
  }

  -- Only the entry where the search ends can be the keyword.
  only_there :
      (k : ℕ) (x : Idf)
      → Bracket k k
      → get_elem? list k ≡ some x
      → (i : ℕ) (d : Idf) → get_elem? list i ≡ some d
      → str ≡ d.id_tag
      → x ≡ d
  only_there k x b at i d f same = elim (dec_lt i k) [
    | yes before ↦
        cc (b.below i d before f, ap (λ s. str_gt s d.id_tag) same, str_gt_irrefl d.id_tag)
    | no ge ↦ elim (dec_lt k i) [
      | yes after ↦ absurd (b.above i d after f same)
      | no le ↦
          let here : i ≡ k = omega arith in
          some_inv (sym at ∙ subst (λ j. get_elem? list j ≡ some d) here f)
    ]
  ]

  -- For a list with an entry whose keywords ascend strictly, the search of idf_in_list ends without a
  -- read out of bounds. The result is the token of the entry whose keyword the string is, and the
  -- default token if the string is the keyword of no entry.
  pub idf_in_list_lem :
      (default_token : ℕ)
      → 0 < length list
      → (r : ℕ) × (idf_in_list str list (length list) default_token ≡ some r)
        × ((i : ℕ) (d : Idf) → get_elem? list i ≡ some d → str ≡ d.id_tag → r ≡ d.id_tr)
        × (((i : ℕ) (d : Idf) → get_elem? list i ≡ some d → str ≢ d.id_tag) → r ≡ default_token)
  unfolding idf_in_list
  idf_in_list_lem default_token pos =
      let (k, e, b) =
        search-Bracket (suc (length list)) 0 (length list - 1) (start pos) (omega arith) in
      let (x, at) = get_elem?-some list k b.inside in
      elim (Bool-cases (str_eq str x.id_tag)) [
        | inl same ↦ (
          x.id_tr,
          rw (e, idf_in_list) (rw at (rw same refl)),
          λ i d f q. ap (λ (y : Idf). y.id_tr) (only_there k x b at i d f q),
          λ none_there. absurd (none_there k x at (str_eq_sound _ _ same)),
        )
        | inr other ↦ (
          default_token,
          rw (e, idf_in_list) (rw at (rw other refl)),
          λ i d f q. absurd (
              differs x other (q ∙ ap (λ (y : Idf). y.id_tag) (sym (only_there k x b at i d f q)))),
          λ _. refl,
        )
      ]
    where
      differs : (x : Idf) → str_eq str x.id_tag ≡ false → str ≢ x.id_tag
      differs x other q = cc (other, ap (str_eq str) (sym q), str_eq_refl str)
