-- ===== src/Compare/Files.antt =====
-- `Compare_Files`: the runs that are entered, whatever the options.
use run_server.Base.{
  ℕ, zero, suc, ◌+◌, ◌-◌, ◌≤◌, ◌<◌, ◌≡◌, inl, inr, refl, subst, true, List, some, ltb, Bool-cases,
  get_elem?, get_elem?-some, length, arith,
}
use run_server.Text.{Text, Ordered}
use run_server.Language.{Language}
use run_server.Hash.Chains.{IsBuilt}
use run_server.Compare.{
  Best, CompareOptions, compare_one_text, compare_each, first_text, compare_text,
  compare_files_from, compare_files,
}
use run_server.Compare.Texts.{index_at-text, le-index_at}
use run_server.Compare.Covers.{Covers, Sound, stop, skip, enter, compare_one_text-Covers}

-- What holds of each run that is reported: the arguments are those of `add_run`.
pub record Reported (m : ℕ) (token_array : ℕ → ℕ) (texts : List Text) (k i0 b i_b size : ℕ)
    : Type 0 where
  pub long : m ≤ size
  pub in_first :
      (t : Text) × (get_elem? texts k ≡ some t) × (t.tx_start ≤ i0) × (i0 + size ≤ t.tx_limit)
  pub in_second :
      (t : Text) × (get_elem? texts b ≡ some t) × (t.tx_start ≤ i_b) × (i_b + size ≤ t.tx_limit)
  pub equal : (d : ℕ) → d < size → token_array (i0 + d) ≡ token_array (i_b + d)
  pub apart : i0 + size ≤ i_b

-- The options let new text `k` of `new` new texts be compared to text `b`.
abbrev pub IsAllowed : CompareOptions → ℕ → ℕ → ℕ → Type 0
IsAllowed o new k b = (k ≤ b) × (o.old_only ≡ true → new < b) × (o.not_self ≡ true → k < b)

first_text-IsAllowed :
    (o : CompareOptions) (new k b : ℕ) → k < new → first_text o new k ≤ b → IsAllowed o new k b
unfolding first_text
first_text-IsAllowed o new k b lt le = ground arith

module _ {ℓ} {State : Type ℓ} (add_run : ℕ → ℕ → ℕ → ℕ → ℕ → State → State) (lang : Language)
    (m : ℕ) (token_array : ℕ → ℕ) (n : ℕ) (table : ℕ → ℕ) (texts : List Text) (pm : 0 < m)
    (ordered : Ordered 1 texts n)
    (built : IsBuilt m token_array n lang.may_be_start_of_run texts table) where
  module _ (P : State → Type ℓ) (first k : ℕ)
      (keep : (i0 b i_b size : ℕ) (s : State)
        → first ≤ b
        → Reported m token_array texts k i0 b i_b size
        → P s
        → P (add_run k i0 b i_b size s)) where
    module _ (f : ℕ) (le : first ≤ f) {txt0 txt_first : Text} (i_limit : ℕ)
        (at : get_elem? texts k ≡ some txt0) (at_first : get_elem? texts f ≡ some txt_first) where
      Sound-Reported :
          (i0 : ℕ) (best : Best)
          → txt0.tx_start ≤ i0
          → Sound add_run lang m token_array n table texts pm ordered built k txt0.tx_limit
              txt_first.tx_start i_limit i0 best
          → (first ≤ best.tx_b)
            × Reported m token_array texts k i0 best.tx_b best.i_b best.size_best
      Sound-Reported i0 best from s =
          let (t, e, l, r) = index_at-text m 1 n best.i_b texts pm ordered s.fits in
          (
            omega (arith, s.text, le-index_at texts f 1 n best.i_b ordered at_first s.from),
            record {
              long = s.long;
              in_first = (txt0, at, from, s.matches.inside0);
              in_second = (t, rw s.text e, l, rw r s.matches.inside1);
              equal = s.matches.equal;
              apart = s.matches.apart;
            },
          )

      Covers-keeps :
          (s' : State) (i0 : ℕ) (s : State)
          → txt0.tx_start ≤ i0
          → Covers add_run lang m token_array n table texts pm ordered built k txt0.tx_limit
              txt_first.tx_start i_limit s' i0 s
          → P s
          → P s'
      Covers-keeps s' i0 s from (stop _ _ _ e) p = subst P e p
      Covers-keeps s' i0 s from (skip _ _ _ _ _ c) p = Covers-keeps s' (i0 + 1) s (omega arith) c p
      Covers-keeps s' i0 s from (enter _ _ best sound _ c) p =
          Covers-keeps s' (i0 + best.size_best) _ (omega arith) c (
            let (compared, reported) = Sound-Reported i0 best from sound in
            keep i0 best.tx_b best.i_b best.size_best s compared reported p)

    compare_one_text-keeps :
        (f limit : ℕ) (s : State)
        → k < length texts
        → first ≤ f
        → f < limit
        → limit ≤ length texts
        → P s
        → (s' : State) × (compare_one_text add_run lang m token_array n table texts k f limit s
            ≡ some s')
          × P s'
    compare_one_text-keeps f limit s lk le lf ll p =
        let (txt0, at) = get_elem?-some texts k lk in
        let (txt_first, at_first) = get_elem?-some texts f (omega arith) in
        let (txt_last, at_last) = get_elem?-some texts (limit - 1) (omega arith) in
        let (s', e, c) =
          compare_one_text-Covers add_run lang m token_array n table texts pm ordered built k f
            limit s at at_first at_last in
        (
          s',
          e,
          Covers-keeps f le txt_last.tx_limit at at_first s' txt0.tx_start s (omega arith) c p,
        )

    compare_each-keeps :
        (rounds f : ℕ) (s : State)
        → k < length texts
        → first ≤ f
        → rounds ≡ length texts - f
        → P s
        → (s' : State) × (compare_each add_run lang m token_array n table texts rounds k f s
            ≡ some s')
          × P s'
    unfolding compare_each
    compare_each-keeps zero f s lk le e p = (s, refl, p)
    compare_each-keeps (suc rounds) f s lk le e p =
        let (s1, e1, p1) = compare_one_text-keeps f (f + 1) s lk le (omega arith) (omega arith) p in
        let (s2, e2, p2) = compare_each-keeps rounds (f + 1) s1 lk (omega arith) (omega arith) p1 in
        (s2, rw e1 e2, p2)

  module _ (o : CompareOptions) (new : ℕ) (P : State → Type ℓ)
      (keep : (k i0 b i_b size : ℕ) (s : State)
        → k < new
        → IsAllowed o new k b
        → Reported m token_array texts k i0 b i_b size
        → P s
        → P (add_run k i0 b i_b size s))
      (le_new : new ≤ length texts) where
    compare_text-keeps :
        (k : ℕ) (s : State)
        → k < new
        → P s
        → (s' : State) × (compare_text add_run lang m token_array n table texts o new k s ≡ some s')
          × P s'
    unfolding compare_text
    compare_text-keeps k s lk p = elim (Bool-cases o.each) [
      | inl e ↦
          let (s', e', p') =
            compare_each-keeps P first k kept _ first s (omega arith) (omega arith) refl p in
          (s', simp e e', p')
      | inr e ↦ elim (Bool-cases (ltb first (length texts))) [
        | inl l ↦
            let (s', e', p') =
              compare_one_text-keeps P first k kept first (length texts) s (omega arith)
                (omega arith) (ground arith) (omega arith) p in
            (s', simp (e, l) e', p')
        | inr l ↦ (s, simp (e, l) refl, p)
      ]
    ]
      where
        first : ℕ
        first = first_text o new k

        kept :
            (i0 b i_b size : ℕ) (t : State)
            → first ≤ b
            → Reported m token_array texts k i0 b i_b size
            → P t
            → P (add_run k i0 b i_b size t)
        kept i0 b i_b size t le = keep k i0 b i_b size t lk (first_text-IsAllowed o new k b lk le)

    compare_files_from-keeps :
        (rounds k : ℕ) (s : State)
        → k + rounds ≡ new
        → P s
        → (s' : State) × (compare_files_from add_run lang m token_array n table texts o new rounds k
              s
            ≡ some s')
          × P s'
    unfolding compare_files_from
    compare_files_from-keeps zero k s e p = (s, refl, p)
    compare_files_from-keeps (suc rounds) k s e p =
        let (s1, e1, p1) = compare_text-keeps k s (omega arith) p in
        let (s2, e2, p2) = compare_files_from-keeps rounds (k + 1) s1 (omega arith) p1 in
        (s2, rw e1 e2, p2)

    -- With such a table and no more new texts than texts, Compare_Files ends without a fatal error or
    -- an access out of bounds, under any options. A property of the state of add_run holds at the end
    -- if it holds at the start and every call keeps it whose run is as follows: at least Min_Run_Size
    -- tokens, equal and not overlapping, inside a new text k and inside a text b that is not in front
    -- of k, behind the new texts and one more under the option -S, and not k under the option -s.
    pub compare_files-keeps :
        (s : State)
        → P s
        → (s' : State) × (compare_files add_run lang m token_array n table texts o new s ≡ some s')
          × P s'
    unfolding compare_files
    compare_files-keeps s p = compare_files_from-keeps new 0 s (omega arith) p
