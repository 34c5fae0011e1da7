-- ===== src/AddRun/Compared.antt =====
-- The positions after Compare_Files, which calls add_run.
use run_server.Base.{ℕ, ◌≤◌, ◌<◌, ◌≡◌, refl, ◌∙◌, Option, none, some, length, arith}
use run_server.Text.{Ordered}
use run_server.Language.{Language}
use run_server.Hash.Chains.{IsBuilt}
use run_server.Compare.{CompareOptions, compare_files}
use run_server.Compare.Files.{Reported, compare_files-keeps}
use run_server.AddRun.{Places, make_run}
use run_server.AddRun.Positions.{IsPlaced, SameTexts, make_run-IsPlaced}

-- `add_run` as Compare_Files calls it, for the positions that it sets.
abbrev pub place_run : ℕ → ℕ → ℕ → ℕ → ℕ → Option Places → Option Places
place_run k i0 b i_b size none = none
place_run k i0 b i_b size (some s) = elim (make_run k i0 b i_b size s) [
  | none ↦ none
  | some (run, s') ↦ some s'
]

-- From the first places on the texts have not moved, and all positions lie in their texts.
abbrev ArePlaced : Places → Option Places → Type 0
ArePlaced first o = (s : Places) × (o ≡ some s) × IsPlaced s × SameTexts first s

place_run-ArePlaced :
    (m : ℕ) (token_array : ℕ → ℕ) (first : Places) (k i0 b i_b size : ℕ) (o : Option Places)
    → 0 < m
    → Reported m token_array first.texts k i0 b i_b size
    → ArePlaced first o
    → ArePlaced first (place_run k i0 b i_b size o)
place_run-ArePlaced m token_array first k i0 b i_b size o pm r (s, e, placed, same) =
    let (t0, at0, from0, to0) = r.in_first in
    let (t1, at1, from1, to1) = r.in_second in
    let (u0, f0, starts0, limits0) = same k t0 at0 in
    let (u1, f1, starts1, limits1) = same b t1 at1 in
    let (run, s', made, placed', same') =
      make_run-IsPlaced k i0 b i_b size s u0 u1 placed f0 f1 (omega (arith, r.long, pm))
        (omega (arith, from0, starts0)) (omega (arith, to0, limits0))
        (omega (arith, from1, starts1)) (omega (arith, to1, limits1)) in
    (
      s',
      rw e (rw (made, place_run) refl),
      placed',
      λ j u g.
          let (v, h, a, c) = same j u g in
          let (w, h', a', c') = same' j v h in (w, h', a ∙ a', c ∙ c'),
    )

-- Let there be a table as Make_Forward_References builds it, no more new texts than texts, and let
-- the positions of every text be those of tokens that it has. Then Compare_Files with add_run as
-- its callback ends without a fatal error or an access out of bounds, under any options. The
-- positions of every text, with those that add_run has set, are those of tokens that the text has,
-- and no text moves in the token array.
pub compare_files-IsPlaced :
    (lang : Language) (m : ℕ) (token_array : ℕ → ℕ) (n : ℕ) (table : ℕ → ℕ) (first : Places)
    (pm : 0 < m) (ordered : Ordered 1 first.texts n)
    → IsBuilt m token_array n lang.may_be_start_of_run first.texts table
    → (o : CompareOptions) (new : ℕ) → new ≤ length first.texts
    → IsPlaced first
    → (s : Places) × (compare_files place_run lang m token_array n table first.texts o new
          (some first)
        ≡ some (some s))
      × IsPlaced s
      × SameTexts first s
compare_files-IsPlaced lang m token_array n table first pm ordered built o new le placed =
    let (o', e, (s, f, placed', same)) =
      compare_files-keeps place_run lang m token_array n table first.texts pm ordered built o new
        (ArePlaced first)
        (λ k i0 b i_b size t lt allowed r p.
          place_run-ArePlaced m token_array first k i0 b i_b size t pm r p)
        le (some first) (first, refl, placed, λ k u g. (u, g, refl, refl)) in
    (s, e ∙ rw f refl, placed', same)
