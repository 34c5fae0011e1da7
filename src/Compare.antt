-- ===== src/Compare.antt =====
-- sim/sim_2_89/compare.c: each new text is compared to the appropriate texts, from each of its
-- positions, for the longest run in common. Token_EQ compares the numbers of two tokens.
pub mod Match
pub mod Texts
pub mod Lcs
pub mod Search
pub mod Covers
pub mod Files
use run_server.Base.{
  ℕ, zero, suc, ◌+◌, ◌-◌, Bool, List, [], ◌∷◌, Option, none, some, ltb, leb, ◌&&◌, ◌||◌, ◌==◌,
  if◌then◌else◌, ◌>>=◌, true, false, get_elem?, drop, length,
}
use run_server.Text.{Text}
use run_server.Language.{Language}
use run_server.Hash.{tokens_at, forward_reference_at}

-- A pointer into the array `Text[]`: the index of the text, and the texts from there on.
pub record Cursor : Type 0 where
  pub index : ℕ
  pub rest : List Text

-- The variables `size_best`, `*tx_bp` (as an index of `Text[]`) and `*i_bp` of `lcs`.
pub record Best : Type 0 where
  pub size_best : ℕ
  pub tx_b : ℕ
  pub i_b : ℕ

-- `while (i1 >= txt1->tx_limit) txt1++`: the limit of the text where the loop stops, and the
-- pointer; `none` is a step past the last text.
unfoldable pub bump : ℕ → ℕ → List Text → Option (ℕ × Cursor)
bump i1 index [] = none
bump i1 index (t ∷ ts) =
    if leb t.tx_limit i1
    then bump i1 (index + 1) ts
    else some (t.tx_limit, record { index = index; rest = t ∷ ts })

module _ (token_array : ℕ → ℕ) where
  -- The loop "comparing backwards", which returns the `cnt` that is left.
  unfoldable pub match_back : ℕ → ℕ → ℕ → ℕ
  match_back zero j0 j1 = 0
  match_back (suc cnt) j0 j1 =
      if token_array j0 == token_array j1 then match_back cnt (j0 - 1) (j1 - 1) else suc cnt

  -- The loop "extending forwards", on fuel, inside the limits of the two texts.
  unfoldable pub extend : ℕ → ℕ → ℕ → ℕ → ℕ → ℕ → ℕ
  extend zero limit0 limit1 j0 j1 new_size = new_size
  extend (suc fuel) limit0 limit1 j0 j1 new_size =
      let rest = extend fuel limit0 limit1 (j0 + 1) (j1 + 1) (new_size + 1) in
      if ltb j0 limit0
        && (ltb j1 limit1 && (ltb (j0 + new_size) j1 && (token_array j0 == token_array j1)))
      then rest
      else new_size

  -- The test that `j0` and `j1`, the ends of the two runs, lie inside their texts and do not
  -- overlap, and that the runs match.
  unfoldable pub is_match : ℕ → ℕ → ℕ → ℕ → ℕ → Bool
  is_match limit0 limit1 i0 i1 min_size =
      let j0 = i0 + min_size - 1 in
      let j1 = i1 + min_size - 1 in
      ltb j0 limit0
      && (ltb j1 limit1 && (leb (j0 + min_size) j1 && (match_back min_size j0 j1 == 0)))

module _ (lang : Language) (min_run_size : ℕ) (token_array : ℕ → ℕ) where
  open lang use {may_be_start_of_run, best_run_size}

  -- What the language accepts of a run of `size` tokens from `i0` on.
  unfoldable pub accepted : ℕ → ℕ → ℕ
  accepted i0 size =
      if may_be_start_of_run (token_array i0)
      then best_run_size (tokens_at token_array i0) size
      else 0

  -- The run of `new_size` tokens at `i1` is offered to the language, and recorded if it is better.
  unfoldable pub offer : ℕ → ℕ → ℕ → ℕ → Best → Best
  offer i0 i1 index new_size best =
      let new_size' = accepted i0 new_size in
      if leb min_run_size new_size' && ltb best.size_best new_size'
      then record { size_best = new_size'; tx_b = index; i_b = i1 }
      else best

  -- The size that a run must have to be looked at.
  unfoldable pub min_size : Best → ℕ
  min_size best = if best.size_best == 0 then min_run_size else best.size_best + 1

  -- The body of the loop of `lcs` for a position in range.
  unfoldable pub examine : ℕ → ℕ → ℕ → Cursor → Best → Option (Cursor × Best)
  examine limit0 i0 i1 txt1 best = elim (bump i1 txt1.index txt1.rest) [
    | none ↦ none
    | some (limit1, txt1') ↦
        let size = min_size best in
        let new_size = extend token_array limit0 limit0 limit1 (i0 + size) (i1 + size) size in
        some (
          txt1',
          if is_match token_array limit0 limit1 i0 i1 size
              then offer i0 i1 txt1'.index new_size best
              else best,
        )
  ]

  module _ (n : ℕ) (table : ℕ → ℕ) where
    -- The loop of `lcs`, on fuel: it follows the forward references from `i1`. `none` is an access
    -- out of range, or a call of `fatal`, or the want of fuel.
    unfoldable pub lcs_from : ℕ → ℕ → ℕ → ℕ → ℕ → ℕ → Cursor → Best → Option Best
    lcs_from zero limit0 i0 i_first i_limit i1 txt1 best = none
    lcs_from (suc fuel) limit0 i0 i_first i_limit i1 txt1 best =
        let seen = if ltb i1 i_first then some (txt1, best) else examine limit0 i0 i1 txt1 best in
        let rest : Option Best = elim seen [
          | none ↦ none
          | some (txt1', best') ↦ elim (forward_reference_at n table i1) [
            | none ↦ none
            | some i1' ↦ lcs_from fuel limit0 i0 i_first i_limit i1' txt1' best'
          ]
        ] in
        if i1 == 0 || leb i_limit i1 then some best else rest

    -- `lcs`: `txt0` is the pointer to the text of `i0`.
    unfoldable pub lcs : Cursor → ℕ → ℕ → ℕ → ℕ → Option Best
    lcs txt0 limit0 i0 i_first i_limit =
        lcs_from n limit0 i0 i_first i_limit i0 txt0 (record { size_best = 0; tx_b = 0; i_b = 0 })

-- The options that steer `Compare_Files`.
pub record CompareOptions : Type 0 where
  pub old_only : Bool
  pub not_self : Bool
  pub each : Bool

-- The first text to which text `k` is compared.
unfoldable pub first_text : CompareOptions → ℕ → ℕ → ℕ
first_text o number_of_new_texts k =
    if o.old_only then number_of_new_texts + 1 else if o.not_self then k + 1 else k

-- The callback `add_run(txt0, i0, txt_best, i_best, size_best)` over a state; a text is given by
-- its index.
module _ {ℓ} {State : Type ℓ} (add_run : ℕ → ℕ → ℕ → ℕ → ℕ → State → State) (lang : Language)
    (min_run_size : ℕ) (token_array : ℕ → ℕ) (n : ℕ) (table : ℕ → ℕ) (texts : List Text) where
  -- The loop of `compare_one_text` over the positions of text `k`, on fuel.
  unfoldable pub compare_from : ℕ → ℕ → ℕ → ℕ → ℕ → ℕ → State → Option State
  compare_from zero k limit0 i_first i_limit i0 s = none
  compare_from (suc fuel) k limit0 i_first i_limit i0 s =
      let rest : Option State =
        elim (lcs lang min_run_size token_array n table (record { index = k; rest = drop k texts })
          limit0 i0 i_first i_limit) [
            | none ↦ none
            | some best ↦ elim (best.size_best == 0) [
              | true ↦ compare_from fuel k limit0 i_first i_limit (i0 + 1) s
              | false ↦
                  compare_from fuel k limit0 i_first i_limit (i0 + best.size_best)
                    (add_run k i0 best.tx_b best.i_b best.size_best s)
            ]
          ] in
      if leb (i0 + min_run_size) limit0 then rest else some s

  -- `compare_one_text(k, first, limit)`; the fuel is one more than the rounds there can be.
  unfoldable pub compare_one_text : ℕ → ℕ → ℕ → State → Option State
  compare_one_text k first limit s = do
    txt0 ← get_elem? texts k
    txt_first ← get_elem? texts first
    txt_last ← get_elem? texts (limit - 1)
    compare_from (suc txt0.tx_limit) k txt0.tx_limit txt_first.tx_start txt_last.tx_limit
        txt0.tx_start s

  -- `for (m = first; m < Number_of_Texts; m++)`, with `rounds` rounds left.
  unfoldable pub compare_each : ℕ → ℕ → ℕ → State → Option State
  compare_each zero k m s = some s
  compare_each (suc rounds) k m s = do
    s' ← compare_one_text k m (m + 1) s
    compare_each rounds k (m + 1) s'

  -- The body of the loop of `Compare_Files`.
  unfoldable pub compare_text : CompareOptions → ℕ → ℕ → State → Option State
  compare_text o number_of_new_texts k s =
      let first = first_text o number_of_new_texts k in
      let number_of_texts = length texts in
      if o.each
      then compare_each (number_of_texts - first) k first s
      else if ltb first number_of_texts
      then compare_one_text k first number_of_texts s
      else some s

  -- The loop over the new texts, with `rounds` of them left.
  unfoldable pub compare_files_from : CompareOptions → ℕ → ℕ → ℕ → State → Option State
  compare_files_from o number_of_new_texts zero k s = some s
  compare_files_from o number_of_new_texts (suc rounds) k s = do
    s' ← compare_text o number_of_new_texts k s
    compare_files_from o number_of_new_texts rounds (k + 1) s'

  unfoldable pub compare_files : CompareOptions → ℕ → State → Option State
  compare_files o number_of_new_texts s =
      compare_files_from o number_of_new_texts number_of_new_texts 0 s
