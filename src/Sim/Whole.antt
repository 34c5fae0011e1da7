-- ===== src/Sim/Whole.antt =====
-- The passes over the files, one after another.
use mathlib.Core.Option.{some-ne-none}
use run_server.Base.{
  ℕ, zero, suc, ◌+◌, ◌-◌, ◌^◌, ◌≤◌, ◌<◌, ◌≡◌, inl, inr, sym, ap, subst, ◌∙◌, Bool, true, List, [],
  ◌∷◌, Option, some, some_inv, Bool-cases, Option-cases, get_elem?, length, >>=-some,
}
use run_server.Text.{Text, Position, Ordered}
use run_server.Language.{Language}
use run_server.Newlines.{open_text, read_tokens}
use run_server.Pass1.{Argument, Pass, is_new_old_separator, read_file, read_files, read_input_files}
use run_server.Pass1.Descriptors.{n_tokens_of, read_input_files-Ordered}
use run_server.Hash.TableSize.{largest_prime}
use run_server.Hash.Chains.{make_forward_references-IsBuilt}
use run_server.Compare.{CompareOptions}
use run_server.AddRun.{Places}
use run_server.AddRun.Positions.{AllInside, IsPlaced, SameTexts}
use run_server.AddRun.Compared.{place_run, compare_files-IsPlaced}
use run_server.Sim.{Machine, read_and_compare_files}

-- No text has a position yet.
abbrev Fresh : List Text → Type 0
Fresh [] = Unit
Fresh (t ∷ ts) = (t.tx_pos ≡ []) × Fresh ts

module _ (try_realloc try_array : ℕ → Bool) (memory : ℕ → Text) where
  read_file_fresh :
      (n : ℕ) (arg : Argument) (s s' : Pass) (t : Text)
      → read_file try_realloc try_array memory n arg s ≡ some (t, s')
      → t.tx_pos ≡ []
  unfolding read_file
  read_file_fresh n arg s s' t e = elim (Bool-cases (is_new_old_separator arg.characters)) [
    | inl b ↦ sym (ap (λ (p : Text × Pass). p.0.tx_pos) (some_inv (rw (b, read_file) at e)))
    | inr b ↦
        elim (Option-cases
          (read_tokens try_realloc try_array arg.lexemes (open_text (s.lex, s.buff)) s.array)) [
            | inl z ↦ absurd (some-ne-none _ (sym (rw (b, z, read_file) at e)))
            | inr (r, z) ↦
                sym (ap (λ (p : Text × Pass). p.0.tx_pos) (some_inv (rw (b, z, read_file) at e)))
          ]
  ]

  read_files-Fresh :
      (n : ℕ) (args : List Argument) (s s' : Pass) (texts : List Text)
      → read_files try_realloc try_array memory n args s ≡ some (texts, s')
      → Fresh texts
  unfolding read_files
  read_files-Fresh n [] s s' texts e =
      subst Fresh (ap (λ (p : List Text × Pass). p.0) (some_inv e)) tt
  read_files-Fresh n (arg ∷ args) s s' texts e =
      elim (Option-cases (read_file try_realloc try_array memory n arg s)) [
        | inl z ↦ absurd (some-ne-none _ (sym (rw (z, read_files) at e)))
        | inr ((t, s1), z) ↦
            elim (Option-cases (read_files try_realloc try_array memory (n + 1) args s1)) [
              | inl y ↦ absurd (some-ne-none _ (sym (rw y at (rw (z, read_files) at e))))
              | inr ((ts, s2), y) ↦
                  let same = some_inv (rw y at (rw (z, read_files) at e)) in
                  subst Fresh (ap (λ (p : List Text × Pass). p.0) same)
                    (read_file_fresh n arg s s1 t z, read_files-Fresh (n + 1) args s1 s2 ts y)
            ]
      ]

Fresh-AllInside :
    (positions : ℕ → Position) (n : ℕ) (texts : List Text) (k : ℕ) (t : Text)
    → Fresh texts
    → get_elem? texts k ≡ some t
    → (size : ℕ) → AllInside positions n size t.tx_pos
Fresh-AllInside positions n [] k t f e size = absurd (some-ne-none _ (sym e))
Fresh-AllInside positions n (u ∷ ts) zero t f e size =
    let empty : t.tx_pos ≡ [] = sym (ap (λ (x : Text). x.tx_pos) (some_inv e)) ∙ f.0 in
    subst (AllInside positions n size) (sym empty) tt
Fresh-AllInside positions n (u ∷ ts) (suc k) t f e size =
    Fresh-AllInside positions n ts k t f.1 e size

-- The texts as they have been read, without a position.
abbrev pub first_places : (ℕ → Position) → List Text → Option Places
first_places positions texts =
    some (record { texts = texts; positions = positions; n_positions = 0 })

pass_eq :
    {texts texts' : List Text} {s s' : Pass}
    → ◌≡◌ {A = Option (List Text × Pass)} (some (texts, s)) (some (texts', s'))
    → (texts ≡ texts') × (s ≡ s')
pass_eq e = (
  ap (λ (p : List Text × Pass). p.0) (some_inv e),
  ap (λ (p : List Text × Pass). p.1) (some_inv e),
)

module _ (m : Machine) (args : List Argument) (positions : ℕ → Position)
    (granted : (size : ℕ) → size < 2 ^ 63 → m.try_array size ≡ true)
    (small : n_tokens_of args < 2 ^ 61) where
  -- What the three passes need of the first.
  read-Ordered :
      (texts : List Text) (s : Pass)
      → read_input_files m.try_realloc m.try_array m.memory m.tokens m.lex m.last_tk_cnt args
        ≡ some (texts, s)
      → Ordered 1 texts s.array.tk_free
        × (length texts ≡ length args)
        × (s.number_of_new_texts ≤ length texts)
  read-Ordered texts s e =
      let (texts', s', e', ordered, len, new) =
        read_input_files-Ordered m.try_realloc m.try_array m.memory granted m.tokens m.lex
          m.last_tk_cnt args small in
      let (t_eq, s_eq) = pass_eq (sym e' ∙ e) in
      (
        subst (λ ts. Ordered 1 ts s.array.tk_free) t_eq
            (subst (λ (p : Pass). Ordered 1 texts' p.array.tk_free) s_eq ordered),
        ap (length {0}) (sym t_eq) ∙ len,
        subst (λ ts. s.number_of_new_texts ≤ length {0} ts) t_eq
            (subst (λ (p : Pass). p.number_of_new_texts ≤ length texts') s_eq new),
      )

  -- Let the memory for the tokens be granted, and some for the hash table, and let the files have less
  -- than 2 ^ 61 tokens together, which are read into an array no longer than the largest table.
  -- Then, for a minimum run size that is not 0, read_and_compare_files ends without a fatal error,
  -- and all positions that it has stored are of tokens of the texts on whose lists they are.
  pub read_and_compare_files-IsPlaced :
      (lang : Language) (min_run_size : ℕ) (o : CompareOptions) (texts : List Text) (s : Pass)
      → 0 < min_run_size
      → m.try_calloc 14051 ≡ true
      → read_input_files m.try_realloc m.try_array m.memory m.tokens m.lex m.last_tk_cnt args
        ≡ some (texts, s)
      → s.array.tk_free ≤ largest_prime
      → (places : Places) × (read_and_compare_files place_run
            (first_places positions)
            m
            lang
            min_run_size
            o
            args
          ≡ some (some places))
        × IsPlaced places
        × SameTexts (record { texts = texts; positions = positions; n_positions = 0 }) places
  unfolding read_and_compare_files read_input_files
  read_and_compare_files-IsPlaced lang min_run_size o texts s pm calloc e bound =
      let (ordered, len, new) = read-Ordered texts s e in
      let (table, built_eq, built) =
        make_forward_references-IsBuilt min_run_size s.array.token_array s.array.tk_free
          lang.may_be_start_of_run m.try_calloc texts pm ordered calloc bound in
      let fresh = read_files-Fresh m.try_realloc m.try_array m.memory 0 args _ s texts e in
      let first : Places = record { texts = texts; positions = positions; n_positions = 0 } in
      let (places, compared, placed, kept) =
        compare_files-IsPlaced lang min_run_size s.array.token_array s.array.tk_free table first pm
          ordered built o s.number_of_new_texts new
          (λ k t at. Fresh-AllInside positions 0 texts k t fresh at (t.tx_limit - t.tx_start)) in
      (places, >>=-some _ _ _ e ∙ >>=-some _ _ _ built_eq ∙ compared, placed, kept)
