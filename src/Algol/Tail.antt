-- ===== src/Algol/Tail.antt =====
-- `Best_Algol_Run_Size` cuts trailing garbage off, and is a language function of the comparison.
use run_server.Base.{
  ℕ, zero, suc, ◌+◌, ◌≤◌, ◌<◌, ◌≡◌, ◌≢◌, inl, inr, sym, subst, Bool, true, false, ◌==◌, Bool-cases,
  Option-cases, if◌then◌else◌, zeros, arith,
}
use native.Mathlib.Decide.{ℕ_discrete}
use run_server.Language.{Language}
use run_server.Algol.{
  TokenSets, pos_in_set, largest_routine, remove_tail, best_algol_run_size, scan_from, open_paren,
  close_paren, register, Scan, may_be_start_of_algol_run,
}
use run_server.Algol.Balance.{open_paren_mrb, close_paren_mrb}

module _ (sets : TokenSets) (tk_array : ℕ → ℕ) where
  abbrev pub IsGarbage : ℕ → Type 0
  IsGarbage j = pos_in_set sets.non_finals (tk_array j) ≢ 0

  -- The longest beginning of a run of `size` tokens whose last token may end a run.
  pub record IsTrimmed (size r : ℕ) : Type 0 where
    pub le : r ≤ size
    pub garbage : (j : ℕ) → r ≤ j → j < size → IsGarbage j
    pub last : (j : ℕ) → r ≡ suc j → ¬ IsGarbage j

  remove_tail-IsTrimmed : (size : ℕ) → IsTrimmed size (remove_tail sets tk_array size)
  unfolding remove_tail
  remove_tail-IsTrimmed zero = record {
    le = omega arith;
    garbage = λ j le lt. absurd (omega arith);
    last = λ j e. absurd (omega arith);
  }
  remove_tail-IsTrimmed (suc size) =
      elim (Bool-cases (pos_in_set sets.non_finals (tk_array size) == 0)) [
        | inl good ↦ rw good (record {
          le = omega arith;
          garbage = λ j le lt. absurd (omega arith);
          last = λ j e.
              subst (λ k. ¬ IsGarbage k) (let p : size ≡ j = omega arith in p)
                (λ ne. ne (ground arith));
        })
        | inr bad ↦
            let below = remove_tail-IsTrimmed size in
            rw bad (record {
              le = omega (arith, below.le);
              garbage = λ j le lt. elim (ℕ_discrete j size) [
                | yes at ↦ subst IsGarbage (sym at) (λ z. ground arith)
                | no other ↦ below.garbage j le (omega arith)
              ];
              last = below.last;
            })
      ]

  register_mrb : (pos : ℕ) (s : Scan) → s.mrb_size ≤ pos → (register pos s).mrb_size ≤ pos + 1
  unfolding register
  register_mrb pos s le = ground arith

  scan_from-le :
      (rounds pos : ℕ) (s : Scan)
      → s.mrb_size ≤ pos
      → scan_from sets tk_array rounds pos s ≤ pos + rounds
  unfolding scan_from
  scan_from-le zero pos s le = omega arith
  scan_from-le (suc rounds) pos s le =
      elim (Option-cases (
        close_paren (pos_in_set sets.closers (tk_array pos))
          (open_paren (pos_in_set sets.openers (tk_array pos)) s))) [
            | inl z ↦ rw (z, scan_from, open_paren_mrb) (omega arith)
            | inr (closed, c) ↦
                let kept = close_paren_mrb _ _ c in
                let opened = open_paren_mrb (pos_in_set sets.openers (tk_array pos)) s in
                rw (c, scan_from)
                  (omega (
                    arith,
                    scan_from-le rounds (pos + 1) (register pos closed)
                        (register_mrb pos closed (omega (arith, kept, opened))),
                  ))
          ]

  largest_routine-le : (size : ℕ) → largest_routine sets tk_array size ≤ size
  unfolding largest_routine
  largest_routine-le size = omega (
    arith,
    scan_from-le size 0 (record { mrb_size = 0; balance_count = zeros; n_imbalances = 0 })
        (omega arith),
  )

  -- The size that the run is cut to before its tail is looked at.
  abbrev pub offered : Bool → ℕ → ℕ
  offered functions_only size = if functions_only then largest_routine sets tk_array size else size

  offered-le : (functions_only : Bool) (size : ℕ) → offered functions_only size ≤ size
  offered-le true size = largest_routine-le size
  offered-le false size = omega arith

  -- Best_Algol_Run_Size returns the size of the longest beginning of the run, under -f of what
  -- largest_routine leaves of it, that is empty or does not end in a non-final token: what is cut off
  -- are non-final tokens, and the size does not grow.
  pub best_algol_run_size-IsTrimmed :
      (functions_only : Bool) (size : ℕ)
      → IsTrimmed
          (offered functions_only size)
          (best_algol_run_size sets tk_array functions_only size)
        × (best_algol_run_size sets tk_array functions_only size ≤ size)
  unfolding best_algol_run_size
  best_algol_run_size-IsTrimmed functions_only size =
      let trimmed = remove_tail-IsTrimmed (offered functions_only size) in
      (trimmed, omega (arith, trimmed.le, offered-le functions_only size))

-- The language functions, as the comparison takes them.
pub algol_le :
    (sets : TokenSets) (functions_only : Bool) (p : ℕ → ℕ) (size : ℕ)
    → best_algol_run_size sets p functions_only size ≤ size
algol_le sets functions_only p size = (best_algol_run_size-IsTrimmed sets p functions_only size).1

abbrev pub algol_language : TokenSets → Bool → Language
algol_language sets functions_only = record {
  may_be_start_of_run = may_be_start_of_algol_run sets;
  best_run_size = λ p size. best_algol_run_size sets p functions_only size;
  best_run_size-le = algol_le sets functions_only;
}
