-- ===== src/Algol.antt =====
-- sim/sim_2_89/algollike.c: the language functions for languages like Algol, driven by four lists
-- of tokens: those that end or begin no run, and the opening and closing parentheses.
pub mod Sets
pub mod Balance
pub mod Sizes
pub mod Tail
use run_server.Base.{
  ℕ, zero, suc, ◌+◌, ◌-◌, ◌%◌, Bool, true, false, List, [], ◌∷◌, Option, none, some, ltb, leb, ◌==◌,
  not, if◌then◌else◌, update, zeros, ◌>>=◌,
}
use run_server.Token.{n_regular_tokens, no_token, token_eq, is_regular_token}

-- `cvt2bittable`, from the rest of the list and the value of `cnt`. The end of the list is marked
-- by No_Token, which is 0; `none` is the call of `fatal`, and a read past a list with no such mark.
-- The table is one of `char`, so a position is kept modulo 256.
unfoldable pub cvt2bittable : List ℕ → ℕ → (ℕ → ℕ) → Option (ℕ → ℕ)
cvt2bittable [] cnt bt = none
cvt2bittable (t ∷ tl) cnt bt =
    let rest = cvt2bittable tl (cnt + 1) (update bt t (cnt % 256)) in
    if token_eq t no_token then some bt else if leb n_regular_tokens t then none else rest

pub record TokenSets : Type 0 where
  pub non_finals : ℕ → ℕ
  pub non_initials : ℕ → ℕ
  pub openers : ℕ → ℕ
  pub closers : ℕ → ℕ

-- `Init_Algol_Language`, at its first call: the four tables are still clear.
unfoldable pub init_algol_language : List ℕ → List ℕ → List ℕ → List ℕ → Option TokenSets
init_algol_language non_finals non_initials openers closers = do
  ni ← cvt2bittable non_initials 1 zeros
  nf ← cvt2bittable non_finals 1 zeros
  op ← cvt2bittable openers 1 zeros
  cl ← cvt2bittable closers 1 zeros
  some (record { non_finals = nf; non_initials = ni; openers = op; closers = cl })

unfoldable pub pos_in_set : (ℕ → ℕ) → ℕ → ℕ
pos_in_set set tk = if is_regular_token tk then set tk else 0

unfoldable pub may_be_start_of_algol_run : TokenSets → ℕ → Bool
may_be_start_of_algol_run sets tk = pos_in_set sets.non_initials tk == 0

-- The variables of `largest_routine`.
pub record Scan : Type 0 where
  pub mrb_size : ℕ
  pub balance_count : ℕ → ℕ
  pub n_imbalances : ℕ

-- "account for openers", for the parenthesis `pp` of the token, 0 if it is no opener.
unfoldable pub open_paren : ℕ → Scan → Scan
open_paren pp s = if pp == 0 then s else record s {
  n_imbalances = if s.balance_count pp == 0 then s.n_imbalances + 1 else s.n_imbalances;
  balance_count = update s.balance_count pp (s.balance_count pp + 1);
}

-- "account for closers"; `none` is the closer too many.
unfoldable pub close_paren : ℕ → Scan → Option Scan
close_paren pp s =
    if pp == 0
    then some s
    else if s.balance_count pp == 0
    then none
    else some (record s {
      n_imbalances = if s.balance_count pp - 1 == 0 then s.n_imbalances - 1 else s.n_imbalances;
      balance_count = update s.balance_count pp (s.balance_count pp - 1);
    })

-- "register the balance point"
unfoldable pub register : ℕ → Scan → Scan
register pos s = if s.n_imbalances == 0 then record s { mrb_size = pos + 1 } else s

module _ (sets : TokenSets) (tk_array : ℕ → ℕ) where
  -- The loop of `largest_routine`, with `rounds` rounds left.
  unfoldable pub scan_from : ℕ → ℕ → Scan → ℕ
  scan_from zero pos s = s.mrb_size
  scan_from (suc rounds) pos s =
      let opened = open_paren (pos_in_set sets.openers (tk_array pos)) s in
      elim (close_paren (pos_in_set sets.closers (tk_array pos)) opened) [
        | none ↦ opened.mrb_size
        | some closed ↦ scan_from rounds (pos + 1) (register pos closed)
      ]

  unfoldable pub largest_routine : ℕ → ℕ
  largest_routine size =
      scan_from size 0 (record { mrb_size = 0; balance_count = zeros; n_imbalances = 0 })

  -- "remove trailing garbage"
  unfoldable pub remove_tail : ℕ → ℕ
  remove_tail zero = zero
  remove_tail (suc size) =
      if pos_in_set sets.non_finals (tk_array size) == 0 then suc size else remove_tail size

  -- `Best_Algol_Run_Size`, with the option -f or without it.
  unfoldable pub best_algol_run_size : Bool → ℕ → ℕ
  best_algol_run_size functions_only size =
      remove_tail (if functions_only then largest_routine size else size)
