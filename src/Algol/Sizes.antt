-- ===== src/Algol/Sizes.antt =====
-- `largest_routine` finds the longest balanced beginning of a run.
use run_server.Base.{
  ℕ, zero, suc, ◌+◌, ◌≤◌, ◌<◌, ◌≡◌, ◌≢◌, inl, inr, refl, sym, subst, ◌∙◌, none, some, Option-cases,
  zeros, arith,
}
use native.Mathlib.Nat.{add-zero}
use native.Mathlib.Numerals.{add-one}
use native.Mathlib.Decide.{ℕ_discrete, dec_le}
use run_server.Algol.{
  TokenSets, Scan, pos_in_set, open_paren, close_paren, register, scan_from, largest_routine,
}
use run_server.Algol.Balance.{
  tally, nonzeros_none, nonzeros_all, IsCounted, open_paren-IsCounted, open_paren-balance,
  close_paren-IsCounted, close_paren-balance, close_paren-none, close_paren-some, open_paren_mrb,
  close_paren_mrb, register_zero, register_other,
}

module _ (sets : TokenSets) (tk_array : ℕ → ℕ) where
  -- The number of the opening or closing parenthesis at a position, 0 if there is none.
  abbrev opener : ℕ → ℕ
  opener j = pos_in_set sets.openers (tk_array j)

  abbrev closer : ℕ → ℕ
  closer j = pos_in_set sets.closers (tk_array j)

  -- Among the first `k` tokens no parenthesis is closed before it is opened.
  abbrev pub NoneTooMany : ℕ → Type 0
  NoneTooMany k =
      (j : ℕ) → j < k → closer j ≢ 0 → tally closer j (closer j) < tally opener (suc j) (closer j)

  -- Among the first `k` tokens each parenthesis is closed as often as it is opened.
  abbrev pub IsBalanced : ℕ → Type 0
  IsBalanced k = (pp : ℕ) → pp ≢ 0 → pp < 512 → tally opener k pp ≡ tally closer k pp

  -- What the loop has found at `pos`.
  record IsScanned (pos : ℕ) (s : Scan) : Type 0 where
    counted : IsCounted s
    balance : (pp : ℕ) → pp ≢ 0 → s.balance_count pp + tally closer pos pp ≡ tally opener pos pp
    fine : NoneTooMany pos
    mrb_le : s.mrb_size ≤ pos
    mrb_balanced : IsBalanced s.mrb_size
    mrb_longest : (k : ℕ) → k ≤ pos → IsBalanced k → k ≤ s.mrb_size

  -- The sizes that the loop may return.
  record IsLargest (size r : ℕ) : Type 0 where
    le : r ≤ size
    fine : NoneTooMany r
    balanced : IsBalanced r
    longest : (k : ℕ) → k ≤ size → NoneTooMany k → IsBalanced k → k ≤ r

  IsScanned-IsLargest : (pos : ℕ) (s : Scan) → IsScanned pos s → IsLargest pos s.mrb_size
  IsScanned-IsLargest pos s i = record {
    le = i.mrb_le;
    fine = λ j lt. i.fine j (omega (arith, i.mrb_le));
    balanced = i.mrb_balanced;
    longest = λ k le _ b. i.mrb_longest k le b;
  }

  module _ (small_open : (j : ℕ) → opener j < 512) (small_close : (j : ℕ) → closer j < 512)
      (pos : ℕ) (s : Scan) (i : IsScanned pos s) where
    abbrev opened : Scan
    opened = open_paren (opener pos) s

    opened-balance :
        (pp : ℕ)
        → pp ≢ 0
        → opened.balance_count pp + tally closer pos pp ≡ tally opener (suc pos) pp
    opened-balance pp ne =
        omega (
          arith,
          open_paren-balance (opener pos) (small_open pos) s i.counted pp ne,
          i.balance pp ne,
        )

    opened-IsCounted : IsCounted opened
    opened-IsCounted = open_paren-IsCounted (opener pos) (small_open pos) s i.counted

    -- A closer too many: no longer beginning is in order.
    too_many :
        (size : ℕ) → pos < size → close_paren (closer pos) opened ≡ none → IsLargest size s.mrb_size
    too_many size lt e = record {
      le = omega (arith, i.mrb_le);
      fine = λ j l. i.fine j (omega (arith, i.mrb_le));
      balanced = i.mrb_balanced;
      longest = λ k le f b. elim (dec_le k pos) [
        | yes early ↦ i.mrb_longest k early b
        | no late ↦
            let (ne, z) =
              close_paren-none (closer pos) (small_close pos) opened opened-IsCounted e in
            absurd (omega (arith, f pos (omega arith) ne, opened-balance (closer pos) ne, z))
      ];
    }

    module _ (closed : Scan) (e : close_paren (closer pos) opened ≡ some closed) where
      closed-balance :
          (pp : ℕ)
          → pp ≢ 0
          → closed.balance_count pp + tally closer (suc pos) pp ≡ tally opener (suc pos) pp
      closed-balance pp ne = omega (
        arith,
        close_paren-balance (closer pos) (small_close pos) opened opened-IsCounted pp e ne,
        opened-balance pp ne,
      )

      closed-IsCounted : IsCounted closed
      closed-IsCounted =
          close_paren-IsCounted (closer pos) (small_close pos) opened opened-IsCounted e

      -- The counter is 0 exactly at a balance point.
      n_imbalances-IsBalanced : closed.n_imbalances ≡ 0 → IsBalanced (suc pos)
      n_imbalances-IsBalanced z pp ne lt = omega (
        arith,
        closed-balance pp ne,
        nonzeros_none 512 pp closed.balance_count (sym closed-IsCounted.imbalances ∙ z) lt,
      )

      IsBalanced-n_imbalances : IsBalanced (suc pos) → closed.n_imbalances ≡ 0
      IsBalanced-n_imbalances b =
          closed-IsCounted.imbalances ∙ nonzeros_all 512 closed.balance_count none_open
        where
          none_open : (p : ℕ) → p < 512 → closed.balance_count p ≡ 0
          none_open p lt = elim (ℕ_discrete p 0) [
            | yes z ↦ subst (λ x. closed.balance_count x ≡ 0) (sym z) closed-IsCounted.unused
            | no ne ↦ omega (arith, b p ne lt, closed-balance p ne)
          ]

      still_fine : NoneTooMany (suc pos)
      still_fine j lt ne = elim (ℕ_discrete j pos) [
        | yes at ↦ subst Fine (sym at) at_pos ne
        | no other ↦ i.fine j (omega arith) ne
      ]
        where
          Fine : ℕ → Type 0
          Fine x = closer x ≢ 0 → tally closer x (closer x) < tally opener (suc x) (closer x)

          at_pos :
              closer pos ≢ 0 → tally closer pos (closer pos) < tally opener (suc pos) (closer pos)
          at_pos nz = omega (
            arith,
            opened-balance (closer pos) nz,
            close_paren-some (closer pos) (small_close pos) opened opened-IsCounted e nz,
          )

      same_mrb : closed.mrb_size ≡ s.mrb_size
      same_mrb = close_paren_mrb (closer pos) opened e ∙ open_paren_mrb (opener pos) s

      registered : IsScanned (suc pos) (register pos closed)
      registered = elim (ℕ_discrete closed.n_imbalances 0) [
        | yes z ↦ rw (register_zero pos closed z) (record {
          counted = record {
            imbalances = closed-IsCounted.imbalances;
            unused = closed-IsCounted.unused;
          };
          balance = closed-balance;
          fine = still_fine;
          mrb_le = omega arith;
          mrb_balanced = rw add-one (n_imbalances-IsBalanced z);
          mrb_longest = λ k le b. omega arith;
        })
        | no ne ↦ rw (register_other pos closed ne) (record {
          counted = closed-IsCounted;
          balance = closed-balance;
          fine = still_fine;
          mrb_le = omega (arith, same_mrb, i.mrb_le);
          mrb_balanced = subst IsBalanced (sym same_mrb) i.mrb_balanced;
          mrb_longest = λ k le b. elim (dec_le k pos) [
            | yes early ↦ omega (arith, same_mrb, i.mrb_longest k early b)
            | no late ↦
                let last : k ≡ suc pos = omega arith in
                absurd (ne (IsBalanced-n_imbalances (subst IsBalanced last b)))
          ];
        })
      ]

  module _ (small_open : (j : ℕ) → opener j < 512) (small_close : (j : ℕ) → closer j < 512) where
    scan_from-IsLargest :
        (rounds pos : ℕ) (s : Scan) (size : ℕ)
        → pos + rounds ≡ size
        → IsScanned pos s
        → IsLargest size (scan_from sets tk_array rounds pos s)
    unfolding scan_from
    scan_from-IsLargest zero pos s size e i =
        subst (λ n. IsLargest n s.mrb_size) (sym (add-zero pos) ∙ e) (IsScanned-IsLargest pos s i)
    scan_from-IsLargest (suc rounds) pos s size e i =
        elim (Option-cases (
          close_paren (pos_in_set sets.closers (tk_array pos))
            (open_paren (pos_in_set sets.openers (tk_array pos)) s))) [
              | inl z ↦
                  rw (z, scan_from, open_paren_mrb)
                    (too_many small_open small_close pos s i size (omega arith) z)
              | inr (closed, c) ↦
                  rw (c, scan_from)
                    (rw add-one (
                      scan_from-IsLargest rounds (suc pos) (register pos closed) size (omega arith)
                        (registered small_open small_close pos s i closed c)))
            ]

    -- If the positions in the sets of openers and of closers are less than 512, largest_routine returns
    -- the size of the longest beginning of the run in which no parenthesis is closed more often than
    -- it has been opened, at any token, and each is closed as often as it is opened: such a
    -- beginning, and one that is no shorter than any other, of at most `size` tokens.
    pub largest_routine_lem :
        (size : ℕ)
        → (largest_routine sets tk_array size ≤ size)
          × NoneTooMany (largest_routine sets tk_array size)
          × IsBalanced (largest_routine sets tk_array size)
          × ((k : ℕ)
              → k ≤ size
              → NoneTooMany k
              → IsBalanced k
              → k ≤ largest_routine sets tk_array size)
    unfolding largest_routine
    largest_routine_lem size =
        let l =
          scan_from-IsLargest size 0
            (record { mrb_size = 0; balance_count = zeros; n_imbalances = 0 }) size (omega arith)
            start in
        (l.le, l.fine, l.balanced, l.longest)
      where
        start : IsScanned 0 (record { mrb_size = 0; balance_count = zeros; n_imbalances = 0 })
        start = record {
          counted = record {
            imbalances = sym (nonzeros_all 512 zeros (λ p lt. refl));
            unused = refl;
          };
          balance = λ pp ne. omega arith;
          fine = λ j lt. absurd (omega arith);
          mrb_le = omega arith;
          mrb_balanced = λ pp ne lt. refl;
          mrb_longest = λ k le b. le;
        }
