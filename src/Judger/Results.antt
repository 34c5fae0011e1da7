-- ===== src/Judger/Results.antt =====
-- What the result of main says.
use mathlib.Core.Option.{some-ne-none}
use run_server.Base.{
  ℕ, ◌*◌, ◌≤◌, ◌≡◌, ◌≢◌, inl, inr, ◌⊎◌, refl, sym, ap, subst, ◌∙◌, false, List, [], ◌∷◌, ◌++◌, some,
  some_inv, Bool-cases, Option-cases, ◌==◌, arith,
}
use run_server.Verdict.{judge_ac, std_mb}
use run_server.Watch.{Judging, Setting}
use run_server.Parameters.{Params, Start, init_parameters}
use run_server.Judger.{
  Entry, run_entry, run_entries, Result, report, judging, printed, Machine, setting, run, main,
}
use run_server.Judger.Accepted.{
  IsWithin, IsPassed, IsTreated, AllEntries, SomeEntry, pair_inv, run_entries-IsTreated,
}

-- When a test has been decided against the solution, the entries behind it are not looked at.
pub run_entries_decided :
    (k : Setting) (unset : ℕ) (xs ys : List Entry) (count c : ℕ) (s t : Judging)
    → run_entries k unset xs count s ≡ some (c, t)
    → t.judge_flag ≢ judge_ac
    → run_entries k unset (xs ++ ys) count s ≡ some (c, t)
unfolding run_entries
run_entries_decided k unset [] [] count c s t e f = e
run_entries_decided k unset [] (y ∷ ys) count c s t e f =
    let same = (pair_inv (some_inv e)).1 in
    let b : (s.judge_flag == judge_ac) ≡ false =
      subst (λ (x : Judging). (x.judge_flag == judge_ac) ≡ false) (sym same) (ground arith) in
    rw (b, run_entries) e
run_entries_decided k unset (x ∷ xs) ys count c s t e f =
    elim (Bool-cases (s.judge_flag == judge_ac)) [
      | inl b ↦ elim (Option-cases (run_entry k unset x count s)) [
        | inl z ↦ absurd (some-ne-none _ (sym (rw (b, z, run_entries) at e)))
        | inr ((c', s'), z) ↦
            rw (b, z, run_entries)
              (run_entries_decided k unset xs ys c' c s' t (rw (b, z, run_entries) at e) f)
      ]
      | inr b ↦ rw (b, run_entries) (rw (b, run_entries) at e)
    ]

pub printed_inv : {r q : Result} → printed r ≡ printed q → r ≡ q
printed_inv e = cc

IsWithin-judging : (k : Setting) → IsWithin k judging
IsWithin-judging k = record { in_time = omega arith; in_memory = omega arith }

-- A result with JudgeAC counts at least one test, and shows the time and the memory used.
report-ac :
    (k : Setting) (count : ℕ) (s : Judging)
    → (report k count s).judge_flag ≡ judge_ac
    → (count ≢ 0)
      × (s.judge_flag ≡ judge_ac)
      × ((report k count s).usedtime ≡ s.usedtime)
      × ((report k count s).topmemory ≡ s.topmemory)
unfolding report
report-ac k count s f = (ground arith, ground arith, ground arith, refl)

run-accepts :
    (k : Setting) (unset : ℕ) (entries : List Entry) (r : Result)
    → k.record_call ≡ false
    → unset ≢ 0
    → run k unset (some entries) ≡ printed r
    → r.judge_flag ≡ judge_ac
    → AllEntries (IsTreated k) entries
      × SomeEntry (IsPassed k) entries
      × (r.usedtime ≤ k.time_lmt * 1000)
      × (r.topmemory ≤ k.mem_lmt * std_mb)
unfolding run
run-accepts k unset entries r h u e f =
    elim (Option-cases (run_entries k unset entries 0 judging)) [
      | inl z ↦ cc (rw (z, run) at e)
      | inr ((c, t), z) ↦
          let same = printed_inv (rw (z, run) at e) in
          let (counted, t_ac, time, memory) =
            report-ac k c t (ap (λ (x : Result). x.judge_flag) same ∙ f) in
          let (treated, within, some_test) =
            run_entries-IsTreated k unset entries 0 c judging t h u z t_ac (IsWithin-judging k) in
          (
            treated,
            elim some_test [ inl zero_count ↦ absurd (counted zero_count) | inr p ↦ p ],
            subst (λ (x : Result). x.usedtime ≤ k.time_lmt * 1000) same (rw time within.in_time),
            subst (λ (x : Result). x.topmemory ≤ k.mem_lmt * std_mb) same
                (rw memory within.in_memory),
          )
    ]

pub Start-cases :
    (x : Start)
    → ((n : ℕ) × (x ≡ Start.exit n))
      ⊎ (((p : Params) × (x ≡ Start.started p)) ⊎ (x ≡ Start.undefined))
Start-cases (Start.exit n) = inl (n, refl)
Start-cases (Start.started p) = inr (inl (p, refl))
Start-cases Start.undefined = inr (inr refl)

-- If main prints JudgeAC for a directory, where prepare_files happens to return no 0 after it has
-- written the names, then the arguments have been read. Each entry is no test, or the reports on it say
-- that the solution has exited, in less than the time limit; that at each stop before it was at a call
-- that the table for its language allows; and that its memory was within the limit; and compare accepts
-- its output. At least one entry is such a test, and the time and the memory printed are within the
-- limits.
pub main-accepts :
    (m : Machine) (argv : List (List ℕ)) (entries : List Entry) (r : Result)
    → m.unset ≢ 0
    → main m argv (some entries) ≡ printed r
    → r.judge_flag ≡ judge_ac
    → (p : Params) × (init_parameters argv ≡ Start.started p)
      × AllEntries (IsTreated (setting m p)) entries
      × SomeEntry (IsPassed (setting m p)) entries
      × (r.usedtime ≤ p.time_lmt * 1000)
      × (r.topmemory ≤ p.mem_lmt * std_mb)
unfolding main
main-accepts m argv entries r u e f = elim (Start-cases (init_parameters argv)) [
  | inl (n, z) ↦ cc (rw (z, main) at e)
  | inr (inl (p, z)) ↦
      let (treated, passed, time, memory) =
        run-accepts (setting m p) m.unset entries r refl u (rw (z, main) at e) f in
      (p, z, treated, passed, time, memory)
  | inr (inr z) ↦ cc (rw (z, main) at e)
]
