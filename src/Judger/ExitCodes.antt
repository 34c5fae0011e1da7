-- ===== src/Judger/ExitCodes.antt =====
-- The verdicts that main can print, and its exit codes.
use mathlib.Core.Option.{some-ne-none}
use run_server.Base.{
  ℕ, ◌*◌, ◌≤◌, ◌≡◌, inl, inr, ◌⊎◌, sym, subst, List, [], ◌∷◌, Option, some, some_inv, Bool-cases,
  Option-cases, ltb, ◌==◌, arith,
}
use run_server.Verdict.{judge_ac, judge_re, judge_pe, judge_na, std_mb}
use run_server.Checker.Words.{compare-verdict}
use run_server.Watch.{
  Report, Judging, Setting, stop, go_on, ended, signal_verdict, note_call, check_call, check_report,
  watch_round, watch_solution, wexitstatus, wtermsig, with_time,
}
use run_server.Watch.Calls.{Round-cases, ended_inv}
use run_server.Parameters.{init_parameters}
use run_server.Judger.{
  judge_solution, prepare_files, Entry, begin_test, run_test, run_entry, run_entries, Result,
  exit_code, report, judging, printed, Machine, setting, run, main,
}
use run_server.Judger.Accepted.{pair_inv, Watched-cases}
use run_server.Judger.Results.{printed_inv, Start-cases}

-- JudgeAC, or one of the verdicts against a solution that has been run.
abbrev IsFlag : ℕ → Type 0
IsFlag v = (judge_ac ≤ v) × (v ≤ judge_pe)

abbrev HasFlag : Judging → Type 0
HasFlag s = IsFlag s.judge_flag

signal_verdict-IsFlag : (sig : ℕ) → IsFlag (signal_verdict sig)
unfolding signal_verdict
signal_verdict-IsFlag sig = (ground arith, ground arith)

stop-HasFlag :
    (k : Setting) (r : Report) (s t : Judging) → watch_round k r s ≡ stop t → HasFlag s → HasFlag t
unfolding watch_round check_report check_call
stop-HasFlag k r s t e h =
    let v1 = signal_verdict-IsFlag (wexitstatus r.status) in
    let v2 = signal_verdict-IsFlag (wtermsig r.status) in (ground arith, ground arith)

go_on-HasFlag :
    (k : Setting) (r : Report) (s t : Judging) → watch_round k r s ≡ go_on t → HasFlag s → HasFlag t
unfolding watch_round check_report check_call note_call
go_on-HasFlag k r s t e h = (ground arith, ground arith)

watch_solution-HasFlag :
    (k : Setting) (reports : List Report) (s t : Judging)
    → watch_solution k reports s ≡ ended t
    → HasFlag s
    → HasFlag t
unfolding watch_solution
watch_solution-HasFlag k [] s t e h = cc
watch_solution-HasFlag k (r ∷ reports) s t e h = elim (Round-cases (watch_round k r s)) [
  | inl (x, q) ↦
      let same : ended (with_time r x) ≡ ended t = rw (q, watch_solution) at e in
      subst HasFlag (ended_inv same) (stop-HasFlag k r s x q h)
  | inr (inl (x, q)) ↦
      watch_solution-HasFlag k reports x t (rw (q, watch_solution) at e) (go_on-HasFlag k r s x q h)
  | inr (inr q) ↦ cc (rw (q, watch_solution) at e)
]

judge_solution-HasFlag :
    (k : Setting) (outfile userfile : Option (List ℕ)) (s t : Judging)
    → judge_solution k outfile userfile s ≡ some t
    → HasFlag t
unfolding judge_solution
judge_solution-HasFlag k outfile userfile s t e =
    elim (Bool-cases (ltb (k.time_lmt * 1000) s.usedtime)) [
      | inl b ↦ subst HasFlag (some_inv (rw (b, judge_solution) at e)) (omega arith, omega arith)
      | inr b ↦ elim (Bool-cases (ltb (k.mem_lmt * std_mb) s.topmemory)) [
        | inl c ↦
            subst HasFlag (some_inv (rw (b, c, judge_solution) at e)) (omega arith, omega arith)
        | inr c ↦
            let (v, q, h) = compare-verdict outfile userfile in
            subst HasFlag (some_inv (rw (b, c, q, judge_solution) at e)) h
      ]
    ]

run_test-HasFlag :
    (k : Setting) (e : Entry) (s t : Judging) → run_test k e s ≡ some t → HasFlag s → HasFlag t
unfolding run_test
run_test-HasFlag k e s t r h = elim (Watched-cases (watch_solution k e.reports (begin_test k s))) [
  | inl (u, q) ↦ elim (Bool-cases (u.judge_flag == judge_ac)) [
    | inl b ↦ judge_solution-HasFlag k e.expected e.output u t (rw (q, b, run_test) at r)
    | inr b ↦
        subst HasFlag (some_inv (rw (q, b, run_test) at r))
          (watch_solution-HasFlag k e.reports (begin_test k s) u q h)
  ]
  | inr (inl (u, q)) ↦ absurd (some-ne-none _ (sym (rw (q, run_test) at r)))
  | inr (inr q) ↦ absurd (some-ne-none _ (sym (rw (q, run_test) at r)))
]

run_entry-HasFlag :
    (k : Setting) (unset : ℕ) (x : Entry) (count c : ℕ) (s t : Judging)
    → run_entry k unset x count s ≡ some (c, t)
    → HasFlag s
    → HasFlag t
unfolding run_entry
run_entry-HasFlag k unset x count c s t e h =
    elim (Bool-cases ((prepare_files unset x.d_name).0 == 0)) [
      | inl b ↦ subst HasFlag (pair_inv (some_inv (rw (b, run_entry) at e))).1 h
      | inr b ↦ elim (Option-cases (run_test k x s)) [
        | inl z ↦ absurd (some-ne-none _ (sym (rw (b, z, run_entry) at e)))
        | inr (v, z) ↦
            subst HasFlag (pair_inv (some_inv (rw (b, z, run_entry) at e))).1
              (run_test-HasFlag k x s v z h)
      ]
    ]

run_entries-HasFlag :
    (k : Setting) (unset : ℕ) (entries : List Entry) (count c : ℕ) (s t : Judging)
    → run_entries k unset entries count s ≡ some (c, t)
    → HasFlag s
    → HasFlag t
unfolding run_entries
run_entries-HasFlag k unset [] count c s t e h = subst HasFlag (pair_inv (some_inv e)).1 h
run_entries-HasFlag k unset (x ∷ entries) count c s t e h =
    elim (Bool-cases (s.judge_flag == judge_ac)) [
      | inl b ↦ elim (Option-cases (run_entry k unset x count s)) [
        | inl z ↦ absurd (some-ne-none _ (sym (rw (b, z, run_entries) at e)))
        | inr ((c', s'), z) ↦
            run_entries-HasFlag k unset entries c' c s' t (rw (b, z, run_entries) at e)
              (run_entry-HasFlag k unset x count c' s s' z h)
      ]
      | inr b ↦ subst HasFlag (pair_inv (some_inv (rw (b, run_entries) at e))).1 h
    ]

-- The exit code of a result: 0 for JudgeAC, 3 for JudgeNA, and else the verdict, which is one of those
-- from 4 (JudgeRE) to 9 (JudgePE).
abbrev pub IsExitCode : Result → Type 0
IsExitCode r =
    ((r.judge_flag ≡ judge_ac) × (r.exit_code ≡ 0))
    ⊎ (((r.judge_flag ≡ judge_na) × (r.exit_code ≡ 3))
        ⊎ ((judge_re ≤ r.judge_flag) × (r.judge_flag ≤ judge_pe) × (r.exit_code ≡ r.judge_flag)))

report-IsExitCode :
    (k : Setting) (count : ℕ) (s : Judging) → HasFlag s → IsExitCode (report k count s)
unfolding report exit_code
report-IsExitCode k count s h = ground arith

run-IsExitCode :
    (k : Setting) (unset : ℕ) (entries : List Entry) (r : Result)
    → run k unset (some entries) ≡ printed r
    → IsExitCode r
unfolding run
run-IsExitCode k unset entries r e = elim (Option-cases (run_entries k unset entries 0 judging)) [
  | inl z ↦ cc (rw (z, run) at e)
  | inr ((c, t), z) ↦ subst IsExitCode (printed_inv (rw (z, run) at e)) (
      report-IsExitCode k c t
        (run_entries-HasFlag k unset entries 0 c judging t z (omega arith, omega arith)))
]

-- When main prints a result, its exit code is 0 exactly with JudgeAC, 3 with JudgeNA, and else the
-- verdict, which is one of those from JudgeRE to JudgePE.
pub main-IsExitCode :
    (m : Machine) (argv : List (List ℕ)) (entries : List Entry) (r : Result)
    → main m argv (some entries) ≡ printed r
    → IsExitCode r
unfolding main
main-IsExitCode m argv entries r e = elim (Start-cases (init_parameters argv)) [
  | inl (n, z) ↦ cc (rw (z, main) at e)
  | inr (inl (p, z)) ↦ run-IsExitCode (setting m p) m.unset entries r (rw (z, main) at e)
  | inr (inr z) ↦ cc (rw (z, main) at e)
]
