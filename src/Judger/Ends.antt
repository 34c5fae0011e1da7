-- ===== src/Judger/Ends.antt =====
-- When main ends with a result.
use run_server.Base.{
  ℕ, ◌+◌, ◌*◌, ◌≡◌, inl, inr, ◌⊎◌, refl, ap, ◌∙◌, true, List, [], ◌∷◌, ◌++◌, Option, some,
  Bool-cases, ltb, ◌==◌, ◌||◌,
}
use run_server.Verdict.{judge_ac, judge_tle, judge_mle, std_mb}
use run_server.Checker.Words.{compare-verdict}
use run_server.Watch.{Report, Judging, Setting, flag, ended, watch_solution, wifexited, wifsignaled}
use run_server.Watch.Calls.{All}
use run_server.Watch.Ends.{IsInTable, watch_solution-ends}
use run_server.Parameters.{Params, Start, init_parameters}
use run_server.Judger.{
  judge_solution, prepare_files, Entry, begin_test, run_test, run_entry, run_entries, Result,
  report, judging, printed, Machine, setting, run, main,
}
use run_server.Judger.FileNames.{IsTest, prepare_files-cases}
use run_server.Judger.Accepted.{AllEntries}

-- The reports say that the solution has exited or was killed, and the calls until then are within the
-- table.
pub record IsEnding (reports : List Report) : Type 0 where
  pub before : List Report
  pub last : Report
  pub after : List Report
  pub split : reports ≡ before ++ (last ∷ after)
  pub in_table : All IsInTable before
  pub over : (wifexited last.status || wifsignaled last.status) ≡ true

-- An entry that is no test, or on which the solution ends.
abbrev pub IsRunnable : Entry → Type 0
IsRunnable e = (¬ IsTest e.d_name) ⊎ IsEnding e.reports

judge_solution-total :
    (k : Setting) (outfile userfile : Option (List ℕ)) (s : Judging)
    → (t : Judging) × (judge_solution k outfile userfile s ≡ some t)
unfolding judge_solution
judge_solution-total k outfile userfile s =
    let (v, q, h) = compare-verdict outfile userfile in
    elim (Bool-cases (ltb (k.time_lmt * 1000) s.usedtime)) [
      | inl b ↦ (flag judge_tle s, rw (b, judge_solution) refl)
      | inr b ↦ elim (Bool-cases (ltb (k.mem_lmt * std_mb) s.topmemory)) [
        | inl c ↦ (flag judge_mle s, rw (b, c, judge_solution) refl)
        | inr c ↦ (flag v s, rw (b, c, q, judge_solution) refl)
      ]
    ]

run_test-total :
    (k : Setting) (e : Entry) (s : Judging)
    → IsEnding e.reports
    → (t : Judging) × (run_test k e s ≡ some t)
unfolding run_test
run_test-total k e s h =
    let (t, q) = watch_solution-ends k h.before h.after h.last (begin_test k s) h.in_table h.over in
    let q' : watch_solution k e.reports (begin_test k s) ≡ ended t =
      ap (λ reports. watch_solution k reports (begin_test k s)) h.split ∙ q in
    elim (Bool-cases (t.judge_flag == judge_ac)) [
      | inl b ↦
          let (u, j) = judge_solution-total k e.expected e.output t in
          (u, rw (q', run_test) (rw b j))
      | inr b ↦ (t, rw (q', run_test) (rw b refl))
    ]

run_entry-total :
    (k : Setting) (unset : ℕ) (e : Entry) (count : ℕ) (s : Judging)
    → IsRunnable e
    → (r : ℕ × Judging) × (run_entry k unset e count s ≡ some r)
unfolding run_entry
run_entry-total k unset e count s (inr h) =
    let (t, q) = run_test-total k e s h in
    elim (Bool-cases ((prepare_files unset e.d_name).0 == 0)) [
      | inl b ↦ ((count, s), rw (b, run_entry) refl)
      | inr b ↦ ((count + 1, t), rw (b, q, run_entry) refl)
    ]
run_entry-total k unset e count s (inl n) = elim (prepare_files-cases unset e.d_name) [
  | inl (fname, some_name, whole, q) ↦ absurd (n (fname, some_name, whole))
  | inr (not_test, q) ↦ ((count, s), rw (q, run_entry) refl)
]

run_entries-total :
    (k : Setting) (unset : ℕ) (entries : List Entry) (count : ℕ) (s : Judging)
    → AllEntries IsRunnable entries
    → (r : ℕ × Judging) × (run_entries k unset entries count s ≡ some r)
unfolding run_entries
run_entries-total k unset [] count s h = ((count, s), refl)
run_entries-total k unset (e ∷ entries) count s h = elim (Bool-cases (s.judge_flag == judge_ac)) [
  | inl b ↦
      let ((c, t), q) = run_entry-total k unset e count s h.0 in
      let (r, q') = run_entries-total k unset entries c t h.1 in (r, rw (b, q, run_entries) q')
  | inr b ↦ ((count, s), rw (b, run_entries) refl)
]

-- If the arguments are read, and on each test of the directory the solution at last exits or is
-- killed, with all calls until then within the table, then main ends with a result.
pub main-prints :
    (m : Machine) (argv : List (List ℕ)) (p : Params) (entries : List Entry)
    → init_parameters argv ≡ Start.started p
    → AllEntries IsRunnable entries
    → (r : Result) × (main m argv (some entries) ≡ printed r)
unfolding main run
main-prints m argv p entries a h =
    let ((count, s), q) = run_entries-total (setting m p) m.unset entries 0 judging h in
    (report (setting m p) count s, rw (a, main) (rw (q, run) refl))
