-- ===== src/Judger/Accepted.antt =====
-- What main knows of the tests of a solution that it accepts.
use Prim.Native.Nat.{max}
use mathlib.Core.Option.{some-ne-none}
use run_server.Base.{
  ℕ, ◌*◌, ◌≤◌, ◌<◌, ◌++◌, ◌≡◌, ◌≢◌, inl, inr, ◌⊎◌, refl, sym, ap, subst, ◌∙◌, true, false, List, [],
  ◌∷◌, Option, some, some_inv, Bool-cases, Option-cases, ltb, ◌==◌, arith,
}
use run_server.Verdict.{judge_ac, std_mb}
use run_server.Checker.{compare}
use run_server.Syscalls.{init_syscalls_limits}
use run_server.Watch.{
  Report, Judging, Setting, Watched, wifexited, millis, ended, waiting, failed, watch_solution,
}
use run_server.Watch.Calls.{All, until_exit, IsAllowed, IsAccepted, watch_solution-IsAccepted}
use run_server.Watch.Memory.{memory, largest}
use run_server.Judger.FileNames.{IsTest, prepare_files-cases}
use run_server.Judger.{judge_solution, Entry, begin_test, run_test, run_entry, run_entries}

pub Watched-cases :
    (w : Watched)
    → ((t : Judging) × (w ≡ ended t)) ⊎ (((t : Judging) × (w ≡ waiting t)) ⊎ (w ≡ failed))
Watched-cases (ended t) = inl (t, refl)
Watched-cases (waiting t) = inr (inl (t, refl))
Watched-cases failed = inr (inr refl)

-- The limits hold of what has been used.
pub record IsWithin (k : Setting) (s : Judging) : Type 0 where
  pub in_time : s.usedtime ≤ k.time_lmt * 1000
  pub in_memory : s.topmemory ≤ k.mem_lmt * std_mb

-- The memory that the reports show is within the limit.
abbrev pub InMemory : Setting → Report → Type 0
InMemory k r = memory k r ≤ k.mem_lmt * std_mb

-- The solution has exited on a test, and until then it was at each stop at a call that the table for its
-- language allows, within its limits, and its output is accepted. The entry alone says so.
pub record IsPassed (k : Setting) (e : Entry) : Type 0 where
  pub last : Report
  pub rest : List Report
  pub split : e.reports ≡ until_exit e.reports ++ (last ∷ rest)
  pub exited : wifexited last.status ≡ true
  pub allowed : All (IsAllowed (init_syscalls_limits k.record_call k.lang)) (until_exit e.reports)
  pub in_memory : All (InMemory k) (until_exit e.reports ++ (last ∷ []))
  pub in_time : millis last.ruse < k.time_lmt * 1000
  pub same_output : compare e.expected e.output ≡ some judge_ac

largest-le :
    (k : Setting) (l : List Report) (top b : ℕ)
    → largest k top l ≤ b
    → (top ≤ b) × All (λ r. memory k r ≤ b) l
largest-le k [] top b h = (h, tt)
largest-le k (r ∷ l) top b h =
    let (le, rest) = largest-le k l (max top (memory k r)) b h in
    (omega (arith, le), (omega (arith, le), rest))

IsAccepted-IsPassed :
    (k : Setting) (e : Entry) (s t : Judging)
    → IsAccepted k e.reports (begin_test k s) t
    → compare e.expected e.output ≡ some judge_ac
    → IsPassed k e
IsAccepted-IsPassed k e s t a same =
    let reported = until_exit e.reports ++ (a.last ∷ []) in
    let limit = k.mem_lmt * std_mb in
    record {
      last = a.last;
      rest = a.rest;
      split = a.split;
      exited = a.exited;
      allowed = a.allowed;
      in_memory =
          (largest-le k reported s.topmemory limit (subst (λ m. m ≤ limit) a.top a.in_memory)).1;
      in_time = omega (arith, a.same_time, a.in_time);
      same_output = same;
    }

judge_solution-ac :
    (k : Setting) (outfile userfile : Option (List ℕ)) (s t : Judging)
    → judge_solution k outfile userfile s ≡ some t
    → t.judge_flag ≡ judge_ac
    → (compare outfile userfile ≡ some judge_ac) × IsWithin k t
unfolding judge_solution
judge_solution-ac k outfile userfile s t e f =
    elim (Bool-cases (ltb (k.time_lmt * 1000) s.usedtime)) [
      | inl b ↦
          let same = some_inv (rw (b, judge_solution) at e) in
          absurd (cc (ap (λ (u : Judging). u.judge_flag) same ∙ f))
      | inr b ↦ elim (Bool-cases (ltb (k.mem_lmt * std_mb) s.topmemory)) [
        | inl c ↦
            let same = some_inv (rw (b, c, judge_solution) at e) in
            absurd (cc (ap (λ (u : Judging). u.judge_flag) same ∙ f))
        | inr c ↦ elim (Option-cases (compare outfile userfile)) [
          | inl q ↦ absurd (some-ne-none _ (sym (rw (b, c, q, judge_solution) at e)))
          | inr (v, q) ↦
              let same = some_inv (rw (b, c, q, judge_solution) at e) in
              let v_ac : v ≡ judge_ac = ap (λ (u : Judging). u.judge_flag) same ∙ f in
              (
                q ∙ ap some v_ac,
                record {
                  in_time =
                      subst (λ (u : Judging). u.usedtime ≤ k.time_lmt * 1000) same (ground arith);
                  in_memory =
                      subst (λ (u : Judging). u.topmemory ≤ k.mem_lmt * std_mb) same (ground arith);
                },
              )
        ]
      ]
    ]

run_test-IsPassed :
    (k : Setting) (e : Entry) (s t : Judging)
    → k.record_call ≡ false
    → run_test k e s ≡ some t
    → t.judge_flag ≡ judge_ac
    → IsPassed k e × IsWithin k t
unfolding run_test
run_test-IsPassed k e s t h r f =
    elim (Watched-cases (watch_solution k e.reports (begin_test k s))) [
      | inl (u, q) ↦ elim (Bool-cases (u.judge_flag == judge_ac)) [
        | inl b ↦
            let u_ac : u.judge_flag ≡ judge_ac = ground arith in
            let a = watch_solution-IsAccepted k e.reports (begin_test k s) u h q u_ac in
            let (same, within) =
              judge_solution-ac k e.expected e.output u t (rw (q, b, run_test) at r) f in
            (IsAccepted-IsPassed k e s u a same, within)
        | inr b ↦
            let same = some_inv (rw (q, b, run_test) at r) in
            let u_ac : u.judge_flag ≡ judge_ac = ap (λ (x : Judging). x.judge_flag) same ∙ f in
            absurd (ground arith)
      ]
      | inr (inl (u, q)) ↦ absurd (some-ne-none _ (sym (rw (q, run_test) at r)))
      | inr (inr q) ↦ absurd (some-ne-none _ (sym (rw (q, run_test) at r)))
    ]

abbrev pub AllEntries : (Entry → Type 0) → List Entry → Type 0
AllEntries P [] = Unit
AllEntries P (e ∷ l) = P e × AllEntries P l

abbrev pub SomeEntry : (Entry → Type 0) → List Entry → Type 0
SomeEntry P [] = ⊥
SomeEntry P (e ∷ l) = P e ⊎ SomeEntry P l

-- An entry that is no test, or a test that has been passed.
abbrev pub IsTreated : Setting → Entry → Type 0
IsTreated k e = (¬ IsTest e.d_name) ⊎ IsPassed k e

pub pair_inv : {a c : ℕ} {s t : Judging} → ◌≡◌ {A = ℕ × Judging} (a, s) (c, t) → (a ≡ c) × (s ≡ t)
pair_inv e = (ap (λ (p : ℕ × Judging). p.0) e, ap (λ (p : ℕ × Judging). p.1) e)

-- The loop ends with JudgeAC only if it is there at each entry.
run_entries-flag :
    (k : Setting) (unset : ℕ) (entries : List Entry) (count c : ℕ) (s t : Judging)
    → run_entries k unset entries count s ≡ some (c, t)
    → t.judge_flag ≡ judge_ac
    → s.judge_flag ≡ judge_ac
unfolding run_entries
run_entries-flag k unset [] count c s t e f =
    ap (λ (x : Judging). x.judge_flag) (pair_inv (some_inv e)).1 ∙ f
run_entries-flag k unset (x ∷ entries) count c s t e f =
    elim (Bool-cases (s.judge_flag == judge_ac)) [
      | inl b ↦ ground arith
      | inr b ↦
          ap (λ (x : Judging). x.judge_flag) (pair_inv (some_inv (rw (b, run_entries) at e))).1 ∙ f
    ]

-- One entry.
run_entry-IsTreated :
    (k : Setting) (unset : ℕ) (x : Entry) (count c : ℕ) (s t : Judging)
    → k.record_call ≡ false
    → unset ≢ 0
    → run_entry k unset x count s ≡ some (c, t)
    → t.judge_flag ≡ judge_ac
    → IsWithin k s
    → IsTreated k x × IsWithin k t × ((c ≡ count) ⊎ IsPassed k x)
unfolding run_entry
run_entry-IsTreated k unset x count c s t h u e f w = elim (prepare_files-cases unset x.d_name) [
  | inl (fname, some_name, whole, q) ↦
      let b : (unset == 0) ≡ false = ground arith in
      elim (Option-cases (run_test k x s)) [
        | inl z ↦ absurd (some-ne-none _ (sym (rw (q, b, z, run_entry) at e)))
        | inr (v, z) ↦
            let same = (pair_inv (some_inv (rw (q, b, z, run_entry) at e))).1 in
            let (passed, within) =
              run_test-IsPassed k x s v h z (ap (λ (x : Judging). x.judge_flag) same ∙ f) in
            (inr passed, subst (IsWithin k) same within, inr passed)
      ]
  | inr (no_test, q) ↦
      let (same_count, same) = pair_inv (some_inv (rw (q, run_entry) at e)) in
      (inl no_test, subst (IsWithin k) same w, inl (sym same_count))
]

some_passed : {P Q : Type 0} {a b c : ℕ} → (b ≡ a) ⊎ P → (c ≡ b) ⊎ Q → (c ≡ a) ⊎ (P ⊎ Q)
some_passed (inl e) (inl f) = inl (f ∙ e)
some_passed (inl e) (inr q) = inr (inr q)
some_passed (inr p) f = inr (inl p)

pub run_entries-IsTreated :
    (k : Setting) (unset : ℕ) (entries : List Entry) (count c : ℕ) (s t : Judging)
    → k.record_call ≡ false
    → unset ≢ 0
    → run_entries k unset entries count s ≡ some (c, t)
    → t.judge_flag ≡ judge_ac
    → IsWithin k s
    → AllEntries (IsTreated k) entries
      × IsWithin k t
      × ((c ≡ count) ⊎ SomeEntry (IsPassed k) entries)
unfolding run_entries
run_entries-IsTreated k unset [] count c s t h u e f w =
    let (same_count, same) = pair_inv (some_inv e) in
    (tt, subst (IsWithin k) same w, inl (sym same_count))
run_entries-IsTreated k unset (x ∷ entries) count c s t h u e f w =
    let b : (s.judge_flag == judge_ac) ≡ true =
      ground (arith, run_entries-flag k unset (x ∷ entries) count c s t e f) in
    elim (Option-cases (run_entry k unset x count s)) [
      | inl z ↦ absurd (some-ne-none _ (sym (rw (b, z, run_entries) at e)))
      | inr ((c', s'), z) ↦
          let e' = rw (b, z, run_entries) at e in
          let f' = run_entries-flag k unset entries c' c s' t e' f in
          let (treated, within, counted) = run_entry-IsTreated k unset x count c' s s' h u z f' w in
          let (rest, within', counted') =
            run_entries-IsTreated k unset entries c' c s' t h u e' f within in
          ((treated, rest), within', some_passed counted counted')
    ]
