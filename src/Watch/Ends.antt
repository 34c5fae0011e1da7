-- ===== src/Watch/Ends.antt =====
-- When the loop of watch_solution ends, and how often a limited call is found until then.
use run_server.Base.{
  ℕ, zero, suc, ◌-◌, ◌≤◌, ◌<◌, ◌≡◌, ◌≢◌, inl, inr, refl, sym, ap, ◌∙◌, true, false, List, [], ◌∷◌,
  ◌++◌, Bool-cases, ◌==◌, ◌&&◌, ◌||◌, if◌then◌else◌, arith,
}
use run_server.Verdict.{judge_ac}
use run_server.Syscalls.{pos, call_array_size}
use run_server.Watch.{
  Report, Judging, Setting, stop, go_on, out_of_bounds, ended, count_call, note_call, check_call,
  check_report, watch_round, watch_solution, wifexited, wifsignaled, with_memory, with_time,
}
use run_server.Watch.Calls.{
  All, until_exit, counted, Round-cases, go_on-IsNoted, ended_inv, watched,
}
use run_server.Watch.Verdicts.{check_report-IsExit}

abbrev pub IsInTable : Report → Type 0
IsInTable r = r.reg_syscall < call_array_size

round-last :
    (k : Setting) (r : Report) (s : Judging)
    → (wifexited r.status || wifsignaled r.status) ≡ true
    → (t : Judging) × (watch_round k r s ≡ stop t)
unfolding watch_round check_report check_call
round-last k r s h = elim (Round-cases (watch_round k r s)) [
  | inl found ↦ found
  | inr (inl (t, q)) ↦ absurd (ground arith)
  | inr (inr q) ↦ absurd (ground arith)
]

round-in_table :
    (k : Setting) (r : Report) (s : Judging) → IsInTable r → watch_round k r s ≢ out_of_bounds
unfolding watch_round check_report check_call
round-in_table k r s h e = ground arith

-- watch_solution ends if some report says that the solution has exited or was killed, and the calls of
-- the reports before it are within the table.
pub watch_solution-ends :
    (k : Setting) (before after : List Report) (r : Report) (s : Judging)
    → All IsInTable before
    → (wifexited r.status || wifsignaled r.status) ≡ true
    → (t : Judging) × (watch_solution k (before ++ (r ∷ after)) s ≡ ended t)
unfolding watch_solution
watch_solution-ends k [] after r s b h =
    let (t, q) = round-last k r s h in (with_time r t, rw (q, watch_solution) refl)
watch_solution-ends k (x ∷ before) after r s b h = elim (Round-cases (watch_round k x s)) [
  | inl (t, q) ↦ (with_time x t, rw (q, watch_solution) refl)
  | inr (inl (t, q)) ↦
      let (u, e) = watch_solution-ends k before after r t b.1 h in (u, rw (q, watch_solution) e)
  | inr (inr q) ↦ absurd (round-in_table k x s b.0 q)
]

-- How a call changes its limit.
go_on-count :
    (k : Setting) (r : Report) (s t : Judging) (v n : ℕ)
    → k.record_call ≡ false
    → watch_round k r s ≡ go_on t
    → t.judge_flag ≡ judge_ac
    → s.call_counter v ≡ pos n
    → (t.call_counter v ≡ pos (if s.sub == 1 && r.reg_syscall == v then n - 1 else n))
      × (((s.sub == 1 && r.reg_syscall == v) ≡ true) → 1 ≤ n)
unfolding watch_round check_report check_call note_call count_call
go_on-count k r s t v zero h e f c = (ground arith, ground arith)
go_on-count k r s t v (suc n) h e f c = (ground arith, λ b. omega arith)

counted-step :
    (k : Setting) (r : Report) (l : List Report) (s t : Judging) (v n m : ℕ)
    → t.sub ≡ 1 - s.sub
    → (((s.sub == 1 && r.reg_syscall == v) ≡ true) → 1 ≤ n)
    → m ≡ (if s.sub == 1 && r.reg_syscall == v then n - 1 else n)
    → counted v t.sub l ≤ m
    → counted v s.sub (r ∷ l) ≤ n
counted-step k r l s t v n m turned some_left e h =
    elim (Bool-cases (s.sub == 1 && r.reg_syscall == v)) [
      | inl b ↦ rw (b, sym turned) (let one = some_left b in let less = rw b at e in omega arith)
      | inr b ↦ rw (b, sym turned) (let less = rw b at e in omega arith)
    ]

round-exited :
    (k : Setting) (r : Report) (s t : Judging)
    → watch_round k r s ≡ stop t
    → t.judge_flag ≡ judge_ac
    → wifexited r.status ≡ true
unfolding watch_round
round-exited k r s t e f = (check_report-IsExit k r (with_memory k r s) t e f).exited

-- If watch_solution, which records no calls, ends with JudgeAC, then a call with the limit n is found at
-- most n times at those stops before the exit that are counted: every second one, from the first on
-- where `sub` is 1, and from the second on where it is 0.
pub watch_solution-counted :
    (k : Setting) (reports : List Report) (s t : Judging) (v n : ℕ)
    → k.record_call ≡ false
    → watch_solution k reports s ≡ ended t
    → t.judge_flag ≡ judge_ac
    → s.call_counter v ≡ pos n
    → counted v s.sub (until_exit reports) ≤ n
unfolding watch_solution
watch_solution-counted k [] s t v n h e f c = cc
watch_solution-counted k (r ∷ reports) s t v n h e f c = elim (Round-cases (watch_round k r s)) [
  | inl (x, q) ↦
      let same = ended_inv (rw (q, watch_solution) at e) in
      let x_flag : x.judge_flag ≡ judge_ac = ap (λ (u : Judging). u.judge_flag) same ∙ f in
      rw (round-exited k r s x q x_flag) (omega arith)
  | inr (inl (x, q)) ↦
      let e' = rw (q, watch_solution) at e in
      let f' = (watched k reports x t h e' f).1 in
      let (count, some_left) = go_on-count k r s x v n h q f' c in
      let noted = go_on-IsNoted k r s x h q f' in
      rw noted.running (
        counted-step k r (until_exit reports) s x v n _ noted.turned some_left refl
          (watch_solution-counted k reports x t v _ h e' f count))
  | inr (inr q) ↦ cc (rw (q, watch_solution) at e)
]
