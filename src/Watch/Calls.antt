-- ===== src/Watch/Calls.antt =====
-- What a solution has done that watch_solution lets through.
use run_server.Base.{
  ℕ, zero, suc, ◌+◌, ◌*◌, ◌-◌, ◌≤◌, ◌<◌, ◌≡◌, inl, inr, ◌⊎◌, refl, sym, ap, subst, ◌∙◌, true, false,
  List, [], ◌∷◌, ◌++◌, ◌==◌, ◌&&◌, if◌then◌else◌, arith,
}
use run_server.Verdict.{judge_ac, std_mb}
use run_server.Syscalls.{ℤ, pos, negsuc, is_zero, call_array_size}
use run_server.Watch.{
  Report, Judging, Setting, Round, stop, go_on, out_of_bounds, ended, millis, count_call, note_call,
  check_call, check_report, watch_round, watch_solution, wifexited, tempmemory, new_top,
  with_memory, with_time,
}
use run_server.Watch.Memory.{largest, new_top-memory}
use run_server.Watch.Verdicts.{check_report-IsExit}

abbrev pub All : (Report → Type 0) → List Report → Type 0
All P [] = Unit
All P (r ∷ l) = P r × All P l

-- The reports before the one that says that the solution has exited.
abbrev pub until_exit : List Report → List Report
until_exit [] = []
until_exit (r ∷ reports) =
    let rest = until_exit reports in if wifexited r.status then [] else r ∷ rest

-- The table has an entry for the call, which is not 0.
abbrev pub IsAllowed : (ℕ → ℤ) → Report → Type 0
IsAllowed table r = (r.reg_syscall < call_array_size) × (is_zero (table r.reg_syscall) ≡ false)

-- How often the call `v` is found at every second stop: at the first, the third and so on where `sub` is
-- 1, and at the second, the fourth and so on where it is 0.
abbrev pub counted : ℕ → ℕ → List Report → ℕ
counted v sub [] = 0
counted v sub (r ∷ l) =
    let rest = counted v (1 - sub) l in if sub == 1 && r.reg_syscall == v then suc rest else rest

-- A round that goes on with JudgeAC.
pub record IsNoted (k : Setting) (r : Report) (s t : Judging) : Type 0 where
  pub old_flag : s.judge_flag ≡ judge_ac
  pub allowed : IsAllowed s.call_counter r
  pub same_time : t.usedtime ≡ s.usedtime
  pub turned : t.sub ≡ 1 - s.sub
  pub running : wifexited r.status ≡ false
  pub new_memory : t.topmemory ≡ new_top (tempmemory k r) s.topmemory

count_call-nonzero : (z : ℤ) → is_zero (count_call z) ≡ false → is_zero z ≡ false
unfolding count_call
count_call-nonzero (pos zero) h = h
count_call-nonzero (pos (suc n)) h = refl
count_call-nonzero (negsuc n) h = refl

note_call-table :
    (k : Setting) (nr n : ℕ) (s : Judging)
    → k.record_call ≡ false
    → is_zero ((note_call k nr s).call_counter n) ≡ false
    → is_zero (s.call_counter n) ≡ false
unfolding note_call
note_call-table k nr n s h e = ground (arith, count_call-nonzero (s.call_counter nr))

pub go_on-IsNoted :
    (k : Setting) (r : Report) (s t : Judging)
    → k.record_call ≡ false
    → watch_round k r s ≡ go_on t
    → t.judge_flag ≡ judge_ac
    → IsNoted k r s t
unfolding watch_round check_report check_call note_call
go_on-IsNoted k r s t h e f = ground arith

go_on-table :
    (k : Setting) (r : Report) (s t : Judging) (n : ℕ)
    → k.record_call ≡ false
    → watch_round k r s ≡ go_on t
    → is_zero (t.call_counter n) ≡ false
    → is_zero (s.call_counter n) ≡ false
unfolding watch_round check_report check_call
go_on-table k r s t n h e z =
    ground (arith, note_call-table k r.reg_syscall n (with_memory k r s) h)

pub Round-cases :
    (x : Round)
    → ((t : Judging) × (x ≡ stop t)) ⊎ (((t : Judging) × (x ≡ go_on t)) ⊎ (x ≡ out_of_bounds))
Round-cases (stop t) = inl (t, refl)
Round-cases (go_on t) = inr (inl (t, refl))
Round-cases out_of_bounds = inr (inr refl)

All-mono :
    {P Q : Report → Type 0} (l : List Report) → ((r : Report) → P r → Q r) → All P l → All Q l
All-mono [] f h = h
All-mono (r ∷ l) f h = (f r h.0, All-mono l f h.1)

-- The run that the loop has followed to its end.
pub record IsAccepted (k : Setting) (reports : List Report) (s t : Judging) : Type 0 where
  pub last : Report
  pub rest : List Report
  pub split : reports ≡ until_exit reports ++ (last ∷ rest)
  pub allowed : All (IsAllowed s.call_counter) (until_exit reports)
  pub exited : wifexited last.status ≡ true
  pub top : t.topmemory ≡ largest k s.topmemory (until_exit reports ++ (last ∷ []))
  pub in_memory : t.topmemory ≤ k.mem_lmt * std_mb
  pub in_time : t.usedtime < k.time_lmt * 1000
  pub same_time : t.usedtime ≡ s.usedtime + millis last.ruse

pub ended_inv : {s t : Judging} → ended s ≡ ended t → s ≡ t
ended_inv e = cc

stopped :
    (k : Setting) (r : Report) (reports : List Report) (s x : Judging)
    → watch_round k r s ≡ stop x
    → x.judge_flag ≡ judge_ac
    → IsAccepted k (r ∷ reports) s (with_time r x) × (s.judge_flag ≡ judge_ac)
unfolding watch_round
stopped k r reports s x q f =
    let x_exit = check_report-IsExit k r (with_memory k r s) x q f in
    let kept : x.usedtime ≡ s.usedtime = ap (λ (u : Judging). u.usedtime) x_exit.unchanged in
    (
      record {
        last = r;
        rest = reports;
        split = rw x_exit.exited refl;
        allowed = rw x_exit.exited tt;
        exited = x_exit.exited;
        top =
            rw x_exit.exited
              (ap (λ (u : Judging). u.topmemory) x_exit.unchanged ∙ new_top-memory k r s.topmemory);
        in_memory = x_exit.in_memory;
        in_time = rw kept x_exit.in_time;
        same_time = ap (λ n. n + millis r.ruse) kept;
      },
      sym (ap (λ (u : Judging). u.judge_flag) x_exit.unchanged) ∙ f,
    )

pub watched :
    (k : Setting) (reports : List Report) (s t : Judging)
    → k.record_call ≡ false
    → watch_solution k reports s ≡ ended t
    → t.judge_flag ≡ judge_ac
    → IsAccepted k reports s t × (s.judge_flag ≡ judge_ac)
unfolding watch_solution
watched k [] s t h e f = cc
watched k (r ∷ reports) s t h e f = elim (Round-cases (watch_round k r s)) [
  | inl (x, q) ↦
      let same = ended_inv (rw (q, watch_solution) at e) in
      let x_flag : x.judge_flag ≡ judge_ac = ap (λ (u : Judging). u.judge_flag) same ∙ f in
      let a = stopped k r reports s x q x_flag in
      (subst (IsAccepted k (r ∷ reports) s) same a.0, a.1)
  | inr (inl (x, q)) ↦
      let (a, f') = watched k reports x t h (rw (q, watch_solution) at e) f in
      let n = go_on-IsNoted k r s x h q f' in
      (
        record {
          last = a.last;
          rest = a.rest;
          split = rw n.running (ap (λ l. r ∷ l) a.split);
          allowed = rw n.running (
            n.allowed,
            All-mono (until_exit reports)
                (λ r' p. (p.0, go_on-table k r s x r'.reg_syscall h q p.1)) a.allowed,
          );
          exited = a.exited;
          top = rw n.running (
              a.top
              ∙ ap (λ m. largest k m (until_exit reports ++ (a.last ∷ [])))
                  (n.new_memory ∙ new_top-memory k r s.topmemory));
          in_memory = a.in_memory;
          in_time = a.in_time;
          same_time = rw (sym n.same_time) a.same_time;
        },
        n.old_flag,
      )
  | inr (inr q) ↦ cc (rw (q, watch_solution) at e)
]

-- If watch_solution, which records no calls, ends with JudgeAC, then some report says that the solution
-- has exited; at each stop before the first such report it was at a call within the table that the table
-- allows; topmemory is the largest of what it was and of the memory that these reports show, and is
-- within the limit; and the time used, of the runs before and of this one, is below the limit.
pub watch_solution-IsAccepted :
    (k : Setting) (reports : List Report) (s t : Judging)
    → k.record_call ≡ false
    → watch_solution k reports s ≡ ended t
    → t.judge_flag ≡ judge_ac
    → IsAccepted k reports s t
watch_solution-IsAccepted k reports s t h e f = (watched k reports s t h e f).0
