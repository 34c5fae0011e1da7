-- ===== src/Watch/Verdicts.antt =====
-- What a verdict of watch_solution says of the report at which it ended.
use run_server.Base.{ℕ, ◌+◌, ◌*◌, ◌≤◌, ◌<◌, ◌≡◌, ◌≢◌, true, arith}
use run_server.Verdict.{judge_ac, std_mb}
use run_server.Watch.{
  Report, Judging, Setting, stop, millis, signal_verdict, check_call, check_report, wifexited,
  wexitstatus, wtermsig,
}

-- A round that ends the loop without a new verdict has seen the solution exit within its limits.
pub record IsExit (k : Setting) (r : Report) (s t : Judging) : Type 0 where
  pub exited : wifexited r.status ≡ true
  pub in_memory : t.topmemory ≤ k.mem_lmt * std_mb
  pub in_time : s.usedtime + millis r.ruse < k.time_lmt * 1000
  pub unchanged : t ≡ s

signal_verdict-ne : (sig : ℕ) → signal_verdict sig ≢ judge_ac
unfolding signal_verdict
signal_verdict-ne sig e = ground arith

pub check_report-IsExit :
    (k : Setting) (r : Report) (s t : Judging)
    → check_report k r s ≡ stop t
    → t.judge_flag ≡ judge_ac
    → IsExit k r s t
unfolding check_report check_call
check_report-IsExit k r s t e f =
    ground (arith, signal_verdict-ne (wexitstatus r.status), signal_verdict-ne (wtermsig r.status))
