-- ===== src/Judger.antt =====
-- Cjudger/runner.cc: judge_solution, prepare_files and main.
pub mod FileNames
pub mod Accepted
pub mod Results
pub mod ExitCodes
pub mod Ends
use run_server.Base.{
  ℕ, zero, suc, ◌+◌, ◌*◌, ◌-◌, Bool, true, false, List, [], ◌∷◌, ◌++◌, Option, none, some, ltb, leb,
  ◌==◌, ◌&&◌, ◌||◌, not, if◌then◌else◌, ◌>>=◌, length, drop, take,
}
use run_server.Verdict.{judge_ac, judge_tle, judge_mle, judge_na, std_mb}
use run_server.Checker.{compare}
use run_server.Syscalls.{ℤ, pos, negsuc, no_calls, init_syscalls_limits}
use run_server.Watch.{
  Report, Judging, Setting, Watched, ended, waiting, failed, flag, watch_solution,
}
use run_server.Parameters.{Params, Start, init_parameters}

-- `judge_solution`, on the contents of the two files.
unfoldable pub judge_solution :
    Setting → Option (List ℕ) → Option (List ℕ) → Judging → Option Judging
judge_solution k outfile userfile s =
    if ltb (k.time_lmt * 1000) s.usedtime
    then some (flag judge_tle s)
    else if ltb (k.mem_lmt * std_mb) s.topmemory
    then some (flag judge_mle s)
    else compare outfile userfile >>= λ v. some (flag v s)

-- `strcmp(s, t) == 0`.
unfoldable pub same_text : List ℕ → List ℕ → Bool
same_text [] [] = true
same_text [] (d ∷ t) = false
same_text (c ∷ s) [] = false
same_text (c ∷ s) (d ∷ t) = c == d && same_text s t

-- ".in", ".out" and "user.out".
abbrev pub in_ext : List ℕ
in_ext = b'.' ∷ b'i' ∷ b'n' ∷ []

abbrev pub out_ext : List ℕ
out_ext = b'.' ∷ b'o' ∷ b'u' ∷ b't' ∷ []

abbrev pub user_out : List ℕ
user_out = b'u' ∷ b's' ∷ b'e' ∷ b'r' ∷ out_ext

pub record Files : Type 0 where
  pub infile : List ℕ
  pub outfile : List ℕ
  pub userfile : List ℕ

abbrev pub test_files : List ℕ → Files
test_files fname = record {
  infile = fname ++ in_ext;
  outfile = fname ++ out_ext;
  userfile = user_out;
}

-- `prepare_files`, with what it returns. After it has written the names it returns nothing, so that
-- the caller finds some number, `unset`.
unfoldable pub prepare_files : ℕ → List ℕ → ℕ × Option Files
prepare_files unset filename =
    let l = length filename in
    if leb l 3 || not (same_text (drop (l - 3) filename) in_ext)
    then (0, none)
    else (unset, some (test_files (take (l - 3) filename)))

-- An entry of the directory, with what happens when a solution runs on it: the reports, and the
-- contents of the expected and the actual output afterwards.
pub record Entry : Type 0 where
  pub d_name : List ℕ
  pub reports : List Report
  pub expected : Option (List ℕ)
  pub output : Option (List ℕ)

-- `init_syscalls_limits`, and `sub = 0` in watch_solution.
abbrev pub begin_test : Setting → Judging → Judging
begin_test k s = record s { call_counter = init_syscalls_limits k.record_call k.lang; sub = 0 }

abbrev pub judge_watched : Setting → Entry → Watched → Option Judging
judge_watched k e (ended t) =
    if t.judge_flag == judge_ac then judge_solution k e.expected e.output t else some t
judge_watched k e (waiting t) = none
judge_watched k e failed = none

-- The parent's part of the loop body; `none` if the solution does not end.
unfoldable pub run_test : Setting → Entry → Judging → Option Judging
run_test k e s = judge_watched k e (watch_solution k e.reports (begin_test k s))

-- The loop body, with `count`.
unfoldable pub run_entry : Setting → ℕ → Entry → ℕ → Judging → Option (ℕ × Judging)
run_entry k unset e count s =
    if (prepare_files unset e.d_name).0 == 0
    then some (count, s)
    else run_test k e s >>= λ t. some (count + 1, t)

-- The loop over the directory.
unfoldable pub run_entries : Setting → ℕ → List Entry → ℕ → Judging → Option (ℕ × Judging)
run_entries k unset [] count s = some (count, s)
run_entries k unset (e ∷ entries) count s = elim (s.judge_flag == judge_ac) [
  | true ↦ run_entry k unset e count s >>= λ r. run_entries k unset entries r.0 r.1
  | false ↦ some (count, s)
]

-- What is printed, and the exit code.
pub record Result : Type 0 where
  pub judge_flag : ℕ
  pub usedtime : ℕ
  pub topmemory : ℕ
  pub exit_code : ℕ

unfoldable pub exit_code : ℕ → ℕ
exit_code judge_flag =
    if judge_flag == judge_ac then 0 else if judge_flag == judge_na then 3 else judge_flag

-- The end of `main`.
unfoldable pub report : Setting → ℕ → Judging → Result
report k count s =
    let v = if count == 0 then judge_na else s.judge_flag in
    record {
      judge_flag = v;
      usedtime = if v == judge_tle then k.time_lmt * 1000 else s.usedtime;
      topmemory = s.topmemory;
      exit_code = exit_code v;
    }

abbrev pub judging : Judging
judging = record {
  judge_flag = judge_ac;
  topmemory = 0;
  usedtime = 0;
  sub = 0;
  call_counter = no_calls;
  reported = 0;
}

-- The process ends with a result or without, or does not end, or its behaviour is undefined.
pub data Exit : Type 0 where
  printed : Result → Exit
  exited : ℕ → Exit
  no_exit : Exit

-- What the run depends on besides the arguments: the number for `unset`, and the page size and the
-- lengths of error texts.
pub record Machine : Type 0 where
  pub unset : ℕ
  pub page_size : ℕ
  pub strsignal : ℕ → ℕ
  pub call_error : ℕ → ℕ

-- No test of the code tells two negative languages from 0.
abbrev pub lang_number : ℤ → ℕ
lang_number (pos n) = n
lang_number (negsuc n) = 0

abbrev pub setting : Machine → Params → Setting
setting m p = record {
  time_lmt = p.time_lmt;
  mem_lmt = p.mem_lmt;
  lang = lang_number p.lang;
  record_call = false;
  page_size = m.page_size;
  strsignal = m.strsignal;
  call_error = m.call_error;
}

abbrev pub printed_result : Setting → Option (ℕ × Judging) → Exit
printed_result k none = no_exit
printed_result k (some (count, s)) = printed (report k count s)

-- `main` behind init_parameters; `none` if the directory cannot be entered or read.
unfoldable pub run : Setting → ℕ → Option (List Entry) → Exit
run k unset none = exited judge_na
run k unset (some entries) = printed_result k (run_entries k unset entries 0 judging)

unfoldable pub main : Machine → List (List ℕ) → Option (List Entry) → Exit
main m argv dir = elim (init_parameters argv) [
  | Start.exit n ↦ exited n
  | Start.started p ↦ run (setting m p) m.unset dir
  | Start.undefined ↦ no_exit
]
