-- ===== src/Tests/Judged.antt =====
-- A run of the judger on one test, and the theorems at this run.
use mathlib.Core.List.{Mem}
use run_server.Base.{
  length, length-append, inl, inr, ap, ℕ, ◌+◌, ◌*◌, ◌≤◌, ◌<◌, ◌≡◌, ◌≢◌, ◌↔◌, ◌⊎◌, refl, true, false,
  List, [], ◌∷◌, ◌++◌, some, none, arith,
}
use run_server.Verdict.{judge_ac, std_mb}
use run_server.Checker.{
  is_space, skip_spaces, pass_space, gap_step, find_from, find_next_nonspace, in_word, compare_word,
  after_gap, turn, after_word, compare_lines, compare,
}
use run_server.Syscalls.{pos, is_zero, copy_limits, init_syscalls_limits}
use run_server.Syscalls.Allowed.{allowed_calls, init_syscalls_limits-allowed}
use run_server.Watch.{
  Rusage, Report, Judging, Setting, ended, starts_with, scan_digits, scan_number, scan_lines,
  get_proc_status, get_file_size, tempmemory, new_top, millis, signal_verdict, count_call,
  note_call, check_call, check_report, watch_round, watch_solution,
}
use run_server.Watch.Calls.{until_exit, counted, IsAccepted, watch_solution-IsAccepted}
use run_server.Watch.Ends.{watch_solution-ends, watch_solution-counted}
use run_server.Parameters.{
  int_pos, int_neg, ◌*int◌, ◌/int◌, digits_from, atoi, judged_set_value, for_lang, Params, Start,
  memory_limit, policy_command, read_limits, init_parameters, run_solution,
}
use run_server.Parameters.Bounds.{
  IsLimited, init_parameters-IsLimited, run_solution-limits, run_solution-address_space,
}
use run_server.Compiler.{compile}
use run_server.Compiler.Outcomes.{IsBuilt, compile-IsBuilt}
use run_server.Judger.{
  judge_solution, same_text, in_ext, test_files, prepare_files, Entry, begin_test, run_test,
  run_entry, run_entries, Result, exit_code, report, judging, printed, Machine, setting, run, main,
}
use run_server.Judger.FileNames.{IsTest, prepare_files-cases}
use run_server.Judger.Accepted.{IsTreated, IsPassed, AllEntries, SomeEntry}
use run_server.Judger.Results.{main-accepts}
use run_server.Judger.Ends.{main-prints}
use run_server.Judger.ExitCodes.{IsExitCode, main-IsExitCode}

abbrev machine : Machine
machine = record { unset = 1; page_size = 4096; strsignal = λ n. 10; call_error = λ n. 48 }

abbrev argv : List (List ℕ)
argv =
    (b'r' ∷ [])
    ∷ (b'1' ∷ [])
    ∷ (b'2' ∷ [])
    ∷ (b'6' ∷ b'5' ∷ b'5' ∷ b'3' ∷ b'6' ∷ [])
    ∷ (b'.' ∷ [])
    ∷ []

abbrev params : Params
params = record { lang = pos 1; time_lmt = 2; mem_lmt = 512; work_dir = b'.' ∷ [] }

abbrev some_usage : Rusage
some_usage = record {
  utime_sec = 0;
  utime_usec = 3000;
  stime_sec = 0;
  stime_usec = 1500;
  minflt = 20;
}

-- "VmPeak:", a tab and "1024 kB".
abbrev status_line : List ℕ
status_line =
    b'V' ∷ b'm' ∷ b'P' ∷ b'e' ∷ b'a' ∷ b'k' ∷ b':' ∷ 9 ∷ b'1' ∷ b'0' ∷ b'2' ∷ b'4' ∷ b' ' ∷ b'k'
    ∷ []

abbrev report_of : ℕ → ℕ → Report
report_of status nr = record {
  status = status;
  ruse = some_usage;
  proc_status = some (status_line ∷ []);
  error_size = 0;
  user_size = some 3;
  out_size = some 3;
  reg_syscall = nr;
}

-- Stopped by SIGTRAP behind execve, and at the two stops of `time`; then exited with code 0.
abbrev stops : List Report
stops = report_of 1407 59 ∷ report_of 1407 201 ∷ report_of 1407 201 ∷ []

abbrev reports : List Report
reports = stops ++ (report_of 0 0 ∷ [])

abbrev ok_text : List ℕ
ok_text = b'o' ∷ b'k' ∷ 10 ∷ []

abbrev entries : List Entry
entries =
    record { d_name = b'.' ∷ []; reports = []; expected = none; output = none }
    ∷ record {
      d_name = b'1' ∷ in_ext;
      reports = reports;
      expected = some ok_text;
      output = some ok_text;
    }
    ∷ []

abbrev result : Result
result = record { judge_flag = judge_ac; usedtime = 4; topmemory = 1048576; exit_code = 0 }

started : init_parameters argv ≡ Start.started params
unfolding init_parameters read_limits atoi digits_from int_pos int_neg ◌*int◌ ◌/int◌ memory_limit
    for_lang policy_command judged_set_value is_space
started = refl

ran : run (setting machine params) 1 (some entries) ≡ printed result
unfolding run run_entries run_entry run_test prepare_files same_text judge_solution report exit_code
    init_syscalls_limits copy_limits watch_solution watch_round check_report check_call note_call
    count_call signal_verdict tempmemory new_top millis get_proc_status get_file_size scan_lines
    scan_number scan_digits starts_with is_space compare compare_lines after_word turn after_gap
    compare_word find_next_nonspace find_from gap_step pass_space skip_spaces in_word
ran = refl

printed_ac : main machine argv (some entries) ≡ printed result
unfolding main
printed_ac = rw (started, main) ran

main-accepts_example :
    (p : Params) × (init_parameters argv ≡ Start.started p)
    × AllEntries (IsTreated (setting machine p)) entries
    × SomeEntry (IsPassed (setting machine p)) entries
    × (4 ≤ p.time_lmt * 1000)
    × (1048576 ≤ p.mem_lmt * std_mb)
main-accepts_example = main-accepts machine argv entries result (λ e. cc) printed_ac refl

main-IsExitCode_example : IsExitCode result
main-IsExitCode_example = main-IsExitCode machine argv entries result printed_ac

abbrev k : Setting
k = setting machine params

abbrev test_start : Judging
test_start = begin_test k judging

watched :
    (t : Judging) × (watch_solution k reports test_start ≡ ended t) × (t.judge_flag ≡ judge_ac)
unfolding init_syscalls_limits copy_limits watch_solution watch_round check_report check_call
    note_call count_call signal_verdict tempmemory new_top millis get_proc_status get_file_size
    scan_lines scan_number scan_digits starts_with is_space
watched = (_, refl, refl)

watch_solution-IsAccepted_example : IsAccepted k reports test_start watched.0
watch_solution-IsAccepted_example =
    watch_solution-IsAccepted k reports test_start watched.0 refl watched.1 watched.2

time_twice : test_start.call_counter 201 ≡ pos 2
unfolding init_syscalls_limits copy_limits
time_twice = refl

watch_solution-counted_example : counted 201 0 (until_exit reports) ≤ 2
watch_solution-counted_example =
    watch_solution-counted k reports test_start watched.0 201 2 refl watched.1 watched.2 time_twice

watch_solution-ends_example :
    (t : Judging) × (watch_solution k (stops ++ (report_of 9 0 ∷ [])) test_start ≡ ended t)
watch_solution-ends_example =
    watch_solution-ends k stops [] (report_of 9 0) test_start (omega arith) refl

init_parameters-IsLimited_example : IsLimited params
init_parameters-IsLimited_example = init_parameters-IsLimited argv params started

run_solution-limits_example :
    (params.time_lmt * 1000 < 500 + (run_solution params 500).cpu * 1000)
    × ((run_solution params 500).cpu ≤ params.time_lmt + 1)
run_solution-limits_example =
    run_solution-limits params 500 (init_parameters-IsLimited argv params started) (omega arith)

run_solution-address_space_example :
    (run_solution params 0).address_space
    ≡ some (some (pos (512 * 1572864)), some (pos (512 * 2097152)))
run_solution-address_space_example =
    run_solution-address_space params 0 (init_parameters-IsLimited argv params started) refl

init_syscalls_limits-allowed_example :
    (is_zero (init_syscalls_limits false 1 10) ≡ false) ↔ Mem 10 (allowed_calls 1)
init_syscalls_limits-allowed_example = init_syscalls_limits-allowed 1 10

prepare_files-cases_example :
    ((fname : List ℕ) × (fname ≢ [])
      × ((b'1' ∷ in_ext) ≡ fname ++ in_ext)
      × (prepare_files 1 (b'1' ∷ in_ext) ≡ (1, some (test_files fname))))
    ⊎ ((¬ IsTest (b'1' ∷ in_ext)) × (prepare_files 1 (b'1' ∷ in_ext) ≡ (0, none)))
prepare_files-cases_example = prepare_files-cases 1 (b'1' ∷ in_ext)

number_one : atoi (b'1' ∷ []) ≡ some (pos 1)
unfolding atoi digits_from int_pos is_space
number_one = refl

compile-IsBuilt_example :
    (compile true (λ arguments. some 256) ((b'c' ∷ []) ∷ (b'1' ∷ []) ∷ []) ≡ some 0)
    ↔ IsBuilt true (λ arguments. some 256) (pos 1)
compile-IsBuilt_example =
    compile-IsBuilt true (λ arguments. some 256) (b'c' ∷ []) (b'1' ∷ []) [] (pos 1) number_one

-- The directory itself is no test.
dot_is_none : ¬ IsTest (b'.' ∷ [])
dot_is_none (fname, some_name, whole) =
    let lengths : 1 ≡ length (fname ++ in_ext) = ap (length {0}) whole in
    omega (arith, lengths, length-append fname in_ext)

main-prints_example : (r : Result) × (main machine argv (some entries) ≡ printed r)
main-prints_example = main-prints machine argv params entries started (
  inl dot_is_none,
  (
    inr (record {
      before = stops;
      last = report_of 0 0;
      after = [];
      split = refl;
      in_table = omega arith;
      over = refl;
    }),
    tt,
  ),
)
