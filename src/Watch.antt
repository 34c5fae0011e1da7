-- ===== src/Watch.antt =====
-- Cjudger/runner.cc: watch_solution, which follows a solution from one report of wait4 to the next.
-- The files, the memory and the registers that it looks at then are part of the report.
pub mod Memory
pub mod Verdicts
pub mod Calls
pub mod Ends
use run_server.Base.{
  ℕ, zero, suc, ◌+◌, ◌*◌, ◌/◌, ◌%◌, ◌^◌, ◌-◌, Bool, true, false, List, [], ◌∷◌, Option, none, some,
  ltb, leb, ◌==◌, ◌&&◌, ◌||◌, not, if◌then◌else◌, update, length, drop,
}
use run_server.Verdict.{judge_re, judge_tle, judge_mle, judge_ole, lang_java, std_mb}
use run_server.Checker.{is_space}
use run_server.Syscalls.{ℤ, pos, negsuc, is_zero, call_array_size}

-- `struct rusage`.
pub record Rusage : Type 0 where
  pub utime_sec : ℕ
  pub utime_usec : ℕ
  pub stime_sec : ℕ
  pub stime_usec : ℕ
  pub minflt : ℕ

-- `get_file_size`, where `none` is a file that stat does not find.
unfoldable pub get_file_size : Option ℕ → ℕ
get_file_size none = 0
get_file_size (some st_size) = st_size

-- What is found when wait4 returns: the status and the usage; the lines of /proc/pid/status, if it can
-- be opened; the bytes that the solution has written to error.out; the sizes of its output and of the
-- expected one; and the number of the system call.
pub record Report : Type 0 where
  pub status : ℕ
  pub ruse : Rusage
  pub proc_status : Option (List (List ℕ))
  pub error_size : ℕ
  pub user_size : Option ℕ
  pub out_size : Option ℕ
  pub reg_syscall : ℕ

-- The status of Linux: a signal in the low 7 bits, or 0 after exit, or 127 when stopped; the exit
-- code or the signal that stopped the process in the next 8.
abbrev pub wifexited : ℕ → Bool
wifexited status = status % 128 == 0

abbrev pub wexitstatus : ℕ → ℕ
wexitstatus status = status / 256 % 256

abbrev pub wtermsig : ℕ → ℕ
wtermsig status = status % 128

abbrev pub wifsignaled : ℕ → Bool
wifsignaled status = not (status % 128 == 0) && not (status % 128 == 127)

abbrev pub sigkill : ℕ
sigkill = 9

abbrev pub sigalrm : ℕ
sigalrm = 14

abbrev pub sigchld : ℕ
sigchld = 17

abbrev pub sigxcpu : ℕ
sigxcpu = 24

abbrev pub sigxfsz : ℕ
sigxfsz = 25

-- `strncmp(buf, mark, strlen(mark)) == 0`.
unfoldable pub starts_with : List ℕ → List ℕ → Bool
starts_with [] buf = true
starts_with (c ∷ mark) [] = false
starts_with (c ∷ mark) (d ∷ buf) = c == d && starts_with mark buf

-- `sscanf(buf, "%d", &ret)` on a text without a sign.
unfoldable pub scan_digits : List ℕ → ℕ → ℕ
scan_digits [] n = n
scan_digits (c ∷ s) n = if leb b'0' c && leb c b'9' then scan_digits s (n * 10 + (c - b'0')) else n

unfoldable pub scan_number : List ℕ → ℕ → ℕ
scan_number [] ret = ret
scan_number (c ∷ s) ret =
    if is_space c
    then scan_number s ret
    else if leb b'0' c && leb c b'9'
    then scan_digits (c ∷ s) 0
    else ret

-- The loop of `get_proc_status` over the lines.
unfoldable pub scan_lines : List ℕ → List (List ℕ) → ℕ → ℕ
scan_lines mark [] ret = ret
scan_lines mark (buf ∷ lines) ret =
    scan_lines mark lines
      (if starts_with mark buf then scan_number (drop (suc (length mark)) buf) ret else ret)

unfoldable pub get_proc_status : Option (List (List ℕ)) → List ℕ → ℕ
get_proc_status none mark = 0
get_proc_status (some lines) mark = scan_lines mark lines 0

-- "VmPeak:".
abbrev pub vm_peak : List ℕ
vm_peak = b'V' ∷ b'm' ∷ b'P' ∷ b'e' ∷ b'a' ∷ b'k' ∷ b':' ∷ []

-- An `int` of 32 bits, as its bits.
abbrev pub int32 : ℕ → ℕ
int32 n = n % 4294967296

-- `temp > top`, for a `top` that is not negative: a negative `temp` is no larger.
abbrev pub int_gt : ℕ → ℕ → Bool
int_gt temp top = ltb temp 2147483648 && ltb top temp

-- The variables of the judger that change, with the bytes that it has written to error.out.
pub record Judging : Type 0 where
  pub judge_flag : ℕ
  pub topmemory : ℕ
  pub usedtime : ℕ
  pub sub : ℕ
  pub call_counter : ℕ → ℤ
  pub reported : ℕ

-- `print_runtimeerror`, on an error of `n` characters.
abbrev pub print_runtimeerror : ℕ → Judging → Judging
print_runtimeerror n s = record s { reported = s.reported + (15 + n) }

abbrev pub flag : ℕ → Judging → Judging
flag v s = record s { judge_flag = v }

-- The milliseconds of a usage.
unfoldable pub millis : Rusage → ℕ
millis u = u.utime_sec * 1000 + u.utime_usec / 1000 + (u.stime_sec * 1000 + u.stime_usec / 1000)

-- `switch (sig)`.
unfoldable pub signal_verdict : ℕ → ℕ
signal_verdict sig =
    if sig == sigchld || sig == sigalrm || sig == sigkill || sig == sigxcpu
    then judge_tle
    else if sig == sigxfsz
    then judge_ole
    else judge_re

unfoldable pub count_call : ℤ → ℤ
count_call (pos zero) = pos zero
count_call (pos (suc n)) = pos n
count_call (negsuc n) = negsuc n

-- A round ends the loop, goes on, or reads behind the end of `call_counter`.
pub data Round : Type 0 where
  stop : Judging → Round
  go_on : Judging → Round
  out_of_bounds : Round

-- The settings of a run, with the page size and the lengths of the error texts.
pub record Setting : Type 0 where
  pub time_lmt : ℕ
  pub mem_lmt : ℕ
  pub lang : ℕ
  pub record_call : Bool
  pub page_size : ℕ
  pub strsignal : ℕ → ℕ
  pub call_error : ℕ → ℕ

-- `get_page_fault_mem`.
abbrev pub get_page_fault_mem : ℕ → Rusage → ℕ
get_page_fault_mem page_size ruse = int32 (ruse.minflt * page_size)

abbrev pub vm_memory : ℕ → Report → ℕ → ℕ
vm_memory page_size r temp = if temp == 0 then get_page_fault_mem page_size r.ruse else temp

unfoldable pub tempmemory : Setting → Report → ℕ
tempmemory k r =
    if k.lang == lang_java
    then get_page_fault_mem k.page_size r.ruse
    else vm_memory k.page_size r (int32 (get_proc_status r.proc_status vm_peak * 1024))

unfoldable pub new_top : ℕ → ℕ → ℕ
new_top temp top = if int_gt temp top then temp else top

-- The exit codes with which a solution goes on.
abbrev pub goes_on : ℕ → ℕ → Bool
goes_on lang exitcode = (lang == lang_java && exitcode == 17) || (exitcode == 5 || exitcode == 0)

abbrev pub signalled : Setting → ℕ → Judging → Judging
signalled k sig s = print_runtimeerror (k.strsignal sig) (flag (signal_verdict sig) s)

-- The test of the system call, and what it changes but `sub`.
unfoldable pub note_call : Setting → ℕ → Judging → Judging
note_call k nr s =
    if not k.record_call && is_zero (s.call_counter nr)
    then print_runtimeerror (k.call_error nr) (flag judge_re s)
    else if k.record_call
    then record s { call_counter = update s.call_counter nr (pos 1) }
    else if s.sub == 1
    then record s { call_counter = update s.call_counter nr (count_call (s.call_counter nr)) }
    else s

abbrev pub flip : Judging → Judging
flip s = record s { sub = 1 - s.sub }

unfoldable pub check_call : Setting → ℕ → Judging → Round
check_call k nr s =
    if leb call_array_size nr then out_of_bounds else go_on (flip (note_call k nr s))

-- The rest of a round, with `topmemory` brought up to date.
unfoldable pub check_report : Setting → Report → Judging → Round
check_report k r s =
    if ltb (k.mem_lmt * std_mb) s.topmemory
    then stop (flag judge_mle s)
    else if leb (k.time_lmt * 1000) (s.usedtime + millis r.ruse)
    then stop (flag judge_tle s)
    else if wifexited r.status
    then stop s
    else if not (r.error_size + s.reported == 0)
    then stop (flag judge_re s)
    else if ltb (get_file_size r.out_size * 2 + 1024) (get_file_size r.user_size)
    then stop (flag judge_ole s)
    else if not (goes_on k.lang (wexitstatus r.status))
    then stop (signalled k (wexitstatus r.status) s)
    else if wifsignaled r.status
    then stop (signalled k (wtermsig r.status) s)
    else check_call k r.reg_syscall s

abbrev pub with_memory : Setting → Report → Judging → Judging
with_memory k r s = record s { topmemory = new_top (tempmemory k r) s.topmemory }

-- The body of the loop.
unfoldable pub watch_round : Setting → Report → Judging → Round
watch_round k r s = check_report k r (with_memory k r s)

-- How far the loop comes on a list of reports: to its end, to the next call of wait4, or to an access
-- behind the end of `call_counter`.
pub data Watched : Type 0 where
  ended : Judging → Watched
  waiting : Judging → Watched
  failed : Watched

abbrev pub with_time : Report → Judging → Judging
with_time r s = record s { usedtime = s.usedtime + millis r.ruse }

-- `watch_solution`.
unfoldable pub watch_solution : Setting → List Report → Judging → Watched
watch_solution k [] s = waiting s
watch_solution k (r ∷ reports) s = elim (watch_round k r s) [
  | stop t ↦ ended (with_time r t)
  | go_on t ↦ watch_solution k reports t
  | out_of_bounds ↦ failed
]
