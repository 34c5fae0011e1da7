-- ===== src/Watch/Memory.antt =====
-- Cjudger/runner.cc: how much memory a report shows, apart from the way in which the code finds it.
use Prim.Native.Nat.{max}
use run_server.Base.{
  ℕ, suc, ◌*◌, ◌%◌, ◌^◌, ◌≡◌, refl, ap, ◌∙◌, inl, inr, List, [], ◌∷◌, Option, none, some,
  Bool-cases, Option-cases, ltb, leb, ◌==◌, ◌&&◌, if◌then◌else◌, drop, length, arith,
}
use run_server.Verdict.{lang_java}
use run_server.Checker.{is_space}
use run_server.Parameters.{digits_from}
use run_server.Watch.{
  Report, Setting, starts_with, scan_digits, scan_number, scan_lines, get_proc_status, vm_peak,
  tempmemory, new_top,
}

-- What follows a prefix of a text.
abbrev pub strip : List ℕ → List ℕ → Option (List ℕ)
strip [] s = some s
strip (c ∷ mark) [] = none
strip (c ∷ mark) (d ∷ s) = if c == d then strip mark s else none

-- The number behind the white space at the start of a text.
abbrev pub number : List ℕ → Option ℕ
number [] = none
number (c ∷ s) =
    let rest = number s in
    if is_space c
    then rest
    else if leb b'0' c && leb c b'9'
    then some (digits_from (c ∷ s) 0)
    else none

-- The number of a line "VmPeak:", with a character in front of it.
abbrev pub line_peak : List ℕ → Option ℕ
line_peak line = elim (strip vm_peak line) [ none ↦ none | some s ↦ number (drop 1 s) ]

-- The number of the last such line.
abbrev pub peak_of : List (List ℕ) → Option ℕ
peak_of [] = none
peak_of (line ∷ lines) = elim (peak_of lines) [ none ↦ line_peak line | some n ↦ some n ]

-- The bytes of the pages that have been faulted in.
abbrev pub fault_bytes : Setting → Report → ℕ
fault_bytes k r = r.ruse.minflt * k.page_size

-- The peak, which is in KiB, in bytes, if there is one; it counts as none where 32 bits show 0 bytes.
abbrev pub peak_or : ℕ → Option ℕ → ℕ
peak_or faults none = faults
peak_or faults (some n) = if n * 1024 % 2 ^ 32 == 0 then faults else n * 1024

-- The bytes that a solution uses: for Java those of its page faults; for any other language the peak
-- of its virtual memory, and those of its page faults where no peak is listed.
abbrev pub used_bytes : Setting → Report → ℕ
used_bytes k r = if k.lang == lang_java then fault_bytes k r else elim r.proc_status [
  | none ↦ fault_bytes k r
  | some lines ↦ peak_or (fault_bytes k r) (peak_of lines)
]

-- They are kept in an int; where that is negative, it counts as nothing.
abbrev pub memory : Setting → Report → ℕ
memory k r = let n = used_bytes k r % 2 ^ 32 in if ltb n (2 ^ 31) then n else 0

-- The largest of `top` and of the memory of each report.
abbrev pub largest : Setting → ℕ → List Report → ℕ
largest k top [] = top
largest k top (r ∷ l) = largest k (max top (memory k r)) l

abbrev or_else : Option ℕ → ℕ → ℕ
or_else none ret = ret
or_else (some n) ret = n

scan_digits-digits_from : (s : List ℕ) (n : ℕ) → scan_digits s n ≡ digits_from s n
unfolding scan_digits digits_from
scan_digits-digits_from [] n = refl
scan_digits-digits_from (c ∷ s) n = elim (Bool-cases (leb b'0' c && leb c b'9')) [
  | inl e ↦ rw e (scan_digits-digits_from s _)
  | inr e ↦ rw e refl
]

scan_number-number : (s : List ℕ) (ret : ℕ) → scan_number s ret ≡ or_else (number s) ret
unfolding scan_number
scan_number-number [] ret = refl
scan_number-number (c ∷ s) ret = elim (Bool-cases (is_space c)) [
  | inl e ↦ rw e (scan_number-number s ret)
  | inr e ↦ elim (Bool-cases (leb b'0' c && leb c b'9')) [
    | inl d ↦ rw (e, d) (scan_digits-digits_from (c ∷ s) 0)
    | inr d ↦ rw (e, d) refl
  ]
]

scan_step :
    (mark line : List ℕ) (ret : ℕ)
    → (if starts_with mark line then scan_number (drop (suc (length mark)) line) ret else ret)
      ≡ or_else (elim (strip mark line) [ none ↦ none | some s ↦ number (drop 1 s) ]) ret
unfolding starts_with
scan_step [] line ret = scan_number-number (drop 1 line) ret
scan_step (c ∷ mark) [] ret = refl
scan_step (c ∷ mark) (d ∷ line) ret = elim (Bool-cases (c == d)) [
  | inl e ↦ rw e (scan_step mark line ret)
  | inr e ↦ rw e refl
]

or_else-peak :
    (p : Option ℕ) (q : Option ℕ) (ret : ℕ)
    → or_else p (or_else q ret) ≡ or_else (elim p [ none ↦ q | some n ↦ some n ]) ret
or_else-peak none q ret = refl
or_else-peak (some n) q ret = refl

scan_lines-peak_of :
    (lines : List (List ℕ)) (ret : ℕ) → scan_lines vm_peak lines ret ≡ or_else (peak_of lines) ret
unfolding scan_lines
scan_lines-peak_of [] ret = refl
scan_lines-peak_of (line ∷ lines) ret =
    scan_lines-peak_of lines _
    ∙ ap (or_else (peak_of lines)) (scan_step vm_peak line ret)
    ∙ or_else-peak (peak_of lines) (line_peak line) ret

vm_memory-peak_or :
    (p : Option ℕ) (faults : ℕ)
    → (if or_else p 0 * 1024 % 4294967296 == 0
        then faults % 4294967296
        else or_else p 0 * 1024 % 4294967296)
      ≡ peak_or faults p % 2 ^ 32
vm_memory-peak_or none faults = ground arith
vm_memory-peak_or (some n) faults = ground arith

tempmemory-used_bytes : (k : Setting) (r : Report) → tempmemory k r ≡ used_bytes k r % 2 ^ 32
unfolding tempmemory get_proc_status
tempmemory-used_bytes k r = elim (Bool-cases (k.lang == lang_java)) [
  | inl e ↦ rw e (omega arith)
  | inr e ↦ elim (Option-cases r.proc_status) [
    | inl q ↦ rw (e, q) (ground arith)
    | inr (lines, q) ↦
        rw (e, q, scan_lines-peak_of lines 0) (vm_memory-peak_or (peak_of lines) (fault_bytes k r))
  ]
]

pub new_top-memory :
    (k : Setting) (r : Report) (top : ℕ) → new_top (tempmemory k r) top ≡ max top (memory k r)
unfolding new_top
new_top-memory k r top = rw (tempmemory-used_bytes k r) (ground arith)
