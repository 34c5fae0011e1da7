-- ===== src/Syscalls.antt =====
-- Cjudger/runner.cc and okcalls.h: the table of the system calls that a solution may make, on
-- x86-64, with the numbers of the calls as sys/syscall.h defines them there.
pub mod Allowed
use run_server.Base.{
  ℕ, zero, suc, Bool, true, false, List, [], ◌∷◌, leb, ◌==◌, if◌then◌else◌, update,
}
use run_server.Verdict.{lang_cc, lang_java}

-- An `int`.
pub data ℤ : Type 0 where
  pos : ℕ → ℤ
  negsuc : ℕ → ℤ

abbrev pub is_zero : ℤ → Bool
is_zero (pos zero) = true
is_zero (pos (suc n)) = false
is_zero (negsuc n) = false

-- `HOJ_MAX_LIMIT`, that is -1.
abbrev pub hoj_max_limit : ℤ
hoj_max_limit = negsuc 0

abbrev pub call_array_size : ℕ
call_array_size = 512

-- `LANG_CV` and `LANG_JV`; the array behind the entries is not read.
abbrev pub lang_cv : List ℕ
lang_cv =
    0 ∷ 1 ∷ 5 ∷ 9 ∷ 11 ∷ 12 ∷ 21 ∷ 59 ∷ 63 ∷ 89 ∷ 158 ∷ 231 ∷ 8 ∷ 201 ∷ 0 ∷ 63 ∷ 1 ∷ 2 ∷ 3 ∷ 59 ∷ 21
    ∷ 12 ∷ 11 ∷ 10 ∷ 9 ∷ 5 ∷ 205 ∷ 252 ∷ 158 ∷ 231 ∷ 0 ∷ []

abbrev pub lang_jv : List ℕ
lang_jv =
    0 ∷ 2 ∷ 3 ∷ 4 ∷ 5 ∷ 9 ∷ 10 ∷ 11 ∷ 12 ∷ 13 ∷ 14 ∷ 21 ∷ 56 ∷ 59 ∷ 89 ∷ 97 ∷ 158 ∷ 202 ∷ 218 ∷ 231
    ∷ 273 ∷ 257 ∷ 61 ∷ 22 ∷ 6 ∷ 33 ∷ 8 ∷ 13 ∷ 16 ∷ 111 ∷ 110 ∷ 39 ∷ 79 ∷ 72 ∷ 217 ∷ 97 ∷ 14 ∷ 202
    ∷ 0 ∷ 9 ∷ 4 ∷ 2 ∷ 3 ∷ 59 ∷ 21 ∷ 12 ∷ 89 ∷ 11 ∷ 3 ∷ 63 ∷ 56 ∷ 63 ∷ 10 ∷ 13 ∷ 97 ∷ 5 ∷ 102 ∷ 104
    ∷ 107 ∷ 108 ∷ 205 ∷ 218 ∷ 273 ∷ 231 ∷ 158 ∷ 0 ∷ []

abbrev unlimited : ℕ → List ℤ → List ℤ
unlimited zero l = l
unlimited (suc n) l = hoj_max_limit ∷ unlimited n l

-- `LANG_CC`, up to the 0 that ends it: `SYS_time` may be called twice.
abbrev pub lang_cc_limits : List ℤ
lang_cc_limits = unlimited 13 (pos 2 ∷ unlimited 2 (pos 0 ∷ []))

-- `LANG_JC`.
abbrev pub lang_jc_limits : List ℤ
lang_jc_limits = unlimited 43 (pos 0 ∷ [])

-- The loop that copies the limits, which ends at the first limit 0.
unfoldable pub copy_limits : List ℕ → List ℤ → (ℕ → ℤ) → ℕ → ℤ
copy_limits [] limits t = t
copy_limits (v ∷ vs) [] t = t
copy_limits (v ∷ vs) (c ∷ cs) t = if is_zero c then t else copy_limits vs cs (update t v c)

abbrev pub no_calls : ℕ → ℤ
no_calls n = pos 0

-- `init_syscalls_limits`.
unfoldable pub init_syscalls_limits : Bool → ℕ → ℕ → ℤ
init_syscalls_limits record_call lang =
    if record_call
    then no_calls
    else if leb lang lang_cc
    then copy_limits lang_cv lang_cc_limits no_calls
    else if lang == lang_java
    then copy_limits lang_jv lang_jc_limits no_calls
    else no_calls
