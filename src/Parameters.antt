-- ===== src/Parameters.antt =====
-- Cjudger/runner.cc: init_parameters, and the limits that run_solution sets.
pub mod Bounds
use run_server.Base.{
  ℕ, zero, suc, ◌+◌, ◌*◌, ◌/◌, ◌-◌, Bool, true, false, List, [], ◌∷◌, Option, none, some, ltb, leb,
  ◌==◌, ◌&&◌, ◌||◌, if◌then◌else◌, ◌>>=◌, length,
}
use run_server.Verdict.{lang_java, std_mb}
use run_server.Checker.{is_space}
use run_server.Syscalls.{ℤ, pos, negsuc}

-- An `int`, where `none` stands for an overflow.
unfoldable pub int_pos : ℕ → Option ℤ
int_pos n = if ltb n 2147483648 then some (pos n) else none

abbrev pub negate : ℕ → ℤ
negate zero = pos 0
negate (suc n) = negsuc n

unfoldable pub int_neg : ℕ → Option ℤ
int_neg n = if leb n 2147483648 then some (negate n) else none

infixl 60 ◌*int◌ ◌/int◌
-- Multiplication by a positive number, and division, which rounds towards 0.
unfoldable pub ◌*int◌ : ℤ → ℕ → Option ℤ
pos n *int k = int_pos (n * k)
negsuc n *int k = int_neg (suc n * k)

unfoldable pub ◌/int◌ : ℤ → ℕ → ℤ
pos n /int k = pos (n / k)
negsuc n /int k = negate (suc n / k)

-- `atoi`.
unfoldable pub digits_from : List ℕ → ℕ → ℕ
digits_from [] n = n
digits_from (c ∷ s) n = if leb b'0' c && leb c b'9' then digits_from s (n * 10 + (c - b'0')) else n

unfoldable pub atoi : List ℕ → Option ℤ
atoi [] = some (pos 0)
atoi (c ∷ s) =
    if is_space c
    then atoi s
    else if c == b'-'
    then int_neg (digits_from s 0)
    else if c == b'+'
    then int_pos (digits_from s 0)
    else int_pos (digits_from (c ∷ s) 0)

-- `if (x > top || x < 1) x = top`.
unfoldable pub judged_set_value : ℕ → ℤ → ℕ
judged_set_value top (pos n) = if ltb top n || ltb n 1 then top else n
judged_set_value top (negsuc n) = top

abbrev pub is_java : ℤ → Bool
is_java (pos n) = n == lang_java
is_java (negsuc n) = false

-- `java is lucky`.
unfoldable pub for_lang : ℤ → ℤ → Option ℤ
for_lang lang x = if is_java lang then x *int 2 else some x

pub record Params : Type 0 where
  pub lang : ℤ
  pub time_lmt : ℕ
  pub mem_lmt : ℕ
  pub work_dir : List ℕ

-- The process ends, goes on, or its behaviour is undefined.
pub data Start : Type 0 where
  exit : ℕ → Start
  started : Params → Start
  undefined : Start

abbrev pub or_undefined : Option Params → Start
or_undefined none = undefined
or_undefined (some p) = started p

unfoldable pub memory_limit : ℤ → Option ℤ
memory_limit kb = (kb *int 1024) >>= λ x. (x /int std_mb) *int 8

-- The command that copies java.policy, of 56 characters and `work_dir`, in the buffer of execute_cmd.
unfoldable pub policy_command : ℤ → List ℕ → Option ℕ
policy_command lang work_dir =
    if is_java lang
    then if ltb (56 + length work_dir) 512 then some (56 + length work_dir) else none
    else some 0

unfoldable pub read_limits : List ℕ → List ℕ → List ℕ → List ℕ → Option Params
read_limits arg1 arg2 arg3 arg4 = atoi arg1 >>= λ lang. atoi arg2 >>= λ time. atoi arg3 >>= λ kb.
    memory_limit kb >>= λ mem. for_lang lang time >>= λ time'. for_lang lang mem >>= λ mem'.
    policy_command lang arg4 >>= λ policy. some (record {
      lang = lang;
      time_lmt = judged_set_value 30 time';
      mem_lmt = judged_set_value 1024 mem';
      work_dir = arg4;
    })

-- `init_parameters`, on the arguments; `work_dir` has 1024 characters. With 4 arguments, argv[4] is
-- the null pointer.
unfoldable pub init_parameters : List (List ℕ) → Start
init_parameters (arg0 ∷ arg1 ∷ arg2 ∷ arg3 ∷ []) = undefined
init_parameters (arg0 ∷ arg1 ∷ arg2 ∷ arg3 ∷ arg4 ∷ args) =
    if ltb (length arg4) 1024 then or_undefined (read_limits arg1 arg2 arg3 arg4) else undefined
init_parameters argv = exit 1

-- The limits of run_solution.
pub record Limits : Type 0 where
  pub cpu : ℕ
  pub alarm : ℕ
  pub file_cur : ℕ
  pub file_max : ℕ
  pub proc : ℕ
  pub stack : ℕ
  pub address_space : Option (Option ℤ × Option ℤ)

-- `usedtime` is below the time limit, so that the subtraction does not stop at 0.
unfoldable pub run_solution : Params → ℕ → Limits
run_solution p usedtime = record {
  cpu = (p.time_lmt - usedtime / 1000) + 1;
  alarm = p.time_lmt * 10;
  file_cur = std_mb * 32;
  file_max = std_mb * 32 + std_mb;
  proc = if is_java p.lang then 1000 else 1;
  stack = std_mb * 64;
  address_space =
      if is_java p.lang
      then none
      else some (
        (pos std_mb *int p.mem_lmt) >>= λ x. (x /int 2) *int 3,
        (pos std_mb *int p.mem_lmt) >>= λ x. x *int 2,
      );
}
