-- ===== src/Compiler.antt =====
-- Cjudger/compiler.cc: the driver that starts the compiler of a language and reports how it ended.
pub mod Outcomes
use Prim.Native.String.{String}
use run_server.Base.{
  ℕ, ◌*◌, zero, suc, Bool, true, false, List, [], ◌∷◌, Option, none, some, ◌==◌, if◌then◌else◌,
  ◌>>=◌,
}
use run_server.Verdict.{lang_c, lang_cc, lang_java, std_mb}
use run_server.Syscalls.{ℤ, pos, negsuc}
use run_server.Parameters.{atoi, int_pos}

abbrev pub cp_c : List String
cp_c =
    "gcc" ∷ "Main.c" ∷ "-o" ∷ "Main" ∷ "-Wall" ∷ "-lm" ∷ "--static" ∷ "-std=c99" ∷ "-DONLINE_JUDGE"
    ∷ []

abbrev pub cp_x : List String
cp_x =
    "g++" ∷ "Main.cc" ∷ "-o" ∷ "Main" ∷ "-Wall" ∷ "-lm" ∷ "--static" ∷ "-std=c++0x"
    ∷ "-DONLINE_JUDGE" ∷ []

abbrev pub cp_j : List String
cp_j = "javac" ∷ "-J-Xms32m" ∷ "-J-Xmx256m" ∷ "Main.java" ∷ []

-- `switch (lang)`; `none` is the default.
unfoldable pub command : ℤ → Option (List String)
command (negsuc n) = none
command (pos n) =
    if n == lang_c
    then some cp_c
    else if n == lang_cc
    then some cp_x
    else if n == lang_java
    then some cp_j
    else none

-- The limits of the compiler; `none` is an overflow of an int.
pub record CompileLimits : Type 0 where
  pub cpu : ℕ
  pub alarm : ℕ
  pub file_size : ℕ
  pub address_space : Option ℤ

unfoldable pub compile_limits : CompileLimits
compile_limits = record {
  cpu = 30;
  alarm = 30;
  file_size = 100 * std_mb;
  address_space = int_pos (std_mb * 2048);
}

-- The status of the child: `exec` gives the status with which a command ends under these limits,
-- `none` if execvp returns. The status of exit(-1) is that of the exit code 255.
unfoldable pub child_status : (List String → Option ℕ) → ℤ → ℕ
child_status exec lang = elim (command lang) [
  | none ↦ 255 * 256
  | some arguments ↦ elim (exec arguments) [ none ↦ 0 | some status ↦ status ]
]

unfoldable pub parent_exit : ℕ → ℕ
parent_exit status = if status == 0 then 0 else 1

-- The status that the parent finds: that of the child, or 0, as it was set, where fork fails and
-- waitpid has no child to wait for.
unfoldable pub found_status : Bool → (List String → Option ℕ) → ℤ → ℕ
found_status true exec lang = child_status exec lang
found_status false exec lang = 0

-- `main`, where `forked` says whether fork has made a child; without an argument it reads the null
-- pointer, and the result is `none`.
unfoldable pub compile : Bool → (List String → Option ℕ) → List (List ℕ) → Option ℕ
compile forked exec [] = none
compile forked exec (arg0 ∷ []) = none
compile forked exec (arg0 ∷ arg1 ∷ args) =
    atoi arg1 >>= λ lang. some (parent_exit (found_status forked exec lang))
