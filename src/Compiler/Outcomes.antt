-- ===== src/Compiler/Outcomes.antt =====
-- When the driver reports success.
use Prim.Native.String.{String}
use mathlib.Core.Option.{some-ne-none}
use run_server.Base.{
  ℕ, zero, suc, Bool, true, false, [], ◌≡◌, ◌⊎◌, ◌↔◌, inl, inr, refl, sym, ap, ◌∙◌, List, ◌∷◌,
  Option, none, some, some_inv, Option-cases, >>=-some, arith,
}
use run_server.Syscalls.{ℤ, pos, negsuc}
use run_server.Parameters.{atoi}
use run_server.Compiler.{command, child_status, found_status, parent_exit, compile}

parent_exit-zero : (status : ℕ) → (some (parent_exit status) ≡ some 0) ↔ (status ≡ 0)
unfolding parent_exit
parent_exit-zero status = (λ e. let z = some_inv e in ground arith, λ e. ground arith)

-- The command for the number of a language: 1 for C, 2 for C++ and 3 for Java.
abbrev pub compiler_of : ℤ → Option (List String)
compiler_of (pos (suc zero)) = some (
    "gcc" ∷ "Main.c" ∷ "-o" ∷ "Main" ∷ "-Wall" ∷ "-lm" ∷ "--static" ∷ "-std=c99" ∷ "-DONLINE_JUDGE"
    ∷ [])
compiler_of (pos (suc (suc zero))) = some (
    "g++" ∷ "Main.cc" ∷ "-o" ∷ "Main" ∷ "-Wall" ∷ "-lm" ∷ "--static" ∷ "-std=c++0x"
    ∷ "-DONLINE_JUDGE" ∷ [])
compiler_of (pos (suc (suc (suc zero)))) =
    some ("javac" ∷ "-J-Xms32m" ∷ "-J-Xmx256m" ∷ "Main.java" ∷ [])
compiler_of _ = none

command-compiler_of : (lang : ℤ) → command lang ≡ compiler_of lang
unfolding command
command-compiler_of (negsuc n) = refl
command-compiler_of (pos zero) = refl
command-compiler_of (pos (suc zero)) = refl
command-compiler_of (pos (suc (suc zero))) = refl
command-compiler_of (pos (suc (suc (suc zero)))) = refl
command-compiler_of (pos (suc (suc (suc (suc n))))) = ground arith

-- No child has been made, or the number is that of a language, whose compiler has ended well or has not
-- been started.
abbrev pub IsBuilt : Bool → (List String → Option ℕ) → ℤ → Type 0
IsBuilt forked exec lang =
    (forked ≡ false)
    ⊎ ((arguments : List String) × (compiler_of lang ≡ some arguments)
        × ((exec arguments ≡ none) ⊎ (exec arguments ≡ some 0)))

abbrev IsWellEnded : (List String → Option ℕ) → ℤ → Type 0
IsWellEnded exec lang =
    (arguments : List String) × (command lang ≡ some arguments)
    × ((exec arguments ≡ none) ⊎ (exec arguments ≡ some 0))

ended_well :
    (exec : List String → Option ℕ) {arguments arguments' : List String} {status : ℕ}
    → arguments' ≡ arguments
    → exec arguments ≡ some status
    → (exec arguments' ≡ none) ⊎ (exec arguments' ≡ some 0)
    → status ≡ 0
ended_well exec same q (inl n) = absurd (some-ne-none _ (sym q ∙ sym (ap exec same) ∙ n))
ended_well exec same q (inr e) = some_inv (sym q ∙ sym (ap exec same) ∙ e)

child_status-zero :
    (exec : List String → Option ℕ) (lang : ℤ)
    → (child_status exec lang ≡ 0) ↔ IsWellEnded exec lang
unfolding child_status
child_status-zero exec lang = elim (Option-cases (command lang)) [
  | inl z ↦ (
    λ e. absurd (let n = rw (z, child_status) at e in omega arith),
    λ b. absurd (some-ne-none _ (sym b.1 ∙ z)),
  )
  | inr (arguments, z) ↦ elim (Option-cases (exec arguments)) [
    | inl q ↦ (λ e. (arguments, z, inl q), λ b. rw (z, child_status) (rw q refl))
    | inr (status, q) ↦ (
      λ e. (arguments, z, inr (q ∙ ap some (rw q at (rw (z, child_status) at e)))),
      λ b. rw (z, child_status) (rw q (ended_well exec (some_inv (sym b.1 ∙ z)) q b.2)),
    )
  ]
]

found_status-zero :
    (forked : Bool) (exec : List String → Option ℕ) (lang : ℤ)
    → (found_status forked exec lang ≡ 0) ↔ IsBuilt forked exec lang
unfolding found_status
found_status-zero false exec lang = (λ e. inl refl, λ b. refl)
found_status-zero true exec lang =
    let (there, back) = child_status-zero exec lang in
    let same = command-compiler_of lang in
    (
      λ e. let (arguments, q, r) = there e in inr (arguments, sym same ∙ q, r),
      λ b. elim b [ inl e ↦ cc | inr (arguments, q, r) ↦ back (arguments, same ∙ q, r) ],
    )

-- For a language number that does not overflow, the driver exits with 0 exactly when fork has failed, or
-- the number is 1, 2 or 3, and gcc, g++ or javac, with the arguments for Main.c, Main.cc or Main.java,
-- has ended with the status 0, or could not be started at all.
pub compile-IsBuilt :
    (forked : Bool) (exec : List String → Option ℕ) (arg0 arg1 : List ℕ) (args : List (List ℕ))
    (lang : ℤ)
    → atoi arg1 ≡ some lang
    → (compile forked exec (arg0 ∷ arg1 ∷ args) ≡ some 0) ↔ IsBuilt forked exec lang
unfolding compile
compile-IsBuilt forked exec arg0 arg1 args lang h =
    let run = >>=-some _ (λ l. some (parent_exit (found_status forked exec l))) lang h in
    let p = parent_exit-zero (found_status forked exec lang) in
    let c = found_status-zero forked exec lang in
    (λ e. c.0 (p.0 (sym run ∙ e)), λ b. run ∙ p.1 (c.1 b))
