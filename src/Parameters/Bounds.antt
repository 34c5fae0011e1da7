-- ===== src/Parameters/Bounds.antt =====
-- The limits are in their ranges, and leave a solution the time that it has left.
use run_server.Base.{
  ℕ, ◌+◌, ◌*◌, ◌/◌, ◌≤◌, ◌<◌, ◌≡◌, inl, inr, refl, subst, ltb→lt, lt→ltb, true, false, List, [],
  ◌∷◌, Option, none, some, Bool-cases, ltb, if◌then◌else◌, ◌>>=◌, length, arith,
}
use run_server.Verdict.{std_mb}
use run_server.Syscalls.{ℤ, pos, negsuc}
use run_server.Parameters.{
  int_pos, ◌*int◌, ◌/int◌, atoi, judged_set_value, is_java, for_lang, Params, started, or_undefined,
  memory_limit, policy_command, read_limits, init_parameters, run_solution,
}

judged_set_value-range :
    (top : ℕ) (x : ℤ) → 1 ≤ top → (1 ≤ judged_set_value top x) × (judged_set_value top x ≤ top)
unfolding judged_set_value
judged_set_value-range top (pos n) h = (ground arith, ground arith)
judged_set_value-range top (negsuc n) h = (omega arith, omega arith)

-- Both limits are at least 1 and at most what the judge has set.
pub record IsLimited (p : Params) : Type 0 where
  pub some_time : 1 ≤ p.time_lmt
  pub time_capped : p.time_lmt ≤ 30
  pub some_memory : 1 ≤ p.mem_lmt
  pub memory_capped : p.mem_lmt ≤ 1024

started_inv : {p q : Params} → started p ≡ started q → p ≡ q
started_inv e = cc

-- What holds of a result, if there is one.
abbrev Ensures : Option Params → Type 0
Ensures none = Unit
Ensures (some p) = IsLimited p

>>=-Ensures {ℓ} :
    {A : Type ℓ} (o : Option A) (f : A → Option Params)
    → ((a : A) → Ensures (f a))
    → Ensures (o >>= f)
>>=-Ensures none f h = tt
>>=-Ensures (some a) f h = h a

read_limits-Ensures : (arg1 arg2 arg3 arg4 : List ℕ) → Ensures (read_limits arg1 arg2 arg3 arg4)
unfolding read_limits
read_limits-Ensures arg1 arg2 arg3 arg4 = >>=-Ensures (atoi arg1) _ λ lang.
    >>=-Ensures (atoi arg2) _ λ time. >>=-Ensures (atoi arg3) _ λ kb.
      >>=-Ensures (memory_limit kb) _ λ mem. >>=-Ensures (for_lang lang time) _ λ time'.
        >>=-Ensures (for_lang lang mem) _ λ mem'. >>=-Ensures (policy_command lang arg4) _ λ policy.
          let (t1, t2) = judged_set_value-range 30 time' (omega arith) in
          let (m1, m2) = judged_set_value-range 1024 mem' (omega arith) in
          record { some_time = t1; time_capped = t2; some_memory = m1; memory_capped = m2 }

or_undefined-IsLimited :
    (o : Option Params) (p : Params) → Ensures o → or_undefined o ≡ started p → IsLimited p
or_undefined-IsLimited none p h e = cc
or_undefined-IsLimited (some q) p h e = subst IsLimited (started_inv e) h

-- When init_parameters returns, the time limit is between 1 and 30 seconds and the memory limit between
-- 1 and 1024 MB, whatever the arguments are.
pub init_parameters-IsLimited :
    (argv : List (List ℕ)) (p : Params) → init_parameters argv ≡ started p → IsLimited p
unfolding init_parameters
init_parameters-IsLimited [] p e = cc
init_parameters-IsLimited (a ∷ []) p e = cc
init_parameters-IsLimited (a ∷ b ∷ []) p e = cc
init_parameters-IsLimited (a ∷ b ∷ c ∷ []) p e = cc
init_parameters-IsLimited (a ∷ b ∷ c ∷ d ∷ []) p e = cc
init_parameters-IsLimited (arg0 ∷ arg1 ∷ arg2 ∷ arg3 ∷ arg4 ∷ args) p e =
    elim (Bool-cases (ltb (length arg4) 1024)) [
      | inl b ↦
          or_undefined-IsLimited (read_limits arg1 arg2 arg3 arg4) p
            (read_limits-Ensures arg1 arg2 arg3 arg4) (rw b at e)
      | inr b ↦ cc (rw b at e)
    ]

-- A memory argument, in KB, of less than 2 ^ 21 makes the limit 8 times its MB, rounded down first; a
-- larger one overflows.
pub memory_limit-pos :
    (kb : ℕ) → memory_limit (pos kb) ≡ (if ltb kb 2097152 then some (pos (kb / 1024 * 8)) else none)
unfolding memory_limit ◌*int◌ ◌/int◌ int_pos
memory_limit-pos kb = elim (Bool-cases (ltb kb 2097152)) [
  | inl b ↦
      let lt : kb < 2097152 = ltb→lt kb 2097152 b in
      let fits : ltb (kb * 1024) 2147483648 ≡ true = lt→ltb _ _ (omega arith) in
      let same : kb * 1024 / std_mb ≡ kb / 1024 = omega arith in
      let fits' : ltb (kb / 1024 * 8) 2147483648 ≡ true = lt→ltb _ _ (omega arith) in
      rw (b, fits, same, fits') refl
  | inr b ↦
      let overflows : ltb (kb * 1024) 2147483648 ≡ false = ground arith in rw (b, overflows) refl
]

-- Within the limits of init_parameters, and with time left, run_solution gives a solution more seconds
-- than it has left, and at most a second more than the limit.
pub run_solution-limits :
    (p : Params) (usedtime : ℕ)
    → IsLimited p
    → usedtime < p.time_lmt * 1000
    → (p.time_lmt * 1000 < usedtime + (run_solution p usedtime).cpu * 1000)
      × ((run_solution p usedtime).cpu ≤ p.time_lmt + 1)
unfolding run_solution
run_solution-limits p usedtime l h = (omega (arith, l), omega arith)

-- A solution that is not in Java gets an address space of one and a half times the memory limit, and
-- of at most twice the limit, which overflows exactly at the largest memory limit, of 1024 MB.
pub run_solution-address_space :
    (p : Params) (usedtime : ℕ)
    → IsLimited p
    → is_java p.lang ≡ false
    → (run_solution p usedtime).address_space
      ≡ some (
        some (pos (p.mem_lmt * 1572864)),
        if ltb p.mem_lmt 1024 then some (pos (p.mem_lmt * 2097152)) else none,
      )
unfolding run_solution ◌*int◌ ◌/int◌ int_pos
run_solution-address_space p usedtime l j =
    let m = p.mem_lmt in
    let fits : ltb (std_mb * m) 2147483648 ≡ true = lt→ltb _ _ (omega (arith, l.memory_capped)) in
    let half : std_mb * m / 2 * 3 ≡ m * 1572864 = omega arith in
    let fits' : ltb (m * 1572864) 2147483648 ≡ true = lt→ltb _ _ (omega (arith, l.memory_capped)) in
    let twice : std_mb * m * 2 ≡ m * 2097152 = omega arith in
    elim (Bool-cases (ltb m 1024)) [
      | inl b ↦
          let fits'' : ltb (m * 2097152) 2147483648 ≡ true =
            lt→ltb _ _ (omega (arith, ltb→lt m 1024 b)) in
          rw (j, fits, half, fits', twice, fits'', b) refl
      | inr b ↦
          let over : ltb (m * 2097152) 2147483648 ≡ false = ground arith in
          rw (j, fits, half, fits', twice, over, b) refl
    ]
