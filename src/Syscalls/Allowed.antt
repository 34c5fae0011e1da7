-- ===== src/Syscalls/Allowed.antt =====
-- Which system calls init_syscalls_limits allows.
use mathlib.Core.Bool.{false≢true}
use mathlib.Core.List.{Mem, mem-cons, mem-cons_self, mem-cons_of_mem, not-mem-nil}
use mathlib.Core.Logic.Or
use run_server.Base.{
  ℕ, ◌≡◌, ◌⊎◌, ◌↔◌, inl, inr, refl, sym, subst, false, List, [], ◌∷◌, Bool-cases, leb, ◌==◌,
  if◌then◌else◌, update, update_eq, take, ==_iff,
}
use run_server.Verdict.{lang_cc, lang_java}
use run_server.Syscalls.{
  ℤ, is_zero, lang_cv, lang_cc_limits, lang_jv, lang_jc_limits, copy_limits, no_calls,
  init_syscalls_limits,
}

-- The calls that the tables name with a limit, up to the first limit 0.
limited : List ℕ → List ℤ → List ℕ
limited [] cs = []
limited (v ∷ vs) [] = []
limited (v ∷ vs) (c ∷ cs) = if is_zero c then [] else v ∷ limited vs cs

copy_limits-allowed :
    (vs : List ℕ) (cs : List ℤ) (t : ℕ → ℤ) (n : ℕ)
    → is_zero (copy_limits vs cs t n) ≡ false
    → Mem n (limited vs cs) ⊎ (is_zero (t n) ≡ false)
unfolding copy_limits limited
copy_limits-allowed [] cs t n h = inr h
copy_limits-allowed (v ∷ vs) [] t n h = inr h
copy_limits-allowed (v ∷ vs) (c ∷ cs) t n h = elim (Bool-cases (is_zero c)) [
  | inl z ↦ rw z (inr (rw z at h))
  | inr z ↦ rw z (elim (copy_limits-allowed vs cs (update t v c) n (rw z at h)) [
    | inl m ↦ inl (mem-cons_of_mem v m)
    | inr a ↦ elim (Bool-cases (v == n)) [
      | inl e ↦ inl (
          subst (λ k. Mem k (v ∷ limited vs cs)) ((==_iff v n).0 e)
            (mem-cons_self {a = v} {l = limited vs cs}))
      | inr e ↦ inr (rw e at a)
    ]
  ])
]

copy_limits-kept :
    (vs : List ℕ) (cs : List ℤ) (t : ℕ → ℤ) (n : ℕ)
    → is_zero (t n) ≡ false
    → is_zero (copy_limits vs cs t n) ≡ false
unfolding copy_limits
copy_limits-kept [] cs t n h = h
copy_limits-kept (v ∷ vs) [] t n h = h
copy_limits-kept (v ∷ vs) (c ∷ cs) t n h = elim (Bool-cases (is_zero c)) [
  | inl z ↦ rw z h
  | inr z ↦ rw z (
      copy_limits-kept vs cs (update t v c) n
        (elim (Bool-cases (v == n)) [ inl e ↦ rw (e, z) refl | inr e ↦ rw (e, h) refl ]))
]

copy_limits-named :
    (vs : List ℕ) (cs : List ℤ) (t : ℕ → ℤ) (n : ℕ)
    → Mem n (limited vs cs)
    → is_zero (copy_limits vs cs t n) ≡ false
unfolding copy_limits limited
copy_limits-named [] cs t n m = absurd (not-mem-nil m)
copy_limits-named (v ∷ vs) [] t n m = absurd (not-mem-nil m)
copy_limits-named (v ∷ vs) (c ∷ cs) t n m = elim (Bool-cases (is_zero c)) [
  | inl z ↦ absurd (not-mem-nil (rw z at m))
  | inr z ↦ rw z (
      Or.elim (hlevel) (mem-cons.0 (rw z at m))
        (λ e. copy_limits-kept vs cs (update t v c) n (rw (update_eq t v n c (sym e)) z))
        (λ k. copy_limits-named vs cs (update t v c) n k))
]

-- What a language may call.
abbrev pub allowed_calls : ℕ → List ℕ
allowed_calls lang =
    if leb lang lang_cc then take 16 lang_cv else if lang == lang_java then take 43 lang_jv else []

limited_cv : limited lang_cv lang_cc_limits ≡ take 16 lang_cv
unfolding limited
limited_cv = refl

limited_jv : limited lang_jv lang_jc_limits ≡ take 43 lang_jv
unfolding limited
limited_jv = refl

copied :
    (vs : List ℕ) (cs : List ℤ) (n : ℕ)
    → (is_zero (copy_limits vs cs no_calls n) ≡ false) ↔ Mem n (limited vs cs)
copied vs cs n = (
  λ h. elim (copy_limits-allowed vs cs no_calls n h) [
    | inl m ↦ m
    | inr e ↦ absurd (false≢true (sym e))
  ],
  copy_limits-named vs cs no_calls n,
)

-- For each language, init_syscalls_limits allows exactly the first 16 calls of LANG_CV (C and C++), the
-- first 43 of LANG_JV (Java), or none.
pub init_syscalls_limits-allowed :
    (lang n : ℕ)
    → (is_zero (init_syscalls_limits false lang n) ≡ false) ↔ Mem n (allowed_calls lang)
unfolding init_syscalls_limits
init_syscalls_limits-allowed lang n = elim (Bool-cases (leb lang lang_cc)) [
  | inl c ↦ rw (c, sym limited_cv) (copied lang_cv lang_cc_limits n)
  | inr o ↦ elim (Bool-cases (lang == lang_java)) [
    | inl j ↦ rw (o, j, sym limited_jv) (copied lang_jv lang_jc_limits n)
    | inr k ↦ rw (o, k) (λ e. absurd (false≢true (sym e)), λ m. absurd (not-mem-nil m))
  ]
]
