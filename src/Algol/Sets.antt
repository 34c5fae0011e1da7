-- ===== src/Algol/Sets.antt =====
-- The tables of `Init_Algol_Language` hold the tokens of the lists.
use run_server.Base.{
  ℕ, ◌+◌, ◌%◌, ◌≤◌, ◌<◌, ◌≡◌, ◌≢◌, ◌⊎◌, ◌↔◌, inl, inr, refl, sym, ◌∙◌, List, [], ◌∷◌, ◌++◌, some,
  ltb, if◌then◌else◌, update, update_eq, update_ne, zeros, length, arith,
}
use native.Mathlib.Decide.{ℕ_discrete}
use run_server.Token.{n_regular_tokens}
use run_server.Algol.{cvt2bittable, pos_in_set}

-- The tokens before the mark are regular, and the mark is no token.
abbrev pub AllRegular : List ℕ → Type 0
AllRegular [] = Unit
AllRegular (t ∷ tl) = (0 < t) × (t < n_regular_tokens) × AllRegular tl

abbrev pub IsIn : ℕ → List ℕ → Type 0
IsIn x [] = ⊥
IsIn x (t ∷ tl) = (x ≡ t) ⊎ IsIn x tl

IsIn_dec : (x : ℕ) (tl : List ℕ) → Dec (IsIn x tl)
IsIn_dec x [] = no (λ i. i)
IsIn_dec x (t ∷ tl) = elim (ℕ_discrete x t) [
  | yes e ↦ yes (inl e)
  | no ne ↦ elim (IsIn_dec x tl) [ yes i ↦ yes (inr i) | no out ↦ no (λ i. neither ne out i) ]
]
  where
    neither : x ≢ t → ¬ IsIn x tl → ¬ IsIn x (t ∷ tl)
    neither ne out (inl e) = ne e
    neither ne out (inr i) = out i

cvt2bittable_lem :
    (tl : List ℕ) (cnt : ℕ) (bt : ℕ → ℕ)
    → AllRegular tl
    → 0 < cnt
    → cnt + length tl ≤ 128
    → (bt' : ℕ → ℕ) × (cvt2bittable (tl ++ (0 ∷ [])) cnt bt ≡ some bt')
      × ((x : ℕ) → IsIn x tl → (0 < bt' x) × (bt' x < 128))
      × ((x : ℕ) → ¬ IsIn x tl → bt' x ≡ bt x)
unfolding cvt2bittable
cvt2bittable_lem [] cnt bt r pos le = (bt, refl, λ x i. absurd i, λ x i. refl)
cvt2bittable_lem (t ∷ tl) cnt bt (p, l, r) pos le =
    let (bt', e, old, kept) =
      cvt2bittable_lem tl (cnt + 1) (update bt t (cnt % 256)) r (omega arith) (omega arith) in
    (
      bt',
      ground arith,
      λ x i. entered bt' old kept x i (IsIn_dec x tl),
      λ x ne. kept x (λ i. ne (inr i)) ∙ update_ne bt t x (cnt % 256) (λ d. ne (inl (sym d))),
    )
  where
    entered :
        (bt' : ℕ → ℕ)
        → ((x : ℕ) → IsIn x tl → (0 < bt' x) × (bt' x < 128))
        → ((x : ℕ) → ¬ IsIn x tl → bt' x ≡ update bt t (cnt % 256) x)
        → (x : ℕ) → IsIn x (t ∷ tl)
        → Dec (IsIn x tl)
        → (0 < bt' x) × (bt' x < 128)
    entered bt' old kept x i (yes again) = old x again
    entered bt' old kept x (inr i) (no once) = absurd (once i)
    entered bt' old kept x (inl e) (no once) =
        rw (kept x once ∙ update_eq bt t x (cnt % 256) (sym e)) (omega arith, omega arith)

-- For a list of regular tokens, less than 128 of them, that ends with No_Token, cvt2bittable on a clear
-- table ends without a fatal error. pos_in_set on the table is not 0 exactly for the tokens of the list,
-- regular or not, and is always less than 128.
pub cvt2bittable-pos_in_set :
    (tl : List ℕ)
    → AllRegular tl
    → length tl < 128
    → (bt : ℕ → ℕ) × (cvt2bittable (tl ++ (0 ∷ [])) 1 zeros ≡ some bt)
      × ((tk : ℕ) → (pos_in_set bt tk ≢ 0) ↔ IsIn tk tl)
      × ((tk : ℕ) → pos_in_set bt tk < 128)
unfolding pos_in_set
cvt2bittable-pos_in_set tl r lt =
    let (bt, e, old, kept) = cvt2bittable_lem tl 1 zeros r (omega arith) (omega arith) in
    (
      bt,
      e,
      λ tk. (found bt kept tk, present bt old tk),
      λ tk. small bt old kept tk (IsIn_dec tk tl),
    )
  where
    regular : (tk : ℕ) (ts : List ℕ) → AllRegular ts → IsIn tk ts → tk < n_regular_tokens
    regular tk [] rs i = absurd i
    regular tk (t ∷ ts) (p, l, rs) (inl e) = omega arith
    regular tk (t ∷ ts) (p, l, rs) (inr i) = regular tk ts rs i

    found :
        (bt : ℕ → ℕ)
        → ((x : ℕ) → ¬ IsIn x tl → bt x ≡ zeros x)
        → (tk : ℕ) → (if ltb tk n_regular_tokens then bt tk else 0) ≢ 0
        → IsIn tk tl
    found bt kept tk ne = elim (IsIn_dec tk tl) [
      | yes i ↦ i
      | no out ↦ absurd (ne (ground (arith, kept tk out)))
    ]

    present :
        (bt : ℕ → ℕ)
        → ((x : ℕ) → IsIn x tl → (0 < bt x) × (bt x < 128))
        → (tk : ℕ) → IsIn tk tl
        → (if ltb tk n_regular_tokens then bt tk else 0) ≢ 0
    present bt old tk i z = ground (arith, regular tk tl r i, old tk i)

    small :
        (bt : ℕ → ℕ)
        → ((x : ℕ) → IsIn x tl → (0 < bt x) × (bt x < 128))
        → ((x : ℕ) → ¬ IsIn x tl → bt x ≡ zeros x)
        → (tk : ℕ) → Dec (IsIn tk tl)
        → (if ltb tk n_regular_tokens then bt tk else 0) < 128
    small bt old kept tk (yes i) = ground (arith, old tk i)
    small bt old kept tk (no out) = ground (arith, kept tk out)
