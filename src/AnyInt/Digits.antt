-- ===== src/AnyInt/Digits.antt =====
-- The digits that int2string writes.
use run_server.Base.{
  ◌⊎◌, ℕ_discrete, ℕ, zero, suc, ◌+◌, ◌*◌, ◌-◌, ◌/◌, ◌%◌, ◌^◌, ◌≤◌, ◌<◌, ◌≡◌, ◌≢◌, refl, ap, ◌∙◌,
  true, inl, inr, List, [], ◌∷◌, some, Bool-cases, leb, ◌==◌, ◌&&◌, length, arith,
}
use run_server.Parameters.{digits_from}
use run_server.AnyInt.{put_digits}

-- The text begins with a digit.
abbrev pub StartsWithDigit : List ℕ → Type 0
StartsWithDigit [] = ⊥
StartsWithDigit (c ∷ s) = (b'0' ≤ c) × (c ≤ b'9')

abbrev pub AllDigits : List ℕ → Type 0
AllDigits [] = Unit
AllDigits (c ∷ s) = (b'0' ≤ c) × (c ≤ b'9') × AllDigits s

-- The text begins with another digit than 0.
abbrev pub StartsNonzero : List ℕ → Type 0
StartsNonzero [] = ⊥
StartsNonzero (c ∷ s) = (b'1' ≤ c) × (c ≤ b'9')

-- What the loop has written: the digits of `val` in front of `res`.
pub record IsWritten (k val size : ℕ) (res : List ℕ) (size' : ℕ) (res' : List ℕ) : Type 0 where
  pub starts : StartsWithDigit res'
  pub value : digits_from res' 0 ≡ digits_from res val
  pub lead : ((val ≡ 0) × (res' ≡ b'0' ∷ res)) ⊎ StartsNonzero res'
  pub all_digits : AllDigits res → AllDigits res'
  pub longer : length res < length res'
  pub bounded : length res' ≤ length res + k
  pub size_left : size' ≡ size - (length res' - length res)

digits_from-digit :
    (val n : ℕ) (res : List ℕ)
    → digits_from ((b'0' + val % 10) ∷ res) n ≡ digits_from res (n * 10 + val % 10)
unfolding digits_from
digits_from-digit val n res =
    let digit : (leb b'0' (b'0' + val % 10) && leb (b'0' + val % 10) b'9') ≡ true = ground arith in
    let same : b'0' + val % 10 - b'0' ≡ val % 10 = omega arith in rw (digit, same) refl

power_step : (n : ℕ) → 10 ^ suc n ≡ 10 * 10 ^ n
power_step n = omega arith

room : (free val : ℕ) → val < 10 ^ suc free → val / 10 ≢ 0 → 1 ≤ free
room zero val h m = absurd (m (omega (arith, power_step 0)))
room (suc free) val h m = omega arith

-- Free characters for the digits of `val`, of which there are at most `k`, are enough.
pub put_digits-IsWritten :
    (free k val size : ℕ) (res : List ℕ)
    → val < 10 ^ k
    → 1 ≤ k
    → k ≤ free
    → (size' : ℕ) × (res' : List ℕ) × (put_digits free val size res ≡ some (size', res'))
      × IsWritten k val size res size' res'
unfolding put_digits
put_digits-IsWritten free zero val size res h l f = absurd (omega arith)
put_digits-IsWritten zero (suc k) val size res h l f = absurd (omega arith)
put_digits-IsWritten (suc free) (suc k) val size res h l f = elim (Bool-cases (val / 10 == 0)) [
  | inl e ↦ (
    size - 1,
    (b'0' + val % 10) ∷ res,
    rw (e, put_digits) refl,
    record {
      starts = (omega arith, omega arith);
      value =
          digits_from-digit val 0 res
          ∙ ap (digits_from res) (let small : val / 10 ≡ 0 = ground arith in omega arith);
      lead =
          let small : val / 10 ≡ 0 = ground arith in
          elim (ℕ_discrete val 0) [
            | yes z ↦ inl (z, ap (λ c. c ∷ res) (omega arith))
            | no nz ↦ inr (omega arith, omega arith)
          ];
      all_digits = λ d. (omega arith, omega arith, d);
      longer = omega arith;
      bounded = omega arith;
      size_left = omega arith;
    },
  )
  | inr e ↦
      let more : val / 10 ≢ 0 = ground arith in
      let (size', res', q, w) =
        put_digits-IsWritten free k (val / 10) (size - 1) ((b'0' + val % 10) ∷ res)
          (omega (arith, power_step k)) (room k val h more) (omega arith) in
      (
        size',
        res',
        rw (e, put_digits) q,
        record {
          starts = w.starts;
          value =
              w.value ∙ digits_from-digit val (val / 10) res ∙ ap (digits_from res) (omega arith);
          lead = elim w.lead [ inl (z, e) ↦ absurd (more z) | inr p ↦ inr p ];
          all_digits = λ d. w.all_digits (omega arith, omega arith, d);
          longer = omega (arith, w.longer);
          bounded = omega (arith, w.bounded);
          size_left = omega (arith, w.size_left, w.longer);
        },
      )
]
