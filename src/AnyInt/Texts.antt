-- ===== src/AnyInt/Texts.antt =====
-- What the strings of int2string say, read back, and how long they are.
use run_server.Base.{
  ℕ, zero, suc, ◌+◌, ◌-◌, ◌^◌, ◌≤◌, ◌<◌, ◌≡◌, ◌⊎◌, inl, inr, refl, ap, ◌∙◌, Bool, true, false, List,
  [], ◌∷◌, ◌++◌, some, ltb, leb, if◌then◌else◌, >>=-some, length, length-append, replicate,
  length-replicate, arith, lt→ltb,
}
use run_server.Syscalls.{ℤ, pos, negsuc}
use run_server.Checker.{is_space}
use run_server.Parameters.{int_pos, int_neg, digits_from, atoi}
use run_server.AnyInt.{max_any_uint_digits, protect_size, put_char, put_sign, fill_up, int_text}
use run_server.AnyInt.Digits.{StartsWithDigit, StartsNonzero, AllDigits, put_digits-IsWritten}

-- The width that is asked for: `size`, from 0 to 40, and none otherwise.
abbrev pub width : ℤ → ℕ
width (pos n) = if leb n 40 then n else 0
width (negsuc n) = 0

abbrev pub signed : Bool → List ℕ → List ℕ
signed true digits = b'-' ∷ digits
signed false digits = digits

-- The text is the decimal numeral of a number, without leading zeros, behind its sign, and behind as many
-- blanks as are missing for the width.
pub record IsDecimal (n : ℕ) (neg : Bool) (size : ℤ) (text : List ℕ) : Type 0 where
  pub digits : List ℕ
  pub all_digits : AllDigits digits
  pub value : digits_from digits 0 ≡ n
  pub lead : (digits ≡ b'0' ∷ []) ⊎ StartsNonzero digits
  pub few : length digits ≤ 20
  pub filled : text ≡ replicate (width size - length (signed neg digits)) b' ' ++ signed neg digits

protect_size-width : (size : ℤ) → protect_size size ≡ width size
unfolding protect_size
protect_size-width (pos n) = ground arith
protect_size-width (negsuc n) = refl

width-le : (size : ℤ) → width size ≤ 40
width-le (pos n) = ground arith
width-le (negsuc n) = omega arith

atoi-blanks : (m : ℕ) (s : List ℕ) → atoi (replicate m b' ' ++ s) ≡ atoi s
unfolding atoi is_space
atoi-blanks zero s = refl
atoi-blanks (suc m) s = atoi-blanks m s

atoi-signed :
    (neg : Bool) (s : List ℕ)
    → StartsWithDigit s
    → atoi (signed neg s) ≡ (if neg then int_neg (digits_from s 0) else int_pos (digits_from s 0))
unfolding atoi is_space
atoi-signed true s h = refl
atoi-signed false [] h = elim h [ ]
atoi-signed false (c ∷ s) h = ground arith

blank_last : (m : ℕ) (s : List ℕ) → replicate m b' ' ++ (b' ' ∷ s) ≡ b' ' ∷ (replicate m b' ' ++ s)
blank_last zero s = refl
blank_last (suc m) s = ap (λ l. b' ' ∷ l) (blank_last m s)

fill_up-replicate :
    (size : ℕ) (res : List ℕ)
    → size + length res ≤ max_any_uint_digits
    → fill_up size res ≡ some (replicate size b' ' ++ res)
unfolding fill_up put_char
fill_up-replicate zero res h = refl
fill_up-replicate (suc size) res h =
    let fits : ltb (length res) max_any_uint_digits ≡ true = lt→ltb _ _ (omega arith) in
    rw (fits, fill_up, put_char)
      (fill_up-replicate size (b' ' ∷ res) (omega arith) ∙ ap some (blank_last size res))

put_sign-signed :
    (size : ℕ) (neg : Bool) (res : List ℕ)
    → length res < max_any_uint_digits
    → put_sign neg (size, res)
      ≡ some (size - (length (signed neg res) - length res), signed neg res)
unfolding put_char
put_sign-signed size true res l =
    let fits : ltb (length res) max_any_uint_digits ≡ true = lt→ltb _ _ l in
    let one : suc (length res) - length res ≡ 1 = omega arith in rw (fits, put_char, one) refl
put_sign-signed size false res l =
    let none_left : size - (length res - length res) ≡ size = omega arith in rw none_left refl

length-signed :
    (neg : Bool) (res : List ℕ)
    → (length res ≤ length (signed neg res)) × (length (signed neg res) ≤ suc (length res))
length-signed true res = (omega arith, omega arith)
length-signed false res = (omega arith, omega arith)

digits_nil : (n : ℕ) → digits_from [] n ≡ n
unfolding digits_from
digits_nil n = refl

-- int2string writes a number of 64 bits, with its sign, into the buffer without running out of it. The
-- text is the decimal numeral of the number, without leading zeros, behind its sign, and behind as many
-- blanks as are missing for the width `size`, which counts from 0 to 40 only. atoi gives for the text the
-- number with this sign, or overflows with it.
pub int_text_lem :
    (n : ℕ) (neg : Bool) (size : ℤ)
    → n < 2 ^ 64
    → (text : List ℕ) × (int_text n neg size ≡ some text)
      × IsDecimal n neg size text
      × (atoi text ≡ (if neg then int_neg n else int_pos n))
      × (length text ≤ 40)
unfolding int_text
int_text_lem n neg size h =
    let (s, res, q, w) =
      put_digits-IsWritten max_any_uint_digits 20 n (protect_size size) [] (omega arith)
        (omega arith) (omega arith) in
    let (l1, l2) = length-signed neg res in
    let left = s - (length (signed neg res) - length res) in
    let missing : left ≡ width size - length (signed neg res) =
      omega (arith, w.size_left, protect_size-width size, l1) in
    let text = replicate left b' ' ++ signed neg res in
    (
      text,
      >>=-some _ _ _ q
          ∙ >>=-some _ _ _ (put_sign-signed s neg res (omega (arith, w.bounded)))
          ∙ fill_up-replicate left (signed neg res)
              (omega (arith, missing, width-le size, w.bounded, l2)),
      record {
        digits = res;
        all_digits = w.all_digits tt;
        value = w.value ∙ digits_nil n;
        lead = elim w.lead [ inl (z, e) ↦ inl e | inr p ↦ inr p ];
        few = omega (arith, w.bounded);
        filled = ap (λ m. replicate m b' ' ++ signed neg res) missing;
      },
      atoi-blanks left (signed neg res)
          ∙ atoi-signed neg res w.starts
          ∙ ap (λ (m : ℕ). if neg then int_neg m else int_pos m) (w.value ∙ digits_nil n),
      omega (
        arith,
        length-append (replicate left b' ') (signed neg res),
        length-replicate {A = ℕ} left b' ',
        missing,
        width-le size,
        w.bounded,
        l2,
      ),
    )
