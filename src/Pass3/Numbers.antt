-- ===== src/Pass3/Numbers.antt =====
-- The widths that pass 3 counts are those of what it prints.
use mathlib.Core.Option.{some-ne-none}
use run_server.Base.{
  ℕ, zero, suc, ◌+◌, ◌-◌, ◌/◌, ◌%◌, ◌^◌, ◌<◌, ◌≡◌, refl, sym, ap, ◌∙◌, true, false, inl, inr, List,
  [], ◌∷◌, ◌++◌, some, some_inv, Bool-cases, ltb, ◌==◌, >>=-some, length, length-append,
  length-replicate, if◌then◌else◌, arith,
}
use run_server.AnyInt.{protect_size, put_digits, fill_up, int_text}
use run_server.AnyInt.Digits.{put_digits-IsWritten}
use run_server.Pass3.{
  ChunkView, size_t2string, unslen_from, unslen, minus, pru, line_text, pr_head, blanks, heading,
}

-- Both loops go on for as long as the number has a digit more.
unslen_from-put_digits :
    (free val size res s' : ℕ) (text text' : List ℕ)
    → put_digits free val size text ≡ some (s', text')
    → (n : ℕ) × (unslen_from free val res ≡ some n) × (suc n + length text ≡ res + length text')
unfolding put_digits unslen_from
unslen_from-put_digits zero val size res s' text text' e = absurd (some-ne-none _ (sym e))
unslen_from-put_digits (suc free) val size res s' text text' e = elim (Bool-cases (val / 10 == 0)) [
  | inl b ↦
      let same = some_inv (rw (b, put_digits) at e) in
      let text_eq = ap (λ (p : ℕ × List ℕ). length p.1) same in
      let last : ltb 9 val ≡ false = ground arith in
      (res, rw (last, unslen_from) refl, omega (arith, text_eq))
  | inr b ↦
      let more : ltb 9 val ≡ true = ground arith in
      let (n, q, l) =
        unslen_from-put_digits free (val / 10) (size - 1) (res + 1) s' ((b'0' + val % 10) ∷ text)
          text' (rw (b, put_digits) at e) in
      (n, rw (more, unslen_from) q, omega (arith, l))
]

-- size_t2string succeeds on 64 bits, and unslen gives the length of its text.
pub unslen-size_t2string :
    (u : ℕ)
    → u < 2 ^ 64
    → (str : List ℕ) × (size_t2string u ≡ some str) × (unslen u ≡ some (length str))
unfolding size_t2string unslen int_text fill_up protect_size
unslen-size_t2string u h =
    let (s, res, q, w) =
      put_digits-IsWritten 40 20 u 0 [] (omega arith) (omega arith) (omega arith) in
    let (n, q', l) = unslen_from-put_digits 40 u 0 1 s [] res q in
    let none_left : s ≡ 0 = omega (arith, w.size_left) in
    (res, >>=-some _ _ _ q ∙ ap (λ k. fill_up k res) none_left, q' ∙ ap some (omega (arith, l)))

pru-length : (u : ℕ) → u < 2 ^ 64 → (str : List ℕ) × (pru u ≡ some (length str, str))
unfolding pru
pru-length u h =
    let (str, q, n) = unslen-size_t2string u h in (str, >>=-some _ _ _ q ∙ >>=-some _ _ _ n)

-- pr_head returns the number of characters that it prints.
pub pr_head-length :
    (cnk : ChunkView)
    → cnk.first_nl < 2 ^ 64
    → (text : List ℕ) × (pr_head cnk ≡ some (length text, text))
unfolding pr_head
pr_head-length cnk h =
    let (first, q) = pru-length cnk.first_nl h in
    let (last, q') = pru-length (minus cnk.last_nl 1) (omega arith) in
    let text = cnk.fname ++ (line_text ++ (first ++ (b'-' ∷ last))) in
    let width : length cnk.fname + length line_text + length first + 1 + length last ≡ length text =
      omega (
        arith,
        length-append cnk.fname (line_text ++ (first ++ (b'-' ∷ last))),
        length-append line_text (first ++ (b'-' ∷ last)),
        length-append first (b'-' ∷ last),
      ) in
    (text, >>=-some _ _ _ q ∙ >>=-some _ _ _ q' ∙ ap (λ n. some (n, text)) width)

-- The heading has a bar behind `max_line_length + 1` characters, or behind those of the first
-- chunk, if these are more.
pub heading-bar :
    (max_line_length size : ℕ) (cnk0 cnk1 : ChunkView)
    → cnk0.first_nl < 2 ^ 64
    → cnk1.first_nl < 2 ^ 64
    → size < 2 ^ 64
    → (text left right : List ℕ) × (pr_head cnk0 ≡ some (length text, text))
      × (heading max_line_length cnk0 cnk1 size ≡ some (left ++ (b'|' ∷ right)))
      × (length left
          ≡ (if ltb (length text) (max_line_length + 1) then max_line_length + 1 else length text))
unfolding heading
heading-bar max_line_length size cnk0 cnk1 h0 h1 h =
    let (t0, q0) = pr_head-length cnk0 h0 in
    let (t1, q1) = pr_head-length cnk1 h1 in
    let (str, s, n) = unslen-size_t2string size h in
    (
      t0,
      t0 ++ blanks (max_line_length + 1) (length t0),
      _,
      q0,
      >>=-some _ _ _ q0 ∙ >>=-some _ _ _ q1 ∙ >>=-some _ _ _ n ∙ >>=-some _ _ _ s,
      ground (
        arith,
        length-append t0 (blanks (max_line_length + 1) (length t0)),
        length-replicate {A = ℕ} (max_line_length + 1 - length t0) b' ',
      ),
    )
