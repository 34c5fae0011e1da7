-- ===== src/Checker/Tidy.antt =====
-- A reference for compare: the text with each run of white space as one space.
use run_server.Base.{
  ℕ, ◌≡◌, ◌≢◌, ◌⊎◌, inl, inr, refl, sym, ap, subst, ◌↔◌, ◌∙◌, true, false, List, [], ◌∷◌, Option,
  none, some, some_inv, Bool-cases, ◌==◌, ◌||◌, arith, if◌then◌else◌,
}
use run_server.Checker.Gaps.{skip_spaces-stay, at_space-skip_spaces}
use run_server.Checker.{is_space, at_space, skip_spaces, in_word}

-- A space in front of a tidy text, unless it would stand at the end or beside a NUL or a space.
abbrev pub gap : List ℕ → List ℕ
gap [] = []
gap (c ∷ t) = if c == 32 || c == 0 then c ∷ t else 32 ∷ c ∷ t

abbrev pub without_gap : List ℕ → List ℕ
without_gap [] = []
without_gap (c ∷ t) = if c == 32 then t else c ∷ t

-- Each run of white space is one space; there is none at the end, or beside a NUL.
unfoldable pub tidy : List ℕ → List ℕ
tidy [] = []
tidy (c ∷ s) =
    let t = tidy s in if is_space c then gap t else if c == 0 then 0 ∷ without_gap t else c ∷ t

-- The same without white space at the start.
abbrev pub tidy_text : List ℕ → List ℕ
tidy_text s = tidy (skip_spaces s)

gap_idem : (t : List ℕ) → gap (gap t) ≡ gap t
gap_idem [] = refl
gap_idem (c ∷ t) = ground arith

pub tidy-skip_spaces : (s : List ℕ) → at_space s ≡ true → tidy s ≡ gap (tidy_text s)
unfolding tidy skip_spaces
tidy-skip_spaces [] h = cc
tidy-skip_spaces (c ∷ []) h = ground arith
tidy-skip_spaces (c ∷ d ∷ s) h = elim (Bool-cases (is_space d)) [
  | inl e ↦ rw h (ap gap (tidy-skip_spaces (d ∷ s) e) ∙ gap_idem (tidy_text (d ∷ s)))
  | inr e ↦ rw (h, e, e) refl
]

-- The first character of a tidy text.
pub tidy-word : (c : ℕ) (s : List ℕ) → in_word c ≡ true → tidy (c ∷ s) ≡ c ∷ tidy s
unfolding tidy in_word
tidy-word c s h = ground arith

without_gap-gap : (t : List ℕ) → without_gap (gap t) ≡ without_gap t
without_gap-gap [] = refl
without_gap-gap (c ∷ t) = ground arith

without_gap-tidy_stay : (s : List ℕ) → at_space s ≡ false → without_gap (tidy s) ≡ tidy s
unfolding tidy is_space
without_gap-tidy_stay [] h = refl
without_gap-tidy_stay (c ∷ s) h = ground arith

pub without_gap-tidy : (s : List ℕ) → without_gap (tidy s) ≡ tidy_text s
without_gap-tidy s = elim (Bool-cases (at_space s)) [
  | inl e ↦ rw (tidy-skip_spaces s e) (
      without_gap-gap (tidy_text s)
      ∙ without_gap-tidy_stay (skip_spaces s) (at_space-skip_spaces s))
  | inr e ↦ without_gap-tidy_stay s e ∙ ap tidy (sym (skip_spaces-stay s e))
]

pub tidy-nul : (s : List ℕ) → tidy (0 ∷ s) ≡ 0 ∷ tidy_text s
unfolding tidy is_space
tidy-nul s = ap (λ t. 0 ∷ t) (without_gap-tidy s)

abbrev head : List ℕ → Option ℕ
head [] = none
head (c ∷ s) = some c

-- No character, a space, or a NUL.
abbrev IsGap : Option ℕ → Type 0
IsGap o = (o ≡ none) ⊎ ((o ≡ some 32) ⊎ (o ≡ some 0))

head-gap-IsGap : (t : List ℕ) → IsGap (head (gap t))
head-gap-IsGap [] = inl refl
head-gap-IsGap (c ∷ t) = ground arith

-- Behind white space or at a NUL, a tidy text starts with a space or a NUL, or ends.
head-tidy-IsGap : (c : ℕ) (s : List ℕ) → in_word c ≡ false → IsGap (head (tidy (c ∷ s)))
unfolding tidy in_word
head-tidy-IsGap c s h = ground (arith, head-gap-IsGap (tidy s))

not-IsGap : (c : ℕ) → in_word c ≡ true → ¬ IsGap (some c)
unfolding in_word is_space
not-IsGap c h g = ground arith

word-ne-gap :
    (c1 c2 : ℕ) (s1 s2 : List ℕ)
    → in_word c1 ≡ true
    → in_word c2 ≡ false
    → tidy (c1 ∷ s1) ≢ tidy (c2 ∷ s2)
word-ne-gap c1 c2 s1 s2 w g e =
    not-IsGap c1 w
      (subst (λ t. IsGap (head t)) (sym e ∙ tidy-word c1 s1 w) (head-tidy-IsGap c2 s2 g))

-- Two characters of which one is in a word differ in the tidy texts if they differ.
pub tidy_ne :
    (c1 c2 : ℕ) (s1 s2 : List ℕ)
    → (in_word c1 || in_word c2) ≡ true
    → (c1 == c2) ≡ false
    → tidy (c1 ∷ s1) ≢ tidy (c2 ∷ s2)
tidy_ne c1 c2 s1 s2 w n e = elim (Bool-cases (in_word c1)) [
  | inl w1 ↦ elim (Bool-cases (in_word c2)) [
    | inl w2 ↦
        let same : some c1 ≡ some c2 =
          ap head (sym (tidy-word c1 s1 w1) ∙ e ∙ tidy-word c2 s2 w2) in
        let eq = some_inv same in ground arith
    | inr g2 ↦ word-ne-gap c1 c2 s1 s2 w1 g2 e
  ]
  | inr g1 ↦ word-ne-gap c2 c1 s2 s1 (ground arith) g1 (sym e)
]

-- The same character in front.
pub tidy-cons_iff :
    (c : ℕ) (s1 s2 : List ℕ)
    → in_word c ≡ true
    → (tidy (c ∷ s1) ≡ tidy (c ∷ s2)) ↔ (tidy s1 ≡ tidy s2)
tidy-cons_iff c s1 s2 w = rw (tidy-word c s1 w, tidy-word c s2 w) ((λ e. cc), λ e. cc)
