-- ===== src/Checker/Behind.antt =====
-- The tidy text at the end of a word: it goes on with a NUL, or with a space and the next word.
use run_server.Base.{
  ℕ, ◌≡◌, ◌≢◌, ◌↔◌, inl, inr, refl, sym, ap, subst, ◌∙◌, Bool, true, false, List, [], ◌∷◌,
  Bool-cases, ◌==◌, ◌&&◌, not, if◌then◌else◌, arith, suc, ◌+◌, ◌≤◌, length,
}
use run_server.Checker.{is_space, at_space, skip_spaces, in_word, ends_line}
use run_server.Checker.Gaps.{
  skip_spaces-stay, at_space-skip_spaces, skip_spaces-space, length-skip_spaces,
}
use run_server.Checker.Tidy.{gap, tidy, tidy_text, tidy-skip_spaces, tidy-nul, tidy-word}

abbrev pub at_gap : List ℕ → Bool
at_gap [] = false
at_gap (c ∷ s) = not (in_word c)

-- A text that goes on with the character `c` and the characters `s` behind a gap.
abbrev behind : ℕ → List ℕ → List ℕ
behind c s = if c == 0 then tidy (c ∷ s) else 32 ∷ tidy (c ∷ s)

gap-tidy : (c : ℕ) (s : List ℕ) → is_space c ≡ false → gap (tidy (c ∷ s)) ≡ behind c s
unfolding tidy is_space
gap-tidy c s h = ground arith

abbrev nul_head : List ℕ → Bool
nul_head [] = false
nul_head (c ∷ s) = c == 0

nul_gap : (c : ℕ) → is_space c ≡ false → not (in_word c) ≡ true → (c == 0) ≡ true
unfolding in_word
nul_gap c n g = ground arith

behind-is_nul : (c : ℕ) (s : List ℕ) → (c == 0) ≡ true → behind c s ≡ tidy (c ∷ s)
behind-is_nul c s z = rw z refl

tidy-nul_eq : (c : ℕ) (s : List ℕ) → (c == 0) ≡ true → tidy (c ∷ s) ≡ 0 ∷ tidy_text s
tidy-nul_eq c s z = let e : c ≡ 0 = ground arith in rw e (tidy-nul s)

behind-is_word : (c : ℕ) (s : List ℕ) → (c == 0) ≡ false → behind c s ≡ 32 ∷ tidy (c ∷ s)
behind-is_word c s z = rw z refl

tidy-behind : (t s : List ℕ) (c : ℕ) → at_gap t ≡ true → skip_spaces t ≡ c ∷ s → tidy t ≡ behind c s
tidy-behind [] s c g k = cc
tidy-behind (d ∷ u) s c g k = elim (Bool-cases (is_space d)) [
  | inl e ↦
      tidy-skip_spaces (d ∷ u) e
      ∙ ap (λ t. gap (tidy t)) k
      ∙ gap-tidy c s (subst (λ t. at_space t ≡ false) k (at_space-skip_spaces (d ∷ u)))
  | inr e ↦
      let same = sym (skip_spaces-stay (d ∷ u) e) ∙ k in
      ap tidy same ∙ sym (behind-is_nul c s (subst (λ l. nul_head l ≡ true) same (nul_gap d e g)))
]

ends_line-nul : (c : ℕ) → is_space c ≡ false → ends_line c ≡ (c == 0)
unfolding is_space
ends_line-nul c h = ground arith

head_space : (t s : List ℕ) (c : ℕ) → skip_spaces t ≡ c ∷ s → is_space c ≡ false
head_space t s c k = subst (λ u. at_space u ≡ false) k (at_space-skip_spaces t)

-- A NUL and a word differ, at the character and in the gap in front of it.
nul-ne-word :
    (c1 c2 : ℕ) (s1 s2 : List ℕ)
    → (c1 == 0) ≡ true
    → (c2 == 0) ≡ false
    → is_space c2 ≡ false
    → (behind c1 s1 ≢ behind c2 s2) × (tidy (c1 ∷ s1) ≢ tidy (c2 ∷ s2))
unfolding in_word
nul-ne-word c1 c2 s1 s2 z1 z2 n =
    let nul = tidy-nul_eq c1 s1 z1 in
    (
      λ e. cc (sym (behind-is_nul c1 s1 z1 ∙ nul) ∙ e ∙ behind-is_word c2 s2 z2),
      λ e.
          let same = sym nul ∙ e ∙ tidy-word c2 s2 (ground arith) in
          let zero_head = ap nul_head same in ground arith,
    )

both_false : {P Q : Type 0} → ¬ P → ¬ Q → P ↔ Q
both_false p q = (λ a. absurd (p a), λ b. absurd (q b))

module _ (t1 t2 s1 s2 : List ℕ) (c1 c2 : ℕ) where
  pub tidy-next_line :
      at_gap t1 ≡ true
      → at_gap t2 ≡ true
      → skip_spaces t1 ≡ c1 ∷ s1
      → skip_spaces t2 ≡ c2 ∷ s2
      → (ends_line c1 && ends_line c2) ≡ true
      → (tidy t1 ≡ tidy t2) ↔ (tidy_text s1 ≡ tidy_text s2)
  tidy-next_line g1 g2 k1 k2 e =
      let z1 : (c1 == 0) ≡ true = ground (arith, ends_line-nul c1 (head_space t1 s1 c1 k1)) in
      let z2 : (c2 == 0) ≡ true = ground (arith, ends_line-nul c2 (head_space t2 s2 c2 k2)) in
      let b1 = tidy-behind t1 s1 c1 g1 k1 ∙ behind-is_nul c1 s1 z1 ∙ tidy-nul_eq c1 s1 z1 in
      let b2 = tidy-behind t2 s2 c2 g2 k2 ∙ behind-is_nul c2 s2 z2 ∙ tidy-nul_eq c2 s2 z2 in
      rw (b1, b2) ((λ h. cc), λ h. cc)

  pub tidy-next_word :
      at_gap t1 ≡ true
      → at_gap t2 ≡ true
      → skip_spaces t1 ≡ c1 ∷ s1
      → skip_spaces t2 ≡ c2 ∷ s2
      → (ends_line c1 && ends_line c2) ≡ false
      → (tidy t1 ≡ tidy t2) ↔ (tidy (c1 ∷ s1) ≡ tidy (c2 ∷ s2))
  tidy-next_word g1 g2 k1 k2 e =
      let n1 = head_space t1 s1 c1 k1 in
      let n2 = head_space t2 s2 c2 k2 in
      rw (tidy-behind t1 s1 c1 g1 k1, tidy-behind t2 s2 c2 g2 k2)
        (elim (Bool-cases (c1 == 0)) [
          | inl z1 ↦ elim (Bool-cases (c2 == 0)) [
            | inl z2 ↦ absurd (ground (arith, ends_line-nul c1 n1, ends_line-nul c2 n2))
            | inr z2 ↦ let (b, w) = nul-ne-word c1 c2 s1 s2 z1 z2 n2 in both_false b w
          ]
          | inr z1 ↦ elim (Bool-cases (c2 == 0)) [
            | inl z2 ↦
                let (b, w) = nul-ne-word c2 c1 s2 s1 z2 z1 n1 in
                both_false (λ h. b (sym h)) (λ h. w (sym h))
            | inr z2 ↦ rw (behind-is_word c1 s1 z1, behind-is_word c2 s2 z2) ((λ h. cc), λ h. cc)
          ]
        ])

length-skip_space : (t : List ℕ) → at_space t ≡ true → suc (length (skip_spaces t)) ≤ length t
length-skip_space [] h = cc
length-skip_space (c ∷ t) h = rw (skip_spaces-space c t h) (omega (arith, length-skip_spaces t))

stay_nul :
    (t s : List ℕ) (c : ℕ)
    → at_gap t ≡ true
    → skip_spaces t ≡ c ∷ s
    → at_space t ≡ false
    → ends_line c ≡ true
stay_nul [] s c g k n = cc
stay_nul (d ∷ u) s c g k n =
    let same = sym (skip_spaces-stay (d ∷ u) n) ∙ k in
    let z : (c == 0) ≡ true = subst (λ l. nul_head l ≡ true) same (nul_gap d n g) in ground arith

-- Two gaps that do not end a line take at least one character.
pub length-next_word :
    (t1 t2 s1 s2 : List ℕ) (c1 c2 : ℕ)
    → at_gap t1 ≡ true
    → at_gap t2 ≡ true
    → skip_spaces t1 ≡ c1 ∷ s1
    → skip_spaces t2 ≡ c2 ∷ s2
    → (ends_line c1 && ends_line c2) ≡ false
    → suc (length (c1 ∷ s1) + length (c2 ∷ s2)) ≤ length t1 + length t2
length-next_word t1 t2 s1 s2 c1 c2 g1 g2 k1 k2 e =
    let l1 = ap (length {0}) k1 in
    let l2 = ap (length {0}) k2 in
    elim (Bool-cases (at_space t1)) [
      | inl a1 ↦ omega (arith, l1, l2, length-skip_space t1 a1, length-skip_spaces t2)
      | inr a1 ↦ elim (Bool-cases (at_space t2)) [
        | inl a2 ↦ omega (arith, l1, l2, length-skip_space t2 a2, length-skip_spaces t1)
        | inr a2 ↦ absurd (ground (arith, stay_nul t1 s1 c1 g1 k1 a1, stay_nul t2 s2 c2 g2 k2 a2))
      ]
    ]

tidy-nonempty : (c : ℕ) (s : List ℕ) → is_space c ≡ false → tidy (c ∷ s) ≢ []
unfolding tidy
tidy-nonempty c s h e = elim (Bool-cases (c == 0)) [
  | inl z ↦ cc (rw (h, z, tidy) at e)
  | inr z ↦ cc (rw (h, z, tidy) at e)
]

gap-nil : (t : List ℕ) → gap t ≡ [] → t ≡ []
gap-nil [] e = refl
gap-nil (c ∷ t) e = absurd (ground arith)

pub tidy-end : (t : List ℕ) → skip_spaces t ≡ [] → tidy t ≡ []
unfolding tidy
tidy-end t k = elim (Bool-cases (at_space t)) [
  | inl a ↦ tidy-skip_spaces t a ∙ ap (λ u. gap (tidy u)) k
  | inr a ↦ ap tidy (sym (skip_spaces-stay t a) ∙ k)
]

pub tidy_on : (t s : List ℕ) (c : ℕ) → skip_spaces t ≡ c ∷ s → tidy t ≢ []
tidy_on t s c k e =
    let n = head_space t s c k in
    elim (Bool-cases (at_space t)) [
      | inl a ↦
          let g = sym (ap (λ u. gap (tidy u)) k) ∙ sym (tidy-skip_spaces t a) ∙ e in
          tidy-nonempty c s n (gap-nil (tidy (c ∷ s)) g)
      | inr a ↦ tidy-nonempty c s n (sym (ap tidy (sym (skip_spaces-stay t a) ∙ k)) ∙ e)
    ]
