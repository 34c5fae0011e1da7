-- ===== src/Pass3/LineSkips.antt =====
-- Where the file stands behind the lines that have been skipped or shown.
use run_server.Base.{
  ℕ, zero, suc, ◌-◌, ◌≡◌, refl, sym, ◌∙◌, true, false, inl, inr, List, [], ◌∷◌, Bool-cases, leb,
  ◌==◌, ◌||◌, if◌then◌else◌, arith,
}
use run_server.Pass3.{skip_lines, fill_rest, fill_indent, fill_line, next_indent, put}

-- The text behind its first newline.
unfoldable pub after_line : List ℕ → List ℕ
after_line [] = []
after_line (c ∷ f) = if c == b'\n' then f else after_line f

unfoldable pub drop_lines : ℕ → List ℕ → List ℕ
drop_lines zero f = f
drop_lines (suc n) f = drop_lines n (after_line f)

drop_lines-nil : (n : ℕ) → drop_lines n [] ≡ []
unfolding drop_lines after_line
drop_lines-nil zero = refl
drop_lines-nil (suc n) = drop_lines-nil n

skip_lines-one : (f : List ℕ) → skip_lines 1 f ≡ f
unfolding skip_lines
skip_lines-one [] = refl
skip_lines-one (c ∷ f) = refl

pub skip_lines-drop_lines : (n : ℕ) (f : List ℕ) → skip_lines (suc n) f ≡ drop_lines n f
unfolding skip_lines drop_lines after_line
skip_lines-drop_lines zero f = skip_lines-one f
skip_lines-drop_lines (suc n) [] = sym (drop_lines-nil n)
skip_lines-drop_lines (suc n) (c ∷ f) =
    let more : leb (suc (suc n)) 1 ≡ false = ground arith in
    let less : suc (suc n) - 1 ≡ suc n = omega arith in
    elim (Bool-cases (c == b'\n')) [
      | inl e ↦ rw (more, e, less) (skip_lines-drop_lines n f)
      | inr e ↦ rw (more, e) (skip_lines-drop_lines (suc n) f)
    ]

after_blank :
    (ch : ℕ) (f : List ℕ) → (ch == b' ' || ch == b'\t') ≡ true → after_line (ch ∷ f) ≡ after_line f
unfolding after_line
after_blank ch f e = ground arith

module _ (max_line_length : ℕ) where
  fill_rest-after_line : (f ln : List ℕ) → (fill_rest max_line_length f ln).1 ≡ after_line f
  unfolding fill_rest after_line
  fill_rest-after_line [] ln = refl
  fill_rest-after_line (ch ∷ f) ln = elim (Bool-cases (ch == b'\n')) [
    | inl e ↦ rw e refl
    | inr e ↦
        rw e (fill_rest-after_line f (put max_line_length (if ch == b'\t' then b' ' else ch) ln))
  ]

  fill_indent-after_line :
      (f : List ℕ) (indent : ℕ) (ln : List ℕ)
      → (fill_indent max_line_length f indent ln).1 ≡ after_line f
  unfolding fill_indent after_line
  fill_indent-after_line [] indent ln = refl
  fill_indent-after_line (ch ∷ f) indent ln = elim (Bool-cases (ch == b' ' || ch == b'\t')) [
    | inl e ↦ rw e (
        fill_indent-after_line f (if next_indent ch indent == 8 then 0 else next_indent ch indent)
          (if next_indent ch indent == 8 then put max_line_length b' ' ln else ln)
        ∙ sym (after_blank ch f e))
    | inr e ↦ rw e (fill_rest-after_line (ch ∷ f) ln)
  ]

  -- fill_line reads up to the newline.
  pub fill_line-after_line : (f : List ℕ) → (fill_line max_line_length f).1 ≡ after_line f
  unfolding fill_line
  fill_line-after_line f = fill_indent-after_line f 0 []
