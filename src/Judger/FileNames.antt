-- ===== src/Judger/FileNames.antt =====
-- Which directory entries are tests.
use mathlib.Core.Option.{some-ne-none}
use run_server.Base.{
  ℕ, ◌+◌, ◌-◌, ◌≤◌, ◌≡◌, ◌≢◌, inl, inr, ◌⊎◌, refl, sym, ap, ◌∙◌, true, false, List, [], ◌∷◌, ◌++◌,
  Option, none, some, Bool-cases, leb, ◌||◌, not, length, drop, take, take-append-drop,
  length-append, drop-append, arith,
}
use run_server.Judger.{same_text, in_ext, Files, test_files, prepare_files}

same_text-eq : (s t : List ℕ) → same_text s t ≡ true → s ≡ t
unfolding same_text
same_text-eq [] [] h = refl
same_text-eq [] (d ∷ t) h = cc
same_text-eq (c ∷ s) [] h = cc
same_text-eq (c ∷ s) (d ∷ t) h = ground (arith, same_text-eq s t)

same_text_self : (s : List ℕ) → same_text s s ≡ true
unfolding same_text
same_text_self [] = refl
same_text_self (c ∷ s) = ground (arith, same_text_self s)

-- A file name of at least one character, and ".in".
abbrev pub IsTest : List ℕ → Type 0
IsTest filename = (fname : List ℕ) × (fname ≢ []) × (filename ≡ fname ++ in_ext)

take-append : (xs ys : List ℕ) → take (length xs) (xs ++ ys) ≡ xs
take-append [] ys = refl
take-append (x ∷ xs) ys = ap (λ l. x ∷ l) (take-append xs ys)

length-pos : (l : List ℕ) → l ≢ [] → 1 ≤ length l
length-pos [] h = absurd (h refl)
length-pos (x ∷ l) h = omega arith

-- prepare_files gives the three names for a test, and returns 0 for any other entry.
pub prepare_files-IsTest :
    (unset : ℕ) (fname : List ℕ)
    → fname ≢ []
    → prepare_files unset (fname ++ in_ext) ≡ (unset, some (test_files fname))
unfolding prepare_files same_text
prepare_files-IsTest unset fname h =
    let len : length (fname ++ in_ext) ≡ length fname + 3 = length-append fname in_ext in
    let l3 : length fname + 3 - 3 ≡ length fname = omega arith in
    let big : leb (length fname + 3) 3 ≡ false = ground (arith, length-pos fname h) in
    rw (len, l3, big, drop-append fname in_ext, take-append fname in_ext) refl

-- The names of a file that has the ending.
split_end :
    (filename : List ℕ)
    → leb (length filename) 3 ≡ false
    → same_text (drop (length filename - 3) filename) in_ext ≡ true
    → (filename ≡ take (length filename - 3) filename ++ in_ext)
      × (take (length filename - 3) filename ≢ [])
split_end filename b h =
    let n = length filename - 3 in
    let ends = same_text-eq (drop n filename) in_ext h in
    let whole = sym (take-append-drop n filename) ∙ ap (λ l. take n filename ++ l) ends in
    (
      whole,
      λ e.
          let len : length filename ≡ 3 = ap (length {0}) (whole ∙ ap (λ l. l ++ in_ext) e) in
          ground arith,
    )

not-IsTest :
    (unset : ℕ) (filename : List ℕ)
    → (leb (length filename) 3 || not (same_text (drop (length filename - 3) filename) in_ext))
      ≡ true
    → ¬ IsTest filename
unfolding prepare_files
not-IsTest unset filename b (fname, some_name, whole) =
    let skipped : prepare_files unset filename ≡ (0, none) = rw (b, prepare_files) refl in
    let found = prepare_files-IsTest unset fname some_name in
    let same = ap (prepare_files unset) whole ∙ found in
    some-ne-none _ (ap (λ (p : ℕ × Option Files). p.1) (sym same ∙ skipped))

-- For each entry of the directory, either it is a file name of at least one character and ".in", and
-- prepare_files gives the names of the test, or it is not, and prepare_files returns 0.
pub prepare_files-cases :
    (unset : ℕ) (filename : List ℕ)
    → ((fname : List ℕ) × (fname ≢ [])
        × (filename ≡ fname ++ in_ext)
        × (prepare_files unset filename ≡ (unset, some (test_files fname))))
      ⊎ ((¬ IsTest filename) × (prepare_files unset filename ≡ (0, none)))
unfolding prepare_files
prepare_files-cases unset filename =
    let n = length filename - 3 in
    let test = leb (length filename) 3 || not (same_text (drop n filename) in_ext) in
    elim (Bool-cases test) [
      | inl b ↦ inr (not-IsTest unset filename b, rw b refl)
      | inr b ↦
          let (whole, some_name) = split_end filename (ground arith) (ground arith) in
          inl (take n filename, some_name, whole, rw b refl)
    ]
