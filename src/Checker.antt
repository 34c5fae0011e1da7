-- ===== src/Checker.antt =====
-- Cjudger/runner.cc: compare, the checker of the output of a solution against the expected output.
-- A file that is read is the list of its bytes from the character last read on; it is empty once
-- fgetc has returned EOF.
pub mod Gaps
pub mod Tidy
pub mod Behind
pub mod Words
pub mod SameLines
use run_server.Base.{
  ℕ, zero, suc, ◌+◌, Bool, true, false, List, [], ◌∷◌, Option, none, some, ◌==◌, leb, ◌&&◌, ◌||◌,
  not, if◌then◌else◌, ◌>>=◌, length,
}
use run_server.Verdict.{judge_ac, judge_re, judge_wa, judge_pe}

-- `isspace` of the C locale.
unfoldable pub is_space : ℕ → Bool
is_space c = c == 32 || (leb 9 c && leb c 13)

abbrev pub at_space : List ℕ → Bool
at_space [] = false
at_space (c ∷ s) = is_space c

-- `c = fgetc(f)`.
abbrev pub fgetc : List ℕ → List ℕ
fgetc [] = []
fgetc (c ∷ s) = s

-- The characters from the first on that is no white space.
unfoldable pub skip_spaces : List ℕ → List ℕ
skip_spaces [] = []
skip_spaces (c ∷ s) = if is_space c then skip_spaces s else c ∷ s

-- The two files, with `c1` and `c2`, and `ret`.
pub record Reading : Type 0 where
  pub f1 : List ℕ
  pub f2 : List ℕ
  pub ret : ℕ

-- `if (isspace(c)) c = fgetc(f)`.
unfoldable pub pass_space : List ℕ → List ℕ
pass_space s = if at_space s then fgetc s else s

abbrev pub pass_spaces : List ℕ → List ℕ → ℕ → Reading
pass_spaces s1 s2 ret = record { f1 = pass_space s1; f2 = pass_space s2; ret = ret }

-- The body of the loop of `find_next_nonspace`.
unfoldable pub gap_step : List ℕ → List ℕ → ℕ → Reading
gap_step [] [] ret = pass_spaces [] [] ret
gap_step (c1 ∷ s1) [] ret = record { f1 = skip_spaces s1; f2 = []; ret = ret }
gap_step [] (c2 ∷ s2) ret = record { f1 = []; f2 = skip_spaces s2; ret = ret }
gap_step (c1 ∷ s1) (c2 ∷ s2) ret =
    if c1 == c2
    then pass_spaces (c1 ∷ s1) (c2 ∷ s2) ret
    else if c1 == b'\r' && c2 == b'\n'
    then pass_spaces s1 (c2 ∷ s2) ret
    else if c2 == b'\r' && c1 == b'\n'
    then pass_spaces (c1 ∷ s1) s2 ret
    else pass_spaces (c1 ∷ s1) (c2 ∷ s2) judge_pe

-- The loop of `find_next_nonspace`, on fuel.
unfoldable pub find_from : ℕ → Reading → Option Reading
find_from zero r = none
find_from (suc n) r = elim (at_space r.f1 || at_space r.f2) [
  | true ↦ find_from n (gap_step r.f1 r.f2 r.ret)
  | false ↦ some r
]

unfoldable pub find_next_nonspace : Reading → Option Reading
find_next_nonspace r = find_from (suc (length r.f1 + length r.f2)) r

-- How the loop over the characters of a word is left: to `end`, or to the gap behind it.
pub data WordEnd : Type 0 where
  finished : ℕ → WordEnd
  left : List ℕ → List ℕ → WordEnd

-- `!isspace(c) && c`, on a character that is not EOF.
unfoldable pub in_word : ℕ → Bool
in_word c = not (is_space c) && not (c == 0)

-- The loop over the characters of a word; the test of the loop holds at EOF.
unfoldable pub compare_word : List ℕ → List ℕ → ℕ → WordEnd
compare_word [] [] ret = finished ret
compare_word [] (c2 ∷ s2) ret = left [] (c2 ∷ s2)
compare_word (c1 ∷ s1) [] ret = left (c1 ∷ s1) []
compare_word (c1 ∷ s1) (c2 ∷ s2) ret =
    if in_word c1 || in_word c2
    then if c1 == c2 then compare_word s1 s2 ret else finished judge_wa
    else left (c1 ∷ s1) (c2 ∷ s2)

-- `c == '\n' || !c`.
abbrev pub ends_line : ℕ → Bool
ends_line c = c == b'\n' || c == 0

-- How the loop over words goes on behind a gap.
pub data Turn : Type 0 where
  goto_end : ℕ → Turn
  next_word : Turn
  next_line : Turn

unfoldable pub after_gap : List ℕ → List ℕ → ℕ → Turn
after_gap [] [] ret = goto_end ret
after_gap [] (c2 ∷ s2) ret = goto_end judge_wa
after_gap (c1 ∷ s1) [] ret = goto_end judge_wa
after_gap (c1 ∷ s1) (c2 ∷ s2) ret = if ends_line c1 && ends_line c2 then next_line else next_word

-- What follows the gap behind a word, where `lines` is the loop over words from there on.
unfoldable pub turn : (Reading → Option ℕ) → Reading → Option ℕ
turn lines g = elim (after_gap g.f1 g.f2 g.ret) [
  | goto_end v ↦ some v
  | next_word ↦ lines g
  | next_line ↦
      find_next_nonspace (record { f1 = fgetc g.f1; f2 = fgetc g.f2; ret = g.ret }) >>= lines
]

unfoldable pub after_word : (Reading → Option ℕ) → ℕ → WordEnd → Option ℕ
after_word lines ret (finished v) = some v
after_word lines ret (left s1 s2) =
    find_next_nonspace (record { f1 = s1; f2 = s2; ret = ret }) >>= turn lines

-- The two loops of `compare` on fuel, from the loop over the characters of a word on.
unfoldable pub compare_lines : ℕ → Reading → Option ℕ
compare_lines zero r = none
compare_lines (suc n) r = after_word (compare_lines n) r.ret (compare_word r.f1 r.f2 r.ret)

-- `compare`, on the contents of the files; `none` for a file that cannot be opened.
unfoldable pub compare : Option (List ℕ) → Option (List ℕ) → Option ℕ
compare none file2 = some judge_re
compare (some s1) none = some judge_re
compare (some s1) (some s2) =
    find_next_nonspace (record { f1 = s1; f2 = s2; ret = judge_ac })
    >>= compare_lines (suc (length s1 + length s2))
