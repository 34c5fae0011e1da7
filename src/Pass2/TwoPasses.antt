-- ===== src/Pass2/TwoPasses.antt =====
-- The buffer that the first pass leaves lets the second pass find the lines in the text.
use mathlib.Core.List.{Mem, append_assoc}
use run_server.Base.{
  get_elem?-middle, ℕ, zero, suc, ◌+◌, ◌-◌, ◌<◌, ◌≡◌, inl, inr, refl, ap, ap₂, subst, ◌∙◌, List, [],
  ◌∷◌, ◌++◌, some, map, Bool-cases, ◌==◌, if◌then◌else◌, length, length-append, arith,
}
use run_server.Text.{Position}
use run_server.Token.{end_of_line, token_eq}
use mathlib.Core.List.Perm
use run_server.SortList.{sort_list}
use run_server.SortList.Laws.{sort_list-perm}
use run_server.Newlines.Lines.{lines}
use run_server.Newlines.FirstPass.{tokens}
use run_server.Pass2.{fill_pos, pass2_txt, pos_before}
use run_server.Pass2.LineNumbers.{
  line_at, sum, Slice, numbered, AllBelow, AllBelow-all, pass2_txt-numbered,
}

-- The number of the line of token `k` in a text: one more than the End_Of_Lines in front of it.
abbrev pub line_of : List ℕ → ℕ → ℕ
line_of [] k = 1
line_of (tk ∷ tks) k =
    if token_eq tk end_of_line
    then 1 + line_of tks k
    else (if k == 0 then 1 else line_of tks (k - 1))

lines-sum : (tks : List ℕ) (count : ℕ) → sum (lines tks count) ≡ count + length (tokens tks)
lines-sum [] count = ground arith
lines-sum (tk ∷ tks) count = elim (Bool-cases (token_eq tk end_of_line)) [
  | inl e ↦ rw e (omega (arith, lines-sum tks 0))
  | inr e ↦ rw e (omega (arith, lines-sum tks (count + 1)))
]

-- The first `count` tokens of a line that has begun stand on line 1.
lines-begun : (tks : List ℕ) (count k : ℕ) → k < count → line_at (lines tks count) k ≡ 1
lines-begun [] count k lt = ground arith
lines-begun (tk ∷ tks) count k lt = elim (Bool-cases (token_eq tk end_of_line)) [
  | inl e ↦ rw e (ground (arith, lt))
  | inr e ↦ rw e (lines-begun tks (count + 1) k (omega arith))
]

-- The token at the end of a line that has begun.
line_of_other :
    (tks : List ℕ) (count k : ℕ)
    → ((j : ℕ) → j + 1 ≡ k → line_at (lines tks (count + 1)) (count + 1 + j) ≡ line_of tks j)
    → line_at (lines tks (count + 1)) (count + k) ≡ (if k == 0 then 1 else line_of tks (k - 1))
line_of_other tks count zero f = lines-begun tks (count + 1) (count + 0) (omega arith)
line_of_other tks count (suc k) f =
    let same : count + suc k ≡ count + 1 + k = omega arith in
    let less : k ≡ suc k - 1 = omega arith in
    ap (line_at (lines tks (count + 1))) same
    ∙ f k (omega arith)
    ∙ ap (line_of tks) less
    ∙ ground arith

line_at-lines :
    (tks : List ℕ) (count k : ℕ)
    → k < length (tokens tks)
    → line_at (lines tks count) (count + k) ≡ line_of tks k
line_at-lines [] count k lt = absurd (omega arith)
line_at-lines (tk ∷ tks) count k lt = elim (Bool-cases (token_eq tk end_of_line)) [
  | inl e ↦
      let less : k < length (tokens tks) = rw e at lt in
      let rest : line_at (lines tks 0) (count + k - count) ≡ line_of tks k =
        ap (line_at (lines tks 0)) (let same : count + k - count ≡ 0 + k = omega arith in same)
        ∙ line_at-lines tks 0 k less in
      rw e (ground (arith, rest))
  | inr e ↦
      let less : k < suc (length (tokens tks)) = rw e at lt in
      rw e (
        line_of_other tks count k (λ j q. line_at-lines tks (count + 1) j (omega (arith, less, q))))
]

Slice-middle :
    (pre ds post : List ℕ) → Slice (pre ++ (ds ++ post)) (length pre) (length pre + length ds) ds
Slice-middle pre [] post = omega arith
Slice-middle pre (d ∷ ds) post =
    let one : length (pre ++ (d ∷ [])) ≡ length pre + 1 =
      omega (arith, length-append pre (d ∷ [])) in
    let end : length pre + 1 + length ds ≡ length pre + suc (length ds) = omega arith in
    (
      omega arith,
      get_elem?-middle pre d (ds ++ post),
      subst (λ q. Slice (pre ++ (d ∷ (ds ++ post))) (length pre + 1) q ds) end
          (rw (append_assoc pre (d ∷ []) (ds ++ post), one) at
            (Slice-middle (pre ++ (d ∷ [])) ds post)),
    )

-- The position with the line number for its type: the first position of a chunk, of type 0, stands on
-- line `l`, and the last one, of type 1, gets the number of the next line.
abbrev pub with_type : ℕ → ℕ → Position → Position
with_type zero l pos = record pos { ps_nl_cnt = l }
with_type (suc zero) l pos = record pos { ps_nl_cnt = l + 1 }
with_type (suc (suc n)) l pos = pos

abbrev pub with_line : (ℕ → ℕ) → Position → Position
with_line line pos = with_type pos.ps_type (line pos.ps_tk_cnt) pos

fill_pos-with_type :
    (t l : ℕ) (pos : Position) → t ≡ pos.ps_type → fill_pos l (l + 1) pos ≡ with_type t l pos
unfolding fill_pos
fill_pos-with_type zero l pos e = ground (arith, e)
fill_pos-with_type (suc zero) l pos e = ground (arith, e)
fill_pos-with_type (suc (suc n)) l pos e = ground (arith, e)

map-numbered :
    (tks : List ℕ) (poss : List Position)
    → AllBelow (length (tokens tks)) poss
    → map (numbered (line_at (lines tks 0))) poss ≡ map (with_line (line_of tks)) poss
map-numbered tks [] below = refl
map-numbered tks (pos ∷ poss) (lt, below) =
    let same : pos.ps_tk_cnt ≡ 0 + pos.ps_tk_cnt = omega arith in
    ap₂ ◌∷◌
      (ap (λ l. fill_pos l (l + 1) pos)
          (ap (line_at (lines tks 0)) same ∙ line_at-lines tks 0 pos.ps_tk_cnt lt)
        ∙ fill_pos-with_type pos.ps_type (line_of tks pos.ps_tk_cnt) pos refl)
      (map-numbered tks poss below)

-- Let the buffer hold the lines of a text, with the entries of other texts in front and behind, and let
-- the positions of the text be those of tokens that it has. Then the second pass ends within these
-- entries. It sorts the positions by their tokens, and gives the first position of a chunk the number
-- of the line of its token, which is one more than the End_Of_Lines in front of it in the text, and the
-- last position of a chunk the number of the line after.
pub pass2_txt-lines :
    (tks pre post : List ℕ) (lex_token : ℕ) (tx_pos : List Position)
    → ((pos : Position) → Mem pos tx_pos → pos.ps_tk_cnt < length (tokens tks))
    → pass2_txt
        (pre ++ (lines tks 0 ++ post))
        lex_token
        (length pre)
        (length pre + length (lines tks 0))
        tx_pos
      ≡ some (map (with_line (line_of tks)) (sort_list pos_before tx_pos))
pass2_txt-lines tks pre post lex_token tx_pos below =
    pass2_txt-numbered (pre ++ (lines tks 0 ++ post)) lex_token (length pre)
      (length pre + length (lines tks 0)) (lines tks 0) tx_pos (Slice-middle pre (lines tks 0) post)
      (λ pos m. omega (arith, lines-sum tks 0, below pos m))
    ∙ ap some (
        map-numbered tks (sort_list pos_before tx_pos) (
          AllBelow-all (length (tokens tks)) (sort_list pos_before tx_pos)
            (λ pos m. below pos ((Perm.mem_iff (sort_list-perm pos_before tx_pos)).0 m))))
