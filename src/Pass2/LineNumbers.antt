-- ===== src/Pass2/LineNumbers.antt =====
-- The second pass gives every position the number of the line where its token stands.
use run_server.Base.{
  ℕ, zero, suc, ◌+◌, ◌-◌, ◌≤◌, ◌<◌, ◌≡◌, inl, inr, refl, sym, ap, ap₂, ◌∙◌, false, List, [], ◌∷◌,
  some, Bool-cases, leb, ltb, ◌==◌, if◌then◌else◌, length, map, get_elem?, arith,
}
use mathlib.Core.List.{Mem, mem-cons_self, mem-cons_of_mem}
use mathlib.Core.List.Perm
use run_server.SortList.{sort_list}
use run_server.SortList.Laws.{IsLeast, IsSorted, sort_list-perm, sort_list-IsSorted}
use run_server.Token.{end_of_line}
use run_server.Text.{Position}
use run_server.Pass2.{
  Reader, open_second, next_text_eol, find_line, fill_pos, fill_from, pass2_txt, pos_before,
}

-- The number of the line of token `k`, from 1 on, by the numbers of tokens on the lines.
abbrev pub line_at : List ℕ → ℕ → ℕ
line_at [] k = 1
line_at (d ∷ ds) k = if ltb k d then 1 else 1 + line_at ds (k - d)

abbrev pub sum : List ℕ → ℕ
sum [] = 0
sum (d ∷ ds) = d + sum ds

-- The entries of the buffer from `next` on, up to `limit`.
abbrev pub Slice : List ℕ → ℕ → ℕ → List ℕ → Type 0
Slice nl_buff next limit [] = next ≡ limit
Slice nl_buff next limit (d ∷ ds) =
    (next < limit) × (get_elem? nl_buff next ≡ some d) × Slice nl_buff (next + 1) limit ds

Slice-length :
    (nl_buff : List ℕ) (next limit : ℕ) (ds : List ℕ)
    → Slice nl_buff next limit ds
    → length ds ≡ limit - next
Slice-length nl_buff next limit [] s = omega (arith, s)
Slice-length nl_buff next limit (d ∷ ds) (lt, e, s) =
    omega (arith, Slice-length nl_buff (next + 1) limit ds s)

-- A position with its line: that of its token for the first of a chunk, the next one for the last.
abbrev pub numbered : (ℕ → ℕ) → Position → Position
numbered line pos = fill_pos (line pos.ps_tk_cnt) (line pos.ps_tk_cnt + 1) pos

abbrev AllFrom : ℕ → List Position → Type 0
AllFrom k [] = Unit
AllFrom k (pos ∷ poss) = (k ≤ pos.ps_tk_cnt) × AllFrom k poss

abbrev pub AllBelow : ℕ → List Position → Type 0
AllBelow n [] = Unit
AllBelow n (pos ∷ poss) = (pos.ps_tk_cnt < n) × AllBelow n poss

AllFrom-zero : (poss : List Position) → AllFrom 0 poss
AllFrom-zero [] = tt
AllFrom-zero (pos ∷ poss) = (omega arith, AllFrom-zero poss)

IsLeast-AllFrom :
    (pos : Position) (poss : List Position)
    → IsLeast pos_before pos poss
    → AllFrom pos.ps_tk_cnt poss
IsLeast-AllFrom pos [] h = tt
IsLeast-AllFrom pos (q ∷ poss) (e, h) = (ground (arith, e), IsLeast-AllFrom pos poss h)

pub AllBelow-all :
    (n : ℕ) (poss : List Position)
    → ((pos : Position) → Mem pos poss → pos.ps_tk_cnt < n)
    → AllBelow n poss
AllBelow-all n [] f = tt
AllBelow-all n (pos ∷ poss) f = (
  f pos (mem-cons_self {a = pos} {l = poss}),
  AllBelow-all n poss (λ q m. f q (mem-cons_of_mem pos m)),
)

module _ (nl_buff : List ℕ) (nl_limit : ℕ) (line : ℕ → ℕ) (n : ℕ) where
  -- The scan stands behind a line: the tokens from `k` on are on this line, `old`, or on a later one.
  record IsReading (k old : ℕ) (r : Reader) (left : List ℕ) : Type 0 where
    slice : Slice nl_buff r.nl_next nl_limit left
    agrees_nl : r.last_nl_cnt ≡ r.lex.lex_nl_cnt
    agrees_tk : r.last_tk_cnt ≡ r.lex.lex_tk_cnt
    started : 1 ≤ r.lex.lex_nl_cnt
    all : r.lex.lex_tk_cnt + sum left ≡ n
    here : (j : ℕ) → k ≤ j → j < r.lex.lex_tk_cnt → (line j ≡ old) × (old + 1 ≡ r.lex.lex_nl_cnt)
    ahead :
        (j : ℕ)
        → k ≤ j
        → r.lex.lex_tk_cnt ≤ j
        → line j + 1 ≡ r.lex.lex_nl_cnt + line_at left (j - r.lex.lex_tk_cnt)

  -- The reader after the next line.
  abbrev read : ℕ → Reader → Reader
  read d r = record {
    lex = record {
      lex_token = end_of_line;
      lex_nl_cnt = r.last_nl_cnt + 1;
      lex_tk_cnt = r.last_tk_cnt + d;
    };
    nl_next = r.nl_next + 1;
    last_nl_cnt = r.last_nl_cnt + 1;
    last_tk_cnt = r.last_tk_cnt + d;
  }

  read-IsReading :
      (k old d : ℕ) (r : Reader) (left : List ℕ)
      → IsReading k old r (d ∷ left)
      → r.lex.lex_tk_cnt ≤ k
      → IsReading k r.lex.lex_nl_cnt (read d r) left
  read-IsReading k old d r left i le = record {
    slice = i.slice.2;
    agrees_nl = refl;
    agrees_tk = refl;
    started = omega arith;
    all = omega (arith, i.all, i.agrees_tk);
    here = λ j lj lt. (
      ground (arith, i.ahead j lj (omega (arith, le, lj)), i.agrees_tk, lt, lj, le),
      omega (arith, i.agrees_nl),
    );
    ahead = λ j lj lt.
        let same : j - r.lex.lex_tk_cnt - d ≡ j - (r.last_tk_cnt + d) =
          omega (arith, i.agrees_tk) in
        ground (
          arith,
          i.ahead j lj (omega (arith, le, lj)),
          i.agrees_tk,
          i.agrees_nl,
          ap (line_at left) same,
          lt,
          lj,
          le,
        );
  }

  next_text_eol-read :
      (d : ℕ) (r : Reader)
      → r.nl_next < nl_limit
      → get_elem? nl_buff r.nl_next ≡ some d
      → next_text_eol nl_buff nl_limit r ≡ some (some (read d r))
  unfolding next_text_eol
  next_text_eol-read d r lt e =
      let more : (r.nl_next == nl_limit) ≡ false = ground (arith, lt) in rw (more, e) refl

  find_line-IsReading :
      (fuel k old : ℕ) (r : Reader) (left : List ℕ)
      → IsReading k old r left
      → k < n
      → length left < fuel
      → (old' : ℕ) × (r' : Reader) × (left' : List ℕ) × (find_line nl_buff nl_limit fuel k old r
          ≡ some (old', r'))
        × IsReading k old' r' left'
        × (k < r'.lex.lex_tk_cnt)
  unfolding find_line
  find_line-IsReading zero k old r left i lt enough = absurd (omega arith)
  find_line-IsReading (suc fuel) k old r [] i lt enough =
      let there : leb r.lex.lex_tk_cnt k ≡ false = ground (arith, i.all, lt) in
      (old, r, [], rw there refl, i, ground (arith, there))
  find_line-IsReading (suc fuel) k old r (d ∷ left) i lt enough =
      elim (Bool-cases (leb r.lex.lex_tk_cnt k)) [
        | inr there ↦ (old, r, d ∷ left, rw there refl, i, ground (arith, there))
        | inl further ↦
            let one = next_text_eol-read d r i.slice.0 i.slice.1 in
            let (old', r', left', e, j, found) =
              find_line-IsReading fuel k r.lex.lex_nl_cnt (read d r) left
                (read-IsReading k old d r left i (ground (arith, further))) lt (omega arith) in
            (old', r', left', rw (further, one, find_line) e, j, found)
      ]

  later :
      (k j old : ℕ) (r : Reader) (left : List ℕ)
      → k ≤ j
      → IsReading k old r left
      → IsReading j old r left
  later k j old r left le i = record {
    slice = i.slice;
    agrees_nl = i.agrees_nl;
    agrees_tk = i.agrees_tk;
    started = i.started;
    all = i.all;
    here = λ q lq. i.here q (omega (arith, le, lq));
    ahead = λ q lq. i.ahead q (omega (arith, le, lq));
  }

  fill_from-numbered :
      (poss : List Position) (k old : ℕ) (r : Reader) (left : List ℕ)
      → IsReading k old r left
      → AllFrom k poss
      → AllBelow n poss
      → IsSorted pos_before poss
      → fill_from nl_buff nl_limit poss old r ≡ some (map (numbered line) poss)
  unfolding fill_from
  fill_from-numbered [] k old r left i from below s = refl
  fill_from-numbered (pos ∷ poss) k old r left i (lk, from) (lt, below) (h, s) =
      let (old', r', left', e, j, found) =
        find_line-IsReading (suc (nl_limit - r.nl_next)) pos.ps_tk_cnt old r left
          (later k pos.ps_tk_cnt old r left lk i) lt
          (omega (arith, Slice-length nl_buff r.nl_next nl_limit left i.slice)) in
      let (is, next) = j.here pos.ps_tk_cnt (omega arith) found in
      let rest =
        fill_from-numbered poss pos.ps_tk_cnt old' r' left' j (IsLeast-AllFrom pos poss h) below
          s in
      rw (e, fill_from)
        (rw rest (
          ap₂ (λ a b. some (fill_pos a b pos ∷ map (numbered line) poss)) (sym is)
            (sym next ∙ ap (λ a. a + 1) (sym is))))

-- `pass2_txt` on a slice of the buffer ends within it.
pub pass2_txt-numbered :
    (nl_buff : List ℕ) (lex_token tx_nl_start tx_nl_limit : ℕ) (ds : List ℕ)
    (tx_pos : List Position)
    → Slice nl_buff tx_nl_start tx_nl_limit ds
    → ((pos : Position) → Mem pos tx_pos → pos.ps_tk_cnt < sum ds)
    → pass2_txt nl_buff lex_token tx_nl_start tx_nl_limit tx_pos
      ≡ some (map (numbered (line_at ds)) (sort_list pos_before tx_pos))
unfolding pass2_txt open_second
pass2_txt-numbered nl_buff lex_token tx_nl_start tx_nl_limit ds tx_pos slice below =
    fill_from-numbered nl_buff tx_nl_limit (line_at ds) (sum ds) (sort_list pos_before tx_pos) 0 1
      (open_second lex_token tx_nl_start) ds
      (record {
        slice = slice;
        agrees_nl = refl;
        agrees_tk = refl;
        started = omega arith;
        all = omega arith;
        here = λ j lj lt. absurd (omega arith);
        ahead =
            λ j lj lt. let same : j - 0 ≡ j = omega arith in omega (arith, ap (line_at ds) same);
      })
      (AllFrom-zero (sort_list pos_before tx_pos))
      (AllBelow-all (sum ds) (sort_list pos_before tx_pos)
        (λ pos m. below pos ((Perm.mem_iff (sort_list-perm pos_before tx_pos)).0 m)))
      (sort_list-IsSorted pos_before (λ x y e. ground arith) (λ x y z e f. ground arith) tx_pos)
