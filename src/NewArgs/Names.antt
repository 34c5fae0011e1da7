-- ===== src/NewArgs/Names.antt =====
-- The names on standard input are those that the argument vector has.
use mathlib.Core.List.{append_assoc, append-nil}
use run_server.Base.{
  ℕ, zero, suc, ◌+◌, ◌-◌, ◌≤◌, ◌≡◌, ◌≢◌, ◌⊎◌, inl, inr, refl, sym, ap, ap₂, ◌∙◌, false, List, [],
  ◌∷◌, ◌++◌, some, ltb, ◌==◌, ◌&&◌, length, length-append, map, get_elem?, get_elem?-middle,
  drop-append, replicate, arith,
}
use run_server.NewArgs.{
  newline, Args, init_args, add_char_to_args, std_input_from, std_input, n_names, new_argv_from,
  get_new_std_input_args, c_string, string_at,
}

-- A line with a name, behind some blank lines.
pub record Entry : Type 0 where
  pub blanks : ℕ
  pub name : List ℕ

abbrev pub IsName : List ℕ → Type 0
IsName [] = Unit
IsName (c ∷ name) = (c ≢ newline) × (c ≢ 0) × IsName name

abbrev pub AllNames : List Entry → Type 0
AllNames [] = Unit
AllNames (e ∷ es) = (1 ≤ length e.name) × IsName e.name × AllNames es

-- Standard input with these lines, and blank lines at its end.
abbrev pub input_of : List Entry → ℕ → List ℕ
input_of [] blanks = replicate blanks newline
input_of (e ∷ es) blanks = replicate e.blanks newline ++ (e.name ++ (newline ∷ input_of es blanks))

-- The names, each with a newline.
abbrev pub text_of : List Entry → List ℕ
text_of [] = []
text_of (e ∷ es) = e.name ++ (newline ∷ text_of es)

skip_blanks :
    (k : ℕ) (input : List ℕ) (a : Args)
    → std_input_from (replicate k newline ++ input) newline a ≡ std_input_from input newline a
unfolding std_input_from
skip_blanks zero input a = refl
skip_blanks (suc k) input a = skip_blanks k input a

-- The characters of a name and its newline are added.
std_input_from-name :
    (name input : List ℕ) (last_char : ℕ) (a : Args)
    → IsName name
    → (last_char ≢ newline) ⊎ (1 ≤ length name)
    → (b : Args) × (std_input_from (name ++ (newline ∷ input)) last_char a
        ≡ std_input_from input newline b)
      × (b.args ≡ a.args ++ (name ++ (newline ∷ [])))
unfolding std_input_from add_char_to_args
std_input_from-name [] input last_char a n (inr some_char) = absurd (omega arith)
std_input_from-name [] input last_char a n (inl other) =
    let first : (last_char == newline) ≡ false = ground (arith, other) in
    (add_char_to_args newline a, rw first refl, refl)
std_input_from-name (c ∷ name) input last_char a (ne, nz, n) o =
    let char : (c == newline) ≡ false = ground (arith, ne) in
    let kept : (last_char == newline && c == newline) ≡ false = ground (arith, ne) in
    let (b, e, f) = std_input_from-name name input c (add_char_to_args c a) n (inl ne) in
    (b, rw (kept, std_input_from) e, f ∙ append_assoc a.args (c ∷ []) (name ++ (newline ∷ [])))

std_input_from-text :
    (es : List Entry) (blanks : ℕ) (a : Args)
    → AllNames es
    → (std_input_from (input_of es blanks) newline a).args ≡ a.args ++ text_of es
unfolding std_input_from
std_input_from-text [] blanks a n =
    ap (λ (x : Args). x.args) (rw append-nil at (skip_blanks blanks [] a)) ∙ sym (append-nil a.args)
std_input_from-text (e ∷ es) blanks a (some_char, n, ns) =
    let (b, f, g) = std_input_from-name e.name (input_of es blanks) newline a n (inr some_char) in
    ap (λ (x : Args). x.args) (skip_blanks e.blanks _ a ∙ f)
    ∙ std_input_from-text es blanks b ns
    ∙ ap (λ l. l ++ text_of es) g
    ∙ append_assoc a.args (e.name ++ (newline ∷ [])) (text_of es)
    ∙ ap (λ l. a.args ++ l) (append_assoc e.name (newline ∷ []) (text_of es))

text_of-ends :
    (e : Entry) (es : List Entry) → (init : List ℕ) × (text_of (e ∷ es) ≡ init ++ (newline ∷ []))
text_of-ends e [] = (e.name, refl)
text_of-ends e (f ∷ es) =
    let (init, q) = text_of-ends f es in
    (
      e.name ++ (newline ∷ init),
      ap (λ l. e.name ++ (newline ∷ l)) q
          ∙ sym (append_assoc e.name (newline ∷ init) (newline ∷ [])),
    )

std_input_ends :
    (input init : List ℕ)
    → (std_input_from input newline init_args).args ≡ init ++ (newline ∷ [])
    → std_input input ≡ some ((init ++ (newline ∷ [])) ++ (0 ∷ []))
unfolding std_input add_char_to_args
std_input_ends input init q =
    let long : length ((init ++ (newline ∷ [])) ++ (0 ∷ [])) ≡ length init + 2 =
      omega (
        arith,
        length-append (init ++ (newline ∷ [])) (0 ∷ []),
        length-append init (newline ∷ []),
      ) in
    let two : ltb (length ((init ++ (newline ∷ [])) ++ (0 ∷ []))) 2 ≡ false =
      ground (arith, long) in
    let back : length ((init ++ (newline ∷ [])) ++ (0 ∷ [])) - 2 ≡ length init =
      omega (arith, long) in
    let at =
      ap (λ k. get_elem? ((init ++ (newline ∷ [])) ++ (0 ∷ [])) k) back
      ∙ ap (λ l. get_elem? l (length init)) (append_assoc init (newline ∷ []) (0 ∷ []))
      ∙ get_elem?-middle init newline (0 ∷ []) in
    rw q (rw two (rw at (ap (λ l. some (l ++ (0 ∷ []))) q)))

-- Names on standard input are accepted.
std_input_text :
    (e : Entry) (es : List Entry) (blanks : ℕ)
    → AllNames (e ∷ es)
    → std_input (input_of (e ∷ es) blanks) ≡ some (text_of (e ∷ es) ++ (0 ∷ []))
std_input_text e es blanks n =
    let whole = std_input_from-text (e ∷ es) blanks init_args n in
    let (init, q) = text_of-ends e es in
    std_input_ends (input_of (e ∷ es) blanks) init (whole ∙ q)
    ∙ ap (λ l. some (l ++ (0 ∷ []))) (sym q)

new_argv_from-name :
    (name rest : List ℕ) (p last_char : ℕ)
    → IsName name
    → last_char ≢ newline
    → new_argv_from (name ++ (newline ∷ rest)) p last_char ≡ (
      name ++ (0 ∷ (new_argv_from rest (p + length name + 1) newline).0),
      (new_argv_from rest (p + length name + 1) newline).1,
    )
unfolding new_argv_from
new_argv_from-name [] rest p last_char n ne =
    let other : (last_char == newline) ≡ false = ground (arith, ne) in
    let next : p + 1 ≡ p + 0 + 1 = omega arith in rw (other, next) refl
new_argv_from-name (c ∷ name) rest p last_char (nn, nz, n) ne =
    let other : (last_char == newline) ≡ false = ground (arith, ne) in
    let char : (c == newline) ≡ false = ground (arith, nn) in
    let inside : (c == 0) ≡ false = ground (arith, nz) in
    let next : p + 1 + length name + 1 ≡ p + suc (length name) + 1 = omega arith in
    rw (other, char, inside, new_argv_from)
      (rw (new_argv_from-name name rest (p + 1) c n nn, next) refl)

-- The name at the start of a line.
new_argv_from-entry :
    (name rest : List ℕ) (p : ℕ)
    → IsName name
    → 1 ≤ length name
    → new_argv_from (name ++ (newline ∷ rest)) p newline ≡ (
      name ++ (0 ∷ (new_argv_from rest (p + length name + 1) newline).0),
      p ∷ (new_argv_from rest (p + length name + 1) newline).1,
    )
unfolding new_argv_from
new_argv_from-entry [] rest p n some_char = absurd (omega arith)
new_argv_from-entry (c ∷ name) rest p (nn, nz, n) some_char =
    let char : (c == newline) ≡ false = ground (arith, nn) in
    let inside : (c == 0) ≡ false = ground (arith, nz) in
    let next : p + 1 + length name + 1 ≡ p + suc (length name) + 1 = omega arith in
    rw (char, inside, new_argv_from) (rw (new_argv_from-name name rest (p + 1) c n nn, next) refl)

c_string-name : (name rest : List ℕ) → IsName name → c_string (name ++ (0 ∷ rest)) ≡ name
c_string-name [] rest n = refl
c_string-name (c ∷ name) rest (nn, nz, n) =
    let inside : (c == 0) ≡ false = ground (arith, nz) in
    rw inside (ap (λ l. c ∷ l) (c_string-name name rest n))

n_names-name :
    (name rest : List ℕ) → IsName name → n_names (name ++ (newline ∷ rest)) ≡ 1 + n_names rest
unfolding n_names
n_names-name [] rest n = refl
n_names-name (c ∷ name) rest (nn, nz, n) = ground (arith, n_names-name name rest n, nn, nz)

-- The strings that `argv` points to, in the memory with what is in front of the text.
strings_of :
    (es : List Entry) (pre : List ℕ)
    → AllNames es
    → map
        (string_at (pre ++ (new_argv_from (text_of es ++ (0 ∷ [])) (length pre) newline).0))
        (new_argv_from (text_of es ++ (0 ∷ [])) (length pre) newline).1
      ≡ map (λ (e : Entry). e.name) es
unfolding new_argv_from
strings_of [] pre n = refl
strings_of (e ∷ es) pre (some_char, n, ns) =
    let entry = new_argv_from-entry e.name (text_of es ++ (0 ∷ [])) (length pre) n some_char in
    let behind : length (pre ++ (e.name ++ (0 ∷ []))) ≡ length pre + length e.name + 1 =
      omega (arith, length-append pre (e.name ++ (0 ∷ [])), length-append e.name (0 ∷ [])) in
    let memory =
      (new_argv_from (text_of es ++ (0 ∷ [])) (length pre + length e.name + 1) newline).0 in
    let same : (pre ++ (e.name ++ (0 ∷ []))) ++ memory ≡ pre ++ (e.name ++ (0 ∷ memory)) =
      append_assoc pre (e.name ++ (0 ∷ [])) memory
      ∙ ap (λ l. pre ++ l) (append_assoc e.name (0 ∷ []) memory) in
    let first : string_at (pre ++ (e.name ++ (0 ∷ memory))) (length pre) ≡ e.name =
      ap c_string (drop-append pre (e.name ++ (0 ∷ memory))) ∙ c_string-name e.name memory n in
    let rest = strings_of es (pre ++ (e.name ++ (0 ∷ []))) ns in
    rw (append_assoc e.name (newline ∷ text_of es) (0 ∷ []), entry)
      (ap₂ ◌∷◌ first (rw (behind, same) at rest))

n_names-text : (es : List Entry) → AllNames es → n_names (text_of es ++ (0 ∷ [])) ≡ length es
unfolding n_names
n_names-text [] n = refl
n_names-text (e ∷ es) (some_char, n, ns) =
    rw (append_assoc e.name (newline ∷ text_of es) (0 ∷ []))
      (omega (arith, n_names-name e.name (text_of es ++ (0 ∷ [])) n, n_names-text es ns))

-- Let standard input be a file name or more, each of them not empty, without newlines and null
-- characters, and on a line of its own, with any number of blank lines in front of each and at the end.
-- Then get_new_std_input_args ends without a fatal error or a read out of bounds. The number of
-- arguments is that of the names, and the strings that argv points to are the names in their order.
pub get_new_std_input_args-names :
    (e : Entry) (es : List Entry) (blanks : ℕ)
    → AllNames (e ∷ es)
    → (memory argv : List ℕ) × (get_new_std_input_args (input_of (e ∷ es) blanks)
        ≡ some (length (e ∷ es), memory, argv))
      × (map (string_at memory) argv ≡ map (λ (x : Entry). x.name) (e ∷ es))
unfolding get_new_std_input_args
get_new_std_input_args-names e es blanks n =
    let text = text_of (e ∷ es) ++ (0 ∷ []) in
    (
      (new_argv_from text 0 newline).0,
      (new_argv_from text 0 newline).1,
      rw (std_input_text e es blanks n) (rw (n_names-text (e ∷ es) n) refl),
      strings_of (e ∷ es) [] n,
    )
