-- ===== src/Options/Skips.antt =====
-- How many arguments do_options skips, and what it sets.
use mathlib.Core.Option.{some-ne-none}
use run_server.Base.{
  ◌%◌, ◌++◌, ℕ_discrete, update, update_eq, update_ne, length-append, if◌then◌else◌, ℕ, zero, suc,
  ◌+◌, ◌≤◌, ◌≡◌, inl, inr, refl, sym, ap, subst, ◌∙◌, true, false, List, [], ◌∷◌, some, some_inv,
  Option-cases, Bool-cases, ◌==◌, drop, length, length-drop, arith,
}
use run_server.Options.{
  OptionEntry, Settings, set_option, find_option, opt_value, do_arg, is_option, options_from,
  do_options,
}

-- The first argument, if there is one, is no option.
abbrev pub StartsWithNone : List (List ℕ) → Type 0
StartsWithNone [] = Unit
StartsWithNone (arg ∷ next) = is_option arg ≡ false

drop-nil : (n : ℕ) → drop {A = List ℕ} n [] ≡ []
drop-nil zero = refl
drop-nil (suc n) = refl

drop-drop : (m n : ℕ) (l : List (List ℕ)) → drop n (drop m l) ≡ drop (m + n) l
drop-drop zero n l = ap (λ k. drop k l) (omega arith)
drop-drop (suc m) n [] = drop-nil n ∙ sym (drop-nil (suc m + n))
drop-drop (suc m) n (x ∷ l) =
    drop-drop m n l
    ∙ ap (λ k. drop k (x ∷ l)) (let next : suc (m + n) ≡ suc m + n = omega arith in next)

abbrev pub with_dashes : List (List ℕ) → List (List ℕ)
with_dashes [] = []
with_dashes (arg ∷ args) = (b'-' ∷ arg) ∷ with_dashes args

length-with_dashes : (args : List (List ℕ)) → length (with_dashes args) ≡ length args
length-with_dashes [] = refl
length-with_dashes (arg ∷ args) = ap suc (length-with_dashes args)

-- How often a character occurs.
abbrev pub times : ℕ → List ℕ → ℕ
times ch [] = 0
times ch (c ∷ arg) = (if c == ch then 1 else 0) + times ch arg

abbrev pub times_all : ℕ → List (List ℕ) → ℕ
times_all ch [] = 0
times_all ch (arg ∷ args) = times ch arg + times_all ch args

-- A char from 0 to 255, raised by 1 for `n` times.
abbrev pub raised : ℕ → ℕ → ℕ
raised n x = if n == 0 then x else (x + n) % 256

raised-suc : (n x : ℕ) → raised n ((x + 1) % 256) ≡ raised (1 + n) x
raised-suc n x = ground arith

raised-raised : (m n x : ℕ) → raised m (raised n x) ≡ raised (n + m) x
raised-raised m n x = ground arith

-- What options without a value leave: the counts of their characters, and the values as they were.
pub record IsRaised (args : List (List ℕ)) (s s' : Settings) : Type 0 where
  pub counted : (ch : ℕ) → s'.options ch ≡ raised (times_all ch args) (s.options ch)
  pub strings : s'.strings ≡ s.strings

module _ (optlist : List OptionEntry) where
  opt_value-used :
      (op : OptionEntry) (arg : List ℕ) (next : List (List ℕ)) (s s' : Settings) (c : ℕ)
      → opt_value op arg next s ≡ some (c, s')
      → (1 ≤ c) × (c ≤ suc (length next))
  unfolding opt_value
  opt_value-used op (x ∷ arg) next s s' c e =
      let same : 1 ≡ c = ap (λ (p : ℕ × Settings). p.0) (some_inv e) in (omega arith, omega arith)
  opt_value-used op [] (value ∷ next) s s' c e =
      let same : 2 ≡ c = ap (λ (p : ℕ × Settings). p.0) (some_inv e) in (omega arith, omega arith)
  opt_value-used op [] [] s s' c e = absurd (some-ne-none _ (sym e))

  do_arg-used :
      (arg : List ℕ) (next : List (List ℕ)) (s s' : Settings) (c : ℕ)
      → do_arg optlist arg next s ≡ some (c, s')
      → (1 ≤ c) × (c ≤ suc (length next))
  unfolding do_arg
  do_arg-used [] next s s' c e =
      let same : 1 ≡ c = ap (λ (p : ℕ × Settings). p.0) (some_inv e) in (omega arith, omega arith)
  do_arg-used (opc ∷ arg) next s s' c e = elim (Option-cases (find_option opc optlist)) [
    | inl f ↦ absurd (some-ne-none _ (sym (rw (f, do_arg) at e)))
    | inr (op, f) ↦ elim (Bool-cases (op.op_indicator == b' ')) [
      | inl flag ↦ do_arg-used arg next (set_option opc s) s' c (rw (f, flag, do_arg) at e)
      | inr value ↦ opt_value-used op arg next (set_option opc s) s' c (rw (f, value, do_arg) at e)
    ]
  ]

  options_from-skips :
      (fuel : ℕ) (argv : List (List ℕ)) (s s' : Settings) (skips : ℕ)
      → length argv ≤ fuel
      → options_from optlist fuel argv s ≡ some (skips, s')
      → (skips ≤ length argv) × StartsWithNone (drop skips argv)
  unfolding options_from
  options_from-skips zero [] s s' skips le e =
      let same : 0 ≡ skips = ap (λ (p : ℕ × Settings). p.0) (some_inv e) in
      (omega arith, subst (λ k. StartsWithNone (drop k [])) same tt)
  options_from-skips zero (arg ∷ next) s s' skips le e = absurd (omega arith)
  options_from-skips (suc fuel) [] s s' skips le e =
      let same : 0 ≡ skips = ap (λ (p : ℕ × Settings). p.0) (some_inv e) in
      (omega arith, subst (λ k. StartsWithNone (drop k [])) same tt)
  options_from-skips (suc fuel) (arg ∷ next) s s' skips le e = elim (Bool-cases (is_option arg)) [
    | inr f ↦
        let same : 0 ≡ skips =
          ap (λ (p : ℕ × Settings). p.0) (some_inv (rw (f, options_from) at e)) in
        (omega arith, subst (λ k. StartsWithNone (drop k (arg ∷ next))) same f)
    | inl f ↦ elim (Option-cases (do_arg optlist (drop 1 arg) next s)) [
      | inl g ↦ absurd (some-ne-none _ (sym (rw (f, g, options_from) at e)))
      | inr ((c, s1), g) ↦
          elim (Option-cases (options_from optlist fuel (drop c (arg ∷ next)) s1)) [
            | inl h ↦ absurd (some-ne-none _ (sym (rw h at (rw (f, g, options_from) at e))))
            | inr ((k, s2), h) ↦
                let used = do_arg-used (drop 1 arg) next s s1 c g in
                let (less, stops) =
                  options_from-skips fuel (drop c (arg ∷ next)) s1 s2 k
                    (omega (arith, used, length-drop c (arg ∷ next))) h in
                let same : c + k ≡ skips =
                  ap (λ (p : ℕ × Settings). p.0)
                    (some_inv (rw h at (rw (f, g, options_from) at e))) in
                (
                  omega (arith, less, used, same, length-drop c (arg ∷ next)),
                  subst StartsWithNone
                      (drop-drop c k (arg ∷ next) ∙ ap (λ j. drop j (arg ∷ next)) same) stops,
                )
          ]
    ]
  ]

  -- Where do_options does not exit on a bad option, it skips no more arguments than there are, and the
  -- first argument behind those that it skips, if there is one, is no option.
  pub do_options-skips :
      (argv : List (List ℕ)) (s s' : Settings) (skips : ℕ)
      → do_options optlist argv s ≡ some (skips, s')
      → (skips ≤ length argv) × StartsWithNone (drop skips argv)
  unfolding do_options
  do_options-skips argv s s' skips e =
      options_from-skips (length argv) argv s s' skips (omega arith) e

  -- The characters of options without a value.
  abbrev pub AllFlags : List ℕ → Type 0
  AllFlags [] = Unit
  AllFlags (c ∷ arg) =
      ((op : OptionEntry) × (find_option c optlist ≡ some op) × (op.op_indicator ≡ b' '))
      × AllFlags arg

  abbrev set_all : List ℕ → Settings → Settings
  set_all [] s = s
  set_all (c ∷ arg) s = set_all arg (set_option c s)

  do_arg-flags :
      (arg : List ℕ) (next : List (List ℕ)) (s : Settings)
      → AllFlags arg
      → do_arg optlist arg next s ≡ some (1, set_all arg s)
  unfolding do_arg
  do_arg-flags [] next s f = refl
  do_arg-flags (c ∷ arg) next s ((op, known, flag), f) =
      let no_value : (op.op_indicator == b' ') ≡ true = ground (arith, flag) in
      rw (known, do_arg) (rw no_value (do_arg-flags arg next (set_option c s) f))

  options_from-none :
      (fuel : ℕ) (argv : List (List ℕ)) (s : Settings)
      → StartsWithNone argv
      → options_from optlist fuel argv s ≡ some (0, s)
  unfolding options_from
  options_from-none zero argv s n = refl
  options_from-none (suc fuel) [] s n = refl
  options_from-none (suc fuel) (arg ∷ next) s n = rw (n, options_from) refl

  -- The characters behind the `-` of arguments, at least one in each.
  abbrev pub AllFlagArgs : List (List ℕ) → Type 0
  AllFlagArgs [] = Unit
  AllFlagArgs ([] ∷ args) = ⊥
  AllFlagArgs ((c ∷ arg) ∷ args) = AllFlags (c ∷ arg) × AllFlagArgs args

  abbrev set_args : List (List ℕ) → Settings → Settings
  set_args [] s = s
  set_args (arg ∷ args) s = set_args args (set_all arg s)

  set_all-times :
      (arg : List ℕ) (ch : ℕ) (s : Settings)
      → (set_all arg s).options ch ≡ raised (times ch arg) (s.options ch)
  unfolding set_option
  set_all-times [] ch s = refl
  set_all-times (c ∷ arg) ch s = elim (ℕ_discrete c ch) [
    | yes e ↦
        let hit : 1 ≡ (if c == ch then 1 else 0) = ground (arith, e) in
        let one : update s.options c ((s.options c + 1) % 256) ch ≡ (s.options ch + 1) % 256 =
          update_eq s.options c ch ((s.options c + 1) % 256) e
          ∙ ap (λ i. (s.options i + 1) % 256) e in
        set_all-times arg ch (set_option c s)
        ∙ ap (raised (times ch arg)) one
        ∙ raised-suc (times ch arg) (s.options ch)
        ∙ ap (λ n. raised (n + times ch arg) (s.options ch)) hit
    | no ne ↦
        let missed : times ch arg ≡ (if c == ch then 1 else 0) + times ch arg =
          ground (arith, ne) in
        set_all-times arg ch (set_option c s)
        ∙ ap (raised (times ch arg)) (update_ne s.options c ch ((s.options c + 1) % 256) ne)
        ∙ ap (λ n. raised n (s.options ch)) missed
  ]

  set_all-strings : (arg : List ℕ) (s : Settings) → (set_all arg s).strings ≡ s.strings
  unfolding set_option
  set_all-strings [] s = refl
  set_all-strings (c ∷ arg) s = set_all-strings arg (set_option c s)

  set_args-IsRaised : (args : List (List ℕ)) (s : Settings) → IsRaised args s (set_args args s)
  set_args-IsRaised [] s = record { counted = λ ch. refl; strings = refl }
  set_args-IsRaised (arg ∷ args) s =
      let rest = set_args-IsRaised args (set_all arg s) in
      record {
        counted = λ ch.
            rest.counted ch
            ∙ ap (raised (times_all ch args)) (set_all-times arg ch s)
            ∙ raised-raised (times_all ch args) (times ch arg) (s.options ch);
        strings = rest.strings ∙ set_all-strings arg s;
      }

  options_from-flags :
      (args : List (List ℕ)) (next : List (List ℕ)) (fuel : ℕ) (s : Settings)
      → AllFlagArgs args
      → StartsWithNone next
      → length args ≤ fuel
      → options_from optlist fuel (with_dashes args ++ next) s ≡ some (length args, set_args args s)
  unfolding options_from
  options_from-flags [] next fuel s f n le = options_from-none fuel next s n
  options_from-flags ([] ∷ args) next fuel s f n le = elim f [ ]
  options_from-flags ((c ∷ arg) ∷ args) next zero s f n le = absurd (omega arith)
  options_from-flags ((c ∷ arg) ∷ args) next (suc fuel) s f n le =
      rw (do_arg-flags (c ∷ arg) (with_dashes args ++ next) s f.0) (
        rw (options_from-flags args next fuel (set_all (c ∷ arg) s) f.1 n (omega arith))
          (ap (λ m. some (m, set_args args (set_all (c ∷ arg) s))) (omega arith)))

  -- Where the first arguments are `-` and the characters of options without a value, at least one in each,
  -- and the next argument, if there is one, is no option, do_options skips just these arguments. It adds
  -- to the count of each character, which is from 0 to 255 and wraps, how often the character occurs in
  -- them, and leaves the other counts and all values of options as they are.
  pub do_options-flags :
      (args : List (List ℕ)) (next : List (List ℕ)) (s : Settings)
      → AllFlagArgs args
      → StartsWithNone next
      → (s' : Settings) × (do_options optlist (with_dashes args ++ next) s ≡ some (length args, s'))
        × IsRaised args s s'
  unfolding do_options
  do_options-flags args next s f n =
      let enough : length args ≤ length (with_dashes args ++ next) =
        omega (arith, length-append (with_dashes args) next, length-with_dashes args) in
      (
        set_args args s,
        options_from-flags args next (length (with_dashes args ++ next)) s f n enough,
        set_args-IsRaised args s,
      )
