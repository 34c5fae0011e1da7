-- ===== src/Sim/Checks.antt =====
-- What main has made sure of when it goes on to the files.
use mathlib.Core.Option.{some-ne-none}
use run_server.Base.{
  ℕ, zero, suc, ◌≤◌, ◌<◌, ◌≡◌, inl, inr, refl, subst, Bool, true, false, List, [], ◌∷◌, Option,
  none, some, Bool-cases, Option-cases, ◌==◌, ◌&&◌, ◌||◌, not, arith,
}
use run_server.Syscalls.{ℤ, pos, negsuc, is_zero}
use run_server.Parameters.{atoi}
use run_server.Options.{Settings, set_option, is_set_option}
use run_server.Sim.{
  clash_with, clash, one_of, Fatal, Config, Checked, go_on, imply, is_positive, is_percentage,
  value_of, has_no_percentages, check_files, check_values, check_options, output_name,
}

-- No option but the first `c` of the list is set together with it, and so for the others.
abbrev pub NoneWith : Settings → ℕ → List ℕ → Type 0
NoneWith s c [] = Unit
NoneWith s c (d ∷ opts) = ((is_set_option s c && is_set_option s d) ≡ false) × NoneWith s c opts

abbrev pub AtMostOne : Settings → List ℕ → Type 0
AtMostOne s [] = Unit
AtMostOne s (c ∷ opts) = NoneWith s c opts × AtMostOne s opts

clash_with-NoneWith :
    (s : Settings) (c : ℕ) (opts : List ℕ) → clash_with s c opts ≡ none → NoneWith s c opts
unfolding clash_with
clash_with-NoneWith s c [] e = tt
clash_with-NoneWith s c (d ∷ opts) e = elim (Bool-cases (is_set_option s c && is_set_option s d)) [
  | inl b ↦ absurd (some-ne-none _ (rw (b, clash_with) at e))
  | inr b ↦ (b, clash_with-NoneWith s c opts (rw (b, clash_with) at e))
]

clash-AtMostOne : (s : Settings) (opts : List ℕ) → clash s opts ≡ none → AtMostOne s opts
unfolding clash
clash-AtMostOne s [] e = tt
clash-AtMostOne s (c ∷ opts) e = elim (Option-cases (clash_with s c opts)) [
  | inl z ↦ (clash_with-NoneWith s c opts z, clash-AtMostOne s opts (rw (z, clash) at e))
  | inr (d, z) ↦ absurd (some-ne-none _ (rw (z, clash) at e))
]

value_of-go_on :
    (o : Option (List ℕ)) (default : ℤ) (test : ℤ → Bool) (bad : Fatal) (next : ℤ → Checked)
    (c : Config)
    → test default ≡ true
    → value_of o default test bad next ≡ go_on c
    → (x : ℤ) × (test x ≡ true) × (next x ≡ go_on c)
unfolding value_of
value_of-go_on none default test bad next c t e = (default, t, e)
value_of-go_on (some text) default test bad next c t e = elim (Option-cases (atoi text)) [
  | inl z ↦ cc (rw (z, value_of) at e)
  | inr (x, z) ↦ elim (Bool-cases (test x)) [
    | inl b ↦ (x, b, rw (z, b, value_of) at e)
    | inr b ↦ cc (rw (z, b, value_of) at e)
  ]
]

go_on_inv : {c d : Config} → go_on c ≡ go_on d → c ≡ d
go_on_inv e = cc

check_files-go_on :
    (writable : Bool) (argc : ℕ) (c d : Config) → check_files writable argc c ≡ go_on d → c ≡ d
unfolding check_files
check_files-go_on writable argc c d e = elim (Option-cases (c.settings.strings output_name)) [
  | inl z ↦ elim (Bool-cases (is_set_option c.settings b'i' && not (argc == 0))) [
    | inl b ↦ cc (rw (z, b, check_files) at e)
    | inr b ↦ go_on_inv (rw (z, b, check_files) at e)
  ]
  | inr (name, z) ↦ elim (Bool-cases (not writable)) [
    | inl w ↦ cc (rw (z, w, check_files) at e)
    | inr w ↦ elim (Bool-cases (is_set_option c.settings b'i' && not (argc == 0))) [
      | inl b ↦ cc (rw (z, w, b, check_files) at e)
      | inr b ↦ go_on_inv (rw (z, w, b, check_files) at e)
    ]
  ]
]

-- What the program starts its work with.
pub record IsChecked (s : Settings) (c : Config) : Type 0 where
  pub alone : AtMostOne s one_of
  pub implied :
      (not (is_set_option c.settings b'p')
        || (is_set_option c.settings b'e' && is_set_option c.settings b's'))
      ≡ true
  pub main_percentages : (not (is_set_option s b'P') || is_set_option c.settings b'p') ≡ true
  pub some_run_size : is_zero c.min_run_size ≡ false
  pub some_width : (n : ℕ) × (c.page_width ≡ pos (suc n))
  pub percentage : (n : ℕ) × (c.threshold_percentage ≡ pos n) × (1 ≤ n) × (n ≤ 100)

imply-IsSet :
    (s : Settings)
    → s.options b'e' < 255
    → s.options b's' < 255
    → s.options b'p' < 255
    → ((not (is_set_option (imply s) b'p')
          || (is_set_option (imply s) b'e' && is_set_option (imply s) b's'))
        ≡ true)
      × ((not (is_set_option s b'P') || is_set_option (imply s) b'p') ≡ true)
unfolding imply set_option is_set_option
imply-IsSet s e1 e2 e3 = (ground arith, ground arith)

is_positive-pos : (x : ℤ) → is_positive x ≡ true → (n : ℕ) × (x ≡ pos (suc n))
is_positive-pos (pos zero) h = cc
is_positive-pos (pos (suc n)) h = (n, refl)
is_positive-pos (negsuc n) h = cc

is_percentage-pos : (x : ℤ) → is_percentage x ≡ true → (n : ℕ) × (x ≡ pos n) × (1 ≤ n) × (n ≤ 100)
is_percentage-pos (pos zero) h = cc
is_percentage-pos (pos (suc n)) h = (suc n, refl, omega arith, ground arith)
is_percentage-pos (negsuc n) h = cc

check_values-IsChecked :
    (writable : Bool) (argc : ℕ) (s : Settings) (c : Config)
    → AtMostOne s one_of
    → s.options b'e' < 255
    → s.options b's' < 255
    → s.options b'p' < 255
    → check_values writable argc (imply s) ≡ go_on c
    → IsChecked s c
unfolding check_values
check_values-IsChecked writable argc s c alone e1 e2 e3 h =
    let (run, run_lem, h1) = value_of-go_on _ _ _ _ _ c refl h in
    let (width, width_lem, h2) = value_of-go_on _ _ _ _ _ c refl h1 in
    let (t, t_lem, h3) = value_of-go_on _ _ _ _ _ c refl h2 in
    let same = check_files-go_on writable argc _ c h3 in
    let (i1, i2) = imply-IsSet s e1 e2 e3 in
    subst (IsChecked s) same (record {
      alone = alone;
      implied = i1;
      main_percentages = i2;
      some_run_size = ground arith;
      some_width = is_positive-pos width width_lem;
      percentage = is_percentage-pos t t_lem;
    })

-- If main goes on to the files, no option counted up to 255, then at most one of the options d, n, p, P and
-- T is set; with -P the option -p is set in the end, and with -p the options -e and -s; the minimum
-- run size is not 0, the page width is positive, and the threshold is a percentage from 1 to 100.
pub check_options-IsChecked :
    (writable : Bool) (argc : ℕ) (s : Settings) (c : Config)
    → s.options b'e' < 255
    → s.options b's' < 255
    → s.options b'p' < 255
    → check_options writable argc s ≡ go_on c
    → IsChecked s c
unfolding check_options
check_options-IsChecked writable argc s c e1 e2 e3 h = elim (Option-cases (clash s one_of)) [
  | inr (d, z) ↦ cc (rw (z, check_options) at h)
  | inl z ↦ elim (Bool-cases (is_set_option s b't' && has_no_percentages s)) [
    | inl b ↦ cc (rw (z, b, check_options) at h)
    | inr b ↦ elim (Bool-cases (is_set_option s b'v')) [
      | inl v ↦ cc (rw (z, b, v, check_options) at h)
      | inr v ↦
          check_values-IsChecked writable argc s c (clash-AtMostOne s one_of z) e1 e2 e3
            (rw (z, b, v, check_options) at h)
    ]
  ]
]
