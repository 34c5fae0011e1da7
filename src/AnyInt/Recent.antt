-- ===== src/AnyInt/Recent.antt =====
-- How long a string of int2string stays in its buffer.
use mathlib.Core.Option.{some-ne-none}
use run_server.Base.{
  ℕ, suc, ◌+◌, ◌-◌, ◌≤◌, ◌<◌, ◌≡◌, ◌≢◌, refl, sym, ap, ◌∙◌, Bool, inl, inr, List, [], ◌∷◌, Option,
  some, some_inv, Option-cases, leb, ◌==◌, if◌then◌else◌, ◌>>=◌, length, update, update_eq,
  update_ne, arith,
}
use run_server.Syscalls.{ℤ}
use run_server.AnyInt.{n_independent_calls, int_text, Buffers, next_buff, int2string}

pub record Call : Type 0 where
  pub val : ℕ
  pub neg : Bool
  pub size : ℤ

-- Calls of int2string, one after another.
unfoldable pub call_all : List Call → Buffers → Option Buffers
call_all [] b = some b
call_all (c ∷ calls) b = int2string c.val c.neg c.size b >>= λ r. call_all calls r.1

-- How many calls do not write the buffer `i`.
abbrev distance : ℕ → ℕ → ℕ
distance i cnt =
    if cnt == n_independent_calls
    then i
    else if leb cnt i
    then i - cnt
    else n_independent_calls - cnt + i

-- What a call leaves.
record IsCalled (c : Call) (b : Buffers) (i : ℕ) (b' : Buffers) : Type 0 where
  text : List ℕ
  written : int_text c.val c.neg c.size ≡ some text
  buffers : b'.buff ≡ update b.buff i text
  index : i ≡ (if b.next_buff_cnt == n_independent_calls then 0 else b.next_buff_cnt)
  count : b'.next_buff_cnt ≡ suc i

int2string-IsCalled :
    (c : Call) (b b' : Buffers) (i : ℕ)
    → int2string c.val c.neg c.size b ≡ some (i, b')
    → IsCalled c b i b'
unfolding int2string next_buff
int2string-IsCalled c b b' i e = elim (Option-cases (int_text c.val c.neg c.size)) [
  | inl z ↦ absurd (some-ne-none _ (sym (rw (z, int2string) at e)))
  | inr (t, z) ↦
      let cnt = if b.next_buff_cnt == n_independent_calls then 0 else b.next_buff_cnt in
      let same : ◌≡◌ {A = ℕ × Buffers}
          (cnt, record { buff = update b.buff cnt t; next_buff_cnt = cnt + 1 }) (i, b') =
        some_inv (rw (z, int2string) at e) in
      let cnt_i = ap (λ (p : ℕ × Buffers). p.0) same in
      let b_eq = ap (λ (p : ℕ × Buffers). p.1) same in
      record {
        text = t;
        written = z;
        buffers = sym (ap (λ (x : Buffers). x.buff) b_eq) ∙ ap (λ n. update b.buff n t) cnt_i;
        index = sym cnt_i;
        count = sym (ap (λ (x : Buffers). x.next_buff_cnt) b_eq) ∙ omega arith;
      }
]

call_all-keeps :
    (calls : List Call) (b b' : Buffers) (i : ℕ)
    → i < n_independent_calls
    → b.next_buff_cnt ≤ n_independent_calls
    → length calls ≤ distance i b.next_buff_cnt
    → call_all calls b ≡ some b'
    → b'.buff i ≡ b.buff i
unfolding call_all
call_all-keeps [] b b' i h n d e = ap (λ (x : Buffers). x.buff i) (sym (some_inv e))
call_all-keeps (c ∷ calls) b b' i h n d e = elim (Option-cases (int2string c.val c.neg c.size b)) [
  | inl z ↦ absurd (some-ne-none _ (sym (rw (z, call_all) at e)))
  | inr ((j, b1), z) ↦
      let w = int2string-IsCalled c b b1 j z in
      let other : j ≢ i = λ same. ground (arith, w.index) in
      call_all-keeps calls b1 b' i h (ground (arith, w.index, w.count))
        (ground (arith, w.index, w.count)) (rw (z, call_all) at e)
      ∙ ap (λ (f : ℕ → List ℕ). f i) w.buffers
      ∙ update_ne b.buff j i w.text other
]

-- Where next_buff_cnt is at most 12, a string of int2string is still there after up to 11 further
-- calls, the pointer to it being `i`.
pub int2string_recent :
    (c : Call) (calls : List Call) (b b1 b2 : Buffers) (i : ℕ)
    → b.next_buff_cnt ≤ n_independent_calls
    → int2string c.val c.neg c.size b ≡ some (i, b1)
    → call_all calls b1 ≡ some b2
    → length calls < n_independent_calls
    → int_text c.val c.neg c.size ≡ some (b2.buff i)
int2string_recent c calls b b1 b2 i n e r l =
    let w = int2string-IsCalled c b b1 i e in
    let kept =
      call_all-keeps calls b1 b2 i (ground (arith, w.index)) (ground (arith, w.index, w.count))
        (ground (arith, w.index, w.count)) r in
    w.written
    ∙ ap some
        (sym (kept ∙ ap (λ (f : ℕ → List ℕ). f i) w.buffers ∙ update_eq b.buff i i w.text refl))
