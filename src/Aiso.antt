-- ===== src/Aiso.antt =====
-- sim/sim_2_89/aiso.bdy, "arbitrary in, sorted out": a self-adjusting binary tree whose nodes are also
-- linked into a list; and its instance in sim/sim_2_89/runs.c. A node is given by the number of its
-- allocation, from 1 on, and 0 is the null pointer. AISO_EXTR is not defined, so no node is freed.
pub mod Order
pub mod Place
pub mod Sorted
pub mod Links
pub mod Items
use run_server.Base.{
  ℕ, zero, suc, ◌+◌, ◌*◌, ◌%◌, ◌^◌, Bool, true, false, List, [], ◌∷◌, Option, none, some, ltb, ◌==◌,
  ◌&&◌, update, if◌then◌else◌, zeros,
}

-- The nodes below a `hook`, by their fields `an_left` and `an_right`.
pub data Tree : Type 0 where
  leaf : Tree
  node : ℕ → Tree → Tree → Tree

-- The variables of the module, and the fields `an_next` and `an_value` of the nodes.
pub record Aiso {ℓ} (A : Type ℓ) : Type ℓ where
  pub root : Tree
  pub list : ℕ
  pub an_next : ℕ → ℕ
  pub an_value : ℕ → A
  pub aiso_size : ℕ
  pub acc_mark : ℕ

-- `count_access()`, on a `uint64_t`
abbrev pub count_access : ℕ → ℕ
count_access acc_mark = acc_mark * 2 % 2 ^ 64

abbrev pub is_node : Tree → Bool
is_node leaf = false
is_node (node an l r) = true

-- "change (l A r) B (C) into (l) A (r B C)"
abbrev pub turn_right : ℕ → Tree → Tree → Tree
turn_right an leaf r = node an leaf r
turn_right an (node anl ll lr) r = node anl ll (node an lr r)

-- "change (A) B (l C r) into (A B l) C (r)"
abbrev pub turn_left : ℕ → Tree → Tree → Tree
turn_left an l leaf = node an l leaf
turn_left an l (node anr rl rr) = node anr (node an l rl) rr

-- What the loop of `InsertAiso` leaves: the tree below the hook, `acc_mark`, and the node whose
-- `an_next` is `*prev`, where 0 stands for `&list`.
pub record Inserted : Type 0 where
  pub tree : Tree
  pub acc_mark : ℕ
  pub prev : ℕ

module _ {ℓ} {A : Type ℓ} (before : A → A → Bool) where
  module _ (an_value : ℕ → A) (aiso_size new_node : ℕ) (v : A) where
    -- The loop of `InsertAiso`, on fuel, for the tree below the hook.
    unfoldable pub insert_from : ℕ → Tree → ℕ → ℕ → Option Inserted
    insert_from zero t acc_mark prev = none
    insert_from (suc fuel) leaf acc_mark prev =
        some (record { tree = node new_node leaf leaf; acc_mark = acc_mark; prev = prev })
    insert_from (suc fuel) (node an l r) acc_mark prev =
        let acc = count_access acc_mark in
        elim (before v (an_value an)) [
          | true ↦ elim (is_node l && ltb aiso_size acc) [
            | true ↦ insert_from fuel (turn_right an l r) 1 prev
            | false ↦ elim (insert_from fuel l acc prev) [
              | none ↦ none
              | some i ↦ some (record i { tree = node an i.tree r })
            ]
          ]
          | false ↦ elim (is_node r && ltb aiso_size acc) [
            | true ↦ insert_from fuel (turn_left an l r) 1 an
            | false ↦ elim (insert_from fuel r acc an) [
              | none ↦ none
              | some i ↦ some (record i { tree = node an l i.tree })
            ]
          ]
        ]

  -- `InsertAiso`, where TryMalloc has succeeded; the fuel is for two rounds at each node, and one.
  unfoldable pub insert_aiso : A → Aiso A → Option (Aiso A)
  insert_aiso v s =
      let new_node = s.aiso_size + 1 in
      elim (insert_from s.an_value s.aiso_size new_node v (2 * s.aiso_size + 2) s.root s.acc_mark
        0) [
          | none ↦ none
          | some i ↦
              let first = if i.prev == 0 then s.list else s.an_next i.prev in
              let next = update s.an_next new_node first in
              some (record {
                root = i.tree;
                list = if i.prev == 0 then new_node else s.list;
                an_next = if i.prev == 0 then next else update next i.prev new_node;
                an_value = update s.an_value new_node v;
                aiso_size = s.aiso_size + 1;
                acc_mark = i.acc_mark;
              })
        ]

-- `GetAisoItem` until it fails, from the iterator `ip` on; the fuel is for one round at each node.
unfoldable pub items_from {ℓ} : {A : Type ℓ} → Aiso A → ℕ → ℕ → List A
items_from s zero ip = []
items_from s (suc fuel) ip =
    if ip == 0 then [] else s.an_value ip ∷ items_from s fuel (s.an_next ip)

-- The values that an iterator yields: `OpenIter`, and then `GetAisoItem` until it fails.
unfoldable pub items {ℓ} : {A : Type ℓ} → Aiso A → List A
items s = items_from s s.aiso_size s.list

-- The variables before the first call; the memory of the nodes is any.
abbrev pub no_items {ℓ} : {A : Type ℓ} → (ℕ → A) → Aiso A
no_items memory = record {
  root = leaf;
  list = 0;
  an_next = zeros;
  an_value = memory;
  aiso_size = 0;
  acc_mark = 1;
}
