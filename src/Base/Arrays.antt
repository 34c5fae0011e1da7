-- ===== src/Base/Arrays.antt =====
-- C arrays whose bounds the code checks apart from the access: a function of the index.
use Prim.Native.Nat.{ℕ}
use mathlib.Core.Path.{◌≡◌}
use mathlib.Core.Logic.{◌≢◌}
use native.Mathlib.Omega.{arith}
use run_server.Base.Tests.{◌==◌, if◌then◌else◌}

-- `a[i] = v;`
abbrev pub update {ℓ} : {A : Type ℓ} → (ℕ → A) → ℕ → A → ℕ → A
update a i v j = if i == j then v else a j

-- `calloc`: every entry is 0.
abbrev pub zeros : ℕ → ℕ
zeros i = 0

pub update_eq {ℓ} : {A : Type ℓ} (a : ℕ → A) (i j : ℕ) (v : A) → i ≡ j → update a i v j ≡ v
update_eq a i j v h = ground arith

pub update_ne {ℓ} : {A : Type ℓ} (a : ℕ → A) (i j : ℕ) (v : A) → i ≢ j → update a i v j ≡ a j
update_ne a i j v h = ground arith
