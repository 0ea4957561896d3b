-- ===== src/Prelude/Dict.antt =====
-- Go maps with an `int` key, as association lists with one entry for a key.
use ytarchive_raw_go.Prelude.Tests.{◌==◌, if◌then◌else◌}
use Prim.Native.Nat.{ℕ}
use mathlib.Core.Path.{◌≡◌}
use mathlib.Core.List.{List, [], ◌∷◌}
use mathlib.Core.Option.{Option, none, some}
use native.Mathlib.Omega.{arith}

module _ {ℓ} {V : Type ℓ} where
  -- `v, ok := m[k]`
  unfoldable pub lookup : ℕ → List (ℕ × V) → Option V
  lookup k [] = none
  lookup k ((j, v) ∷ m) = if j == k then some v else lookup k m

  -- `delete(m, k)`
  unfoldable pub delete : ℕ → List (ℕ × V) → List (ℕ × V)
  delete k [] = []
  delete k ((j, v) ∷ m) = let rest = delete k m in if j == k then rest else (j, v) ∷ rest

  -- `m[k] = v`
  unfoldable pub assign : ℕ → V → List (ℕ × V) → List (ℕ × V)
  unfolding delete
  assign k v m = (k, v) ∷ delete k m

  pub lookup-delete :
      (k i : ℕ) (m : List (ℕ × V)) → lookup i (delete k m) ≡ (if k == i then none else lookup i m)
  unfolding lookup delete
  lookup-delete k i [] = ground arith
  lookup-delete k i ((j, v) ∷ m) = ground (arith, lookup-delete k i m)

  pub lookup-assign :
      (k i : ℕ) (v : V) (m : List (ℕ × V))
      → lookup i (assign k v m) ≡ (if k == i then some v else lookup i m)
  unfolding lookup assign
  lookup-assign k i v m = ground (arith, lookup-delete k i m)
