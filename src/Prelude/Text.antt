-- ===== src/Prelude/Text.antt =====
-- Go strings as lists of bytes, written as text literals of ASCII.
use ytarchive_raw_go.Prelude.Tests.{◌==◌, leb, if◌then◌else◌, Bool-cases}
use Prim.Native.Nat.{ℕ, ◌+◌}
use Prim.Native.Char.{code}
use Prim.Native.String.{String}
use mathlib.Core.Path.{◌≡◌, refl}
use mathlib.Core.Logic.{◌≢◌, inl, inr}
use mathlib.Core.Bool.{Bool, true, false, ◌&&◌}
use mathlib.Core.List.{List, [], ◌∷◌, ◌++◌, map}
use mathlib.Core.Option.{Option, none, some}
use native.Mathlib.Omega.{arith}

abbrev pub Bytes : Type 0
Bytes = List ℕ

abbrev pub codes : String → Bytes
codes String.[] = []
codes (String.◌∷◌ c s) = code c ∷ codes s

-- `a == b` on Go strings.
unfoldable pub same : Bytes → Bytes → Bool
same [] [] = true
same [] (y ∷ ys) = false
same (x ∷ xs) [] = false
same (x ∷ xs) (y ∷ ys) = x == y && same xs ys

pub same_refl : (xs : Bytes) → same xs xs ≡ true
unfolding same
same_refl [] = refl
same_refl (x ∷ xs) = ground (arith, same_refl xs)

pub eq_of_same : (xs ys : Bytes) → same xs ys ≡ true → xs ≡ ys
unfolding same
eq_of_same [] [] h = refl
eq_of_same [] (y ∷ ys) h = cc
eq_of_same (x ∷ xs) [] h = cc
eq_of_same (x ∷ xs) (y ∷ ys) h = ground (arith, eq_of_same xs ys)

pub not_same : (xs ys : Bytes) → xs ≢ ys → same xs ys ≡ false
not_same xs ys apart = elim (Bool-cases (same xs ys)) [
  | inl e ↦ absurd (apart (eq_of_same xs ys e))
  | inr e ↦ e
]

-- `strings.ToLower` on ASCII.
unfoldable pub to_lower_byte : ℕ → ℕ
to_lower_byte c = if leb b'A' c && leb c b'Z' then c + 32 else c

abbrev pub to_lower : Bytes → Bytes
to_lower = map to_lower_byte

-- `strings.HasPrefix`
unfoldable pub has_prefix : Bytes → Bytes → Bool
has_prefix xs [] = true
has_prefix [] (y ∷ ys) = false
has_prefix (x ∷ xs) (y ∷ ys) = x == y && has_prefix xs ys

-- How often a byte stands in a text.
abbrev pub occurrences : ℕ → Bytes → ℕ
occurrences b [] = 0
occurrences b (x ∷ xs) = (if x == b then 1 else 0) + occurrences b xs

pub occurrences-append :
    (b : ℕ) (xs ys : Bytes) → occurrences b (xs ++ ys) ≡ occurrences b xs + occurrences b ys
occurrences-append b [] ys = omega arith
occurrences-append b (x ∷ xs) ys = omega (arith, occurrences-append b xs ys)

-- A byte that stands in neither of two texts stands not in both together.
pub append-without :
    (b : ℕ) (xs ys : Bytes)
    → occurrences b xs ≡ 0
    → occurrences b ys ≡ 0
    → occurrences b (xs ++ ys) ≡ 0
append-without b xs ys x y = omega (arith, occurrences-append b xs ys, x, y)

-- `strings.Contains`
unfoldable pub contains : Bytes → Bytes → Bool
unfolding has_prefix
contains [] part = has_prefix [] part
contains (x ∷ xs) part =
    let rest = contains xs part in if has_prefix (x ∷ xs) part then true else rest

-- `strings.HasSuffix`
unfoldable pub has_suffix : Bytes → Bytes → Bool
unfolding same
has_suffix [] part = same [] part
has_suffix (x ∷ xs) part =
    let rest = has_suffix xs part in if same (x ∷ xs) part then true else rest

-- `v, ok := m[k]` on a map with text keys.
unfoldable pub lookup_text {ℓ} : {V : Type ℓ} → Bytes → List (Bytes × V) → Option V
unfolding same
lookup_text k [] = none
lookup_text k ((j, v) ∷ m) = if same j k then some v else lookup_text k m
