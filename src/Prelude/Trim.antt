-- ===== src/Prelude/Trim.antt =====
-- `strings.TrimSpace`, which args.go and util/http.go use, for white space of ASCII.
use ytarchive_raw_go.Prelude.Tests.{◌==◌, if◌then◌else◌, Bool-cases}
use ytarchive_raw_go.Prelude.Text.{Bytes}
use Prim.Native.Nat.{ℕ}
use mathlib.Core.Path.{◌≡◌, refl}
use mathlib.Core.Logic.{◌↔◌, inl, inr}
use mathlib.Core.Bool.{Bool, true, ◌||◌}
use mathlib.Core.List.{[], ◌∷◌}
use native.Mathlib.Omega.{arith}

-- White space of ASCII.
unfoldable pub is_space : ℕ → Bool
is_space c = c == 32 || (c == 9 || (c == 10 || (c == 11 || (c == 12 || c == 13))))

unfoldable pub trim_left : Bytes → Bytes
unfolding is_space
trim_left [] = []
trim_left (c ∷ text) = let rest = trim_left text in if is_space c then rest else c ∷ text

-- Without the white space at the end.
unfoldable pub trim_right : Bytes → Bytes
unfolding is_space
trim_right [] = []
trim_right (c ∷ text) =
    let rest = trim_right text in
    elim rest [ [] ↦ (if is_space c then [] else c ∷ []) | d ∷ ds ↦ c ∷ (d ∷ ds) ]

-- `strings.TrimSpace`
unfoldable pub trim_space : Bytes → Bytes
unfolding trim_left trim_right
trim_space text = trim_right (trim_left text)

-- Every byte is white space.
abbrev pub Blank : Bytes → Type 0
Blank [] = Unit {0}
Blank (c ∷ text) = (is_space c ≡ true) × Blank text

only_space :
    (c : ℕ) (rest : Bytes)
    → (elim rest [ [] ↦ (if is_space c then [] else c ∷ []) | d ∷ ds ↦ c ∷ (d ∷ ds) ]) ≡ []
    → (is_space c ≡ true) × (rest ≡ [])
only_space c [] e = ground (arith, e)
only_space c (d ∷ ds) e = cc

trim_right-Blank : (text : Bytes) → trim_right text ≡ [] → Blank text
unfolding trim_right
trim_right-Blank [] e = tt
trim_right-Blank (c ∷ text) e =
    let (space, nothing) = only_space c (trim_right text) e in
    (space, trim_right-Blank text nothing)

trim_left-Blank : (text : Bytes) → Blank (trim_left text) → Blank text
unfolding trim_left
trim_left-Blank [] h = tt
trim_left-Blank (c ∷ text) h = elim (Bool-cases (is_space c)) [
  | inl space ↦ (space, trim_left-Blank text (rw (space, trim_left) at h))
  | inr other ↦ (rw (other, trim_left) at h)
]

Blank-trim_left : (text : Bytes) → Blank text → trim_left text ≡ []
unfolding trim_left
Blank-trim_left [] h = refl
Blank-trim_left (c ∷ text) (space, h) = rw (space, trim_left) (Blank-trim_left text h)

-- `TrimSpace` leaves nothing exactly of white space.
pub trim_space-Blank : (text : Bytes) → trim_space text ≡ [] ↔ Blank text
unfolding trim_space trim_right
trim_space-Blank text = (
  λ e. trim_left-Blank text (trim_right-Blank (trim_left text) e),
  λ h. rw (Blank-trim_left text h) refl,
)
