-- ===== src/Prelude/Lists.antt =====
-- Lists measured and indexed by native numbers, under the library's names.
use Prim.Native.Nat.{ℕ, zero, suc, ◌+◌, ◌-◌, ◌≤◌, ◌<◌, min}
use mathlib.Core.Path.{◌≡◌, refl, ap}
use mathlib.Core.Logic.{◌≢◌, ◌⊎◌, inl, inr}
use mathlib.Core.List.{List, [], ◌∷◌, ◌++◌, map}
use mathlib.Core.Option.{Option, none, some}
use native.Mathlib.Omega.{arith}

module _ {ℓ} {A : Type ℓ} where
  abbrev pub length : List A → ℕ
  length [] = 0
  length (x ∷ xs) = suc (length xs)

  abbrev pub get_elem? : List A → ℕ → Option A
  get_elem? [] i = none
  get_elem? (x ∷ xs) zero = some x
  get_elem? (x ∷ xs) (suc i) = get_elem? xs i

  -- A write out of bounds changes nothing.
  abbrev pub set : List A → ℕ → A → List A
  set [] i v = []
  set (x ∷ xs) zero v = v ∷ xs
  set (x ∷ xs) (suc i) v = x ∷ set xs i v

  pub length-append : (xs ys : List A) → length (xs ++ ys) ≡ length xs + length ys
  length-append [] ys = omega arith
  length-append (x ∷ xs) ys = omega (arith, length-append xs ys)

module _ {ℓ} {A : Type ℓ} where
  pub length-set : (xs : List A) (i : ℕ) (v : A) → length (set xs i v) ≡ length xs
  length-set [] i v = refl
  length-set (x ∷ xs) zero v = refl
  length-set (x ∷ xs) (suc i) v = ap suc (length-set xs i v)

  pub get_elem?-set_self :
      (xs : List A) (i : ℕ) (v : A) → i < length xs → get_elem? (set xs i v) i ≡ some v
  get_elem?-set_self [] i v h = elim h [ ]
  get_elem?-set_self (x ∷ xs) zero v h = refl
  get_elem?-set_self (x ∷ xs) (suc i) v h = get_elem?-set_self xs i v (omega arith)

  pub get_elem?-set_ne :
      (xs : List A) {i j : ℕ} (v : A) → i ≢ j → get_elem? (set xs i v) j ≡ get_elem? xs j
  get_elem?-set_ne [] v h = refl
  get_elem?-set_ne (x ∷ xs) {i = zero} {j = zero} v h = absurd (h refl)
  get_elem?-set_ne (x ∷ xs) {i = zero} {j = suc j} v h = refl
  get_elem?-set_ne (x ∷ xs) {i = suc i} {j = zero} v h = refl
  get_elem?-set_ne (x ∷ xs) {i = suc i} {j = suc j} v h = get_elem?-set_ne xs v (λ e. h (ap suc e))

module _ {ℓ} {A : Type ℓ} where
  abbrev pub get_or : List A → ℕ → A → A
  get_or [] i d = d
  get_or (x ∷ xs) zero d = x
  get_or (x ∷ xs) (suc i) d = get_or xs i d

  abbrev pub take : ℕ → List A → List A
  take zero xs = []
  take (suc n) [] = []
  take (suc n) (x ∷ xs) = x ∷ take n xs

  abbrev pub drop : ℕ → List A → List A
  drop zero xs = xs
  drop (suc n) [] = []
  drop (suc n) (x ∷ xs) = drop n xs

  abbrev pub replicate : ℕ → A → List A
  replicate zero a = []
  replicate (suc n) a = a ∷ replicate n a

  pub take-append-drop : (n : ℕ) (xs : List A) → take n xs ++ drop n xs ≡ xs
  take-append-drop zero xs = refl
  take-append-drop (suc n) [] = refl
  take-append-drop (suc n) (x ∷ xs) = rw (take-append-drop n xs)

  pub length-take : (n : ℕ) (xs : List A) → length (take n xs) ≡ min n (length xs)
  length-take zero xs = omega arith
  length-take (suc n) [] = omega arith
  length-take (suc n) (x ∷ xs) = omega (arith, length-take n xs)

  pub length-drop : (n : ℕ) (xs : List A) → length (drop n xs) ≡ length xs - n
  length-drop zero xs = omega arith
  length-drop (suc n) [] = omega arith
  length-drop (suc n) (x ∷ xs) = omega (arith, length-drop n xs)

  pub length-replicate : (n : ℕ) (a : A) → length (replicate n a) ≡ n
  length-replicate zero a = refl
  length-replicate (suc n) a = ap suc (length-replicate n a)

  pub length-map {κ} : {B : Type κ} (xs : List A) (f : A → B) → length (map f xs) ≡ length xs
  length-map [] f = refl
  length-map (x ∷ xs) f = ap suc (length-map xs f)

-- The total of a weight over a list.
module _ {ℓ} {A : Type ℓ} where
  abbrev pub sum_of : (A → ℕ) → List A → ℕ
  sum_of w [] = 0
  sum_of w (x ∷ xs) = w x + sum_of w xs

  pub sum_of-append : (w : A → ℕ) (xs ys : List A) → sum_of w (xs ++ ys) ≡ sum_of w xs + sum_of w ys
  sum_of-append w [] ys = omega arith
  sum_of-append w (x ∷ xs) ys = omega (arith, sum_of-append w xs ys)

  -- Replacing one element moves the total by the difference of the two weights.
  pub sum_of-set :
      (w : A → ℕ) (xs : List A) (i : ℕ) {old : A} (new : A)
      → get_elem? xs i ≡ some old
      → sum_of w (set xs i new) + w old ≡ sum_of w xs + w new
  sum_of-set w [] i new h = cc
  sum_of-set w (x ∷ xs) zero new h = ground arith
  sum_of-set w (x ∷ xs) (suc i) new h = omega (arith, sum_of-set w xs i new h)

  pub le-sum_of :
      (w : A → ℕ) (xs : List A) (i : ℕ) {x : A} → get_elem? xs i ≡ some x → w x ≤ sum_of w xs
  le-sum_of w [] i h = cc
  le-sum_of w (x ∷ xs) zero h = ground arith
  le-sum_of w (x ∷ xs) (suc i) h = omega (arith, le-sum_of w xs i h)

  -- If every element weighs nothing, so does the list.
  pub sum_of-eq-zero :
      (w : A → ℕ) (xs : List A)
      → ((i : ℕ) (x : A) → get_elem? xs i ≡ some x → w x ≡ 0)
      → sum_of w xs ≡ 0
  sum_of-eq-zero w [] h = refl
  sum_of-eq-zero w (x ∷ xs) h =
      omega (arith, h 0 x refl, sum_of-eq-zero w xs (λ i y e. h (suc i) y e))

  pub get_elem?-lt-length : (xs : List A) (i : ℕ) {x : A} → get_elem? xs i ≡ some x → i < length xs
  get_elem?-lt-length [] i h = cc
  get_elem?-lt-length (x ∷ xs) zero h = omega arith
  get_elem?-lt-length (x ∷ xs) (suc i) h = omega (arith, get_elem?-lt-length xs i h)

  pub get_elem?_of_lt : (xs : List A) (i : ℕ) → i < length xs → (x : A) × (get_elem? xs i ≡ some x)
  get_elem?_of_lt [] i h = elim h [ ]
  get_elem?_of_lt (x ∷ xs) zero h = (x, refl)
  get_elem?_of_lt (x ∷ xs) (suc i) h = get_elem?_of_lt xs i (omega arith)

  pub List-cases : (xs : List A) → (xs ≡ []) ⊎ ((x : A) × (r : List A) × (xs ≡ x ∷ r))
  List-cases [] = inl refl
  List-cases (x ∷ r) = inr (x, r, refl)

module _ {ℓ} {A : Type ℓ} where
  -- An element of a list with one place written is the new one, or was there before.
  pub get_elem?-set_cases :
      (xs : List A) (i j : ℕ) (v : A) {x : A}
      → get_elem? (set xs j v) i ≡ some x
      → ((i ≡ j) × (v ≡ x)) ⊎ ((i ≢ j) × (get_elem? xs i ≡ some x))
  get_elem?-set_cases [] i j v e = cc
  get_elem?-set_cases (y ∷ ys) zero zero v e = inl (refl, cc)
  get_elem?-set_cases (y ∷ ys) zero (suc j) v e = inr (omega arith, e)
  get_elem?-set_cases (y ∷ ys) (suc i) zero v e = inr (omega arith, e)
  get_elem?-set_cases (y ∷ ys) (suc i) (suc j) v e = elim (get_elem?-set_cases ys i j v e) [
    | inl (here, same) ↦ inl (ap suc here, same)
    | inr (away, old) ↦ inr (omega arith, old)
  ]

  pub get_elem?-append_last : (xs : List A) (x : A) → get_elem? (xs ++ x ∷ []) (length xs) ≡ some x
  get_elem?-append_last [] x = refl
  get_elem?-append_last (y ∷ ys) x = get_elem?-append_last ys x

  pub get_elem?-append_left :
      (xs ys : List A) (i : ℕ) → i < length xs → get_elem? (xs ++ ys) i ≡ get_elem? xs i
  get_elem?-append_left [] ys i h = elim h [ ]
  get_elem?-append_left (x ∷ xs) ys zero h = refl
  get_elem?-append_left (x ∷ xs) ys (suc i) h = get_elem?-append_left xs ys i (omega arith)

  -- An element of a list with one more at the end is the new one, or was there before.
  pub get_elem?-append_cases :
      (xs : List A) (i : ℕ) (v : A) {x : A}
      → get_elem? (xs ++ v ∷ []) i ≡ some x
      → ((i ≡ length xs) × (v ≡ x)) ⊎ (get_elem? xs i ≡ some x)
  get_elem?-append_cases [] zero v e = inl (refl, cc)
  get_elem?-append_cases [] (suc i) v e = cc
  get_elem?-append_cases (y ∷ ys) zero v e = inr e
  get_elem?-append_cases (y ∷ ys) (suc i) v e = elim (get_elem?-append_cases ys i v e) [
    | inl (here, same) ↦ inl (ap suc here, same)
    | inr old ↦ inr old
  ]
