-- ===== src/Segments/Pool.antt =====
-- What a work queue promises, whichever of the two it is: a pool of segments. A worker without a segment
-- takes one that waits; a worker with one puts it back or is done with it. Which waiting segment a worker
-- gets is left open.
use ytarchive_raw_go.Prelude.{
  ℕ, zero, suc, ◌+◌, ◌≡◌, refl, ap, ◌∙◌, sym, ℤ, List, [], ◌∷◌, ◌++◌, Option, none, some, arith,
  if◌then◌else◌, get_elem?, set, replicate, map, ltb, false, true, inl, inr, Bool-cases,
}
use ytarchive_raw_go.Segments.Failed.{Pick, next_segment}
use ytarchive_raw_go.Segments.Count.{is_seg, picked}

-- How often each segment waits, what each worker has in hand, and the segments that are done.
pub record Pool : Type 0 where
  pub waiting : ℕ → ℕ
  pub hands : List (Option ℤ)
  pub resolved : List ℤ

-- A step of the pool: nothing that can be seen, or what one worker does.
pub data PoolStep (p q : Pool) : Type 0 where
  idle :
      ((k : ℕ) → q.waiting k ≡ p.waiting k)
      → q.hands ≡ p.hands
      → q.resolved ≡ p.resolved
      → PoolStep p q
  take :
      (i : ℕ) (n : ℤ)
      → get_elem? p.hands i ≡ some none
      → ((k : ℕ) → q.waiting k + is_seg k n ≡ p.waiting k)
      → q.hands ≡ set p.hands i (some n)
      → q.resolved ≡ p.resolved
      → PoolStep p q
  put_back :
      (i : ℕ) (n : ℤ)
      → get_elem? p.hands i ≡ some (some n)
      → ((k : ℕ) → q.waiting k ≡ p.waiting k + is_seg k n)
      → q.hands ≡ set p.hands i none
      → q.resolved ≡ p.resolved
      → PoolStep p q
  finish :
      (i : ℕ) (n : ℤ)
      → get_elem? p.hands i ≡ some (some n)
      → ((k : ℕ) → q.waiting k ≡ p.waiting k)
      → q.hands ≡ set p.hands i none
      → q.resolved ≡ p.resolved ++ n ∷ []
      → PoolStep p q

-- The pools that `threads` workers can come to, when each of the segments waits once.
pub data PoolReach (segments threads : ℕ) : Pool → Type 0 where
  full :
      {p : Pool}
      → ((k : ℕ) → p.waiting k ≡ (if ltb k segments then 1 else 0))
      → p.hands ≡ replicate threads none
      → p.resolved ≡ []
      → PoolReach segments threads p
  next : {p q : Pool} → PoolReach segments threads p → PoolStep p q → PoolReach segments threads q

pub map-set {ℓ κ} :
    {A : Type ℓ} {B : Type κ} (f : A → B) (xs : List A) (i : ℕ) (x : A)
    → map f (set xs i x) ≡ set (map f xs) i (f x)
map-set f [] i x = refl
map-set f (y ∷ ys) zero x = refl
map-set f (y ∷ ys) (suc i) x = ap (λ l. f y ∷ l) (map-set f ys i x)

pub get_elem?-map {ℓ κ} :
    {A : Type ℓ} {B : Type κ} (f : A → B) (xs : List A) (i : ℕ) (x : A)
    → get_elem? xs i ≡ some x
    → get_elem? (map f xs) i ≡ some (f x)
get_elem?-map f [] i x e = cc
get_elem?-map f (y ∷ ys) zero x e = cc
get_elem?-map f (y ∷ ys) (suc i) x e = get_elem?-map f ys i x e

set_same {ℓ} :
    {A : Type ℓ} (xs : List A) (i : ℕ) (x : A) → get_elem? xs i ≡ some x → set xs i x ≡ xs
set_same [] i x e = refl
set_same (y ∷ ys) zero x e = cc
set_same (y ∷ ys) (suc i) x e = ap (◌∷◌ y) (set_same ys i x e)

-- A worker that goes from a state with an empty hand to another one.
pub still_empty {ℓ} :
    {W : Type ℓ} (hand : W → Option ℤ) (ws : List W) (i : ℕ) (w w' : W)
    → get_elem? ws i ≡ some w
    → hand w ≡ none
    → hand w' ≡ none
    → map hand (set ws i w') ≡ map hand ws
still_empty hand ws i w w' e h h' =
    map-set hand ws i w'
    ∙ (ap (set (map hand ws) i) (h' ∙ sym h)
        ∙ set_same (map hand ws) i (hand w) (get_elem?-map hand ws i w e))

picked_found :
    (k now : ℕ) (r : Pick) → r.found ≡ true → picked k r ≡ is_seg k (next_segment now r).seg
unfolding picked next_segment
picked_found k now r e = ground (arith, e)

picked_none : (k : ℕ) (r : Pick) → r.found ≡ false → picked k r ≡ 0
unfolding picked
picked_none k r e = ground (arith, e)

-- A queue that was asked: a segment is taken if one was found, and else there is nothing to see.
pub asked-PoolStep :
    (p q : Pool) (i now : ℕ) (r : Pick) (hand : Option ℤ)
    → get_elem? p.hands i ≡ some none
    → ((k : ℕ) → q.waiting k + picked k r ≡ p.waiting k)
    → hand ≡ (if r.found then some (next_segment now r).seg else none)
    → q.hands ≡ set p.hands i hand
    → q.resolved ≡ p.resolved
    → PoolStep p q
asked-PoolStep p q i now r hand e counts h hands resolved = elim (Bool-cases r.found) [
  | inl found ↦
      take i (next_segment now r).seg e
        (λ k. ground (arith, found, counts k, picked_found k now r found))
        (hands ∙ ap (set p.hands i) (ground (arith, h, found))) resolved
  | inr missed ↦
      idle (λ k. ground (arith, missed, counts k, picked_none k r missed))
        (hands ∙ (ap (set p.hands i) (ground (arith, h, missed)) ∙ set_same p.hands i none e))
        resolved
]
