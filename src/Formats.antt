-- ===== src/Formats.antt =====
-- util/util.go: which of the formats of a video is downloaded. An itag is a natural number.
pub mod Names
mod Tests
use ytarchive_raw_go.Prelude.{
  ℕ, suc, ◌≤◌, ◌<◌, ◌≡◌, refl, ◌≢◌, ◌⊎◌, inl, inr, Bool, true, false, List, [], ◌∷◌, ◌++◌, Option,
  none, some, arith, ltb, if◌then◌else◌, ap, Bool-cases, Option-cases, ◌>>=◌,
}
use ytarchive_raw_go.Prelude.Dict.{lookup}
use ytarchive_raw_go.Prelude.Text.{Bytes}

abbrev pub best_video_formats : List ℕ
best_video_formats =
    337 ∷ 315 ∷ 266 ∷ 138 ∷ 313 ∷ 336 ∷ 308 ∷ 271 ∷ 264 ∷ 335 ∷ 303 ∷ 299 ∷ 248 ∷ 169 ∷ 137 ∷ 334
    ∷ 302 ∷ 298 ∷ 247 ∷ 136 ∷ []

abbrev pub best_audio_formats : List ℕ
best_audio_formats = 251 ∷ 141 ∷ 171 ∷ 140 ∷ 250 ∷ 249 ∷ 139 ∷ []

-- The URLs of a stream by itag, `map[int]string`.
abbrev pub Urls : Type 0
Urls = List (ℕ × Bytes)

-- The first format of the order that there is.
unfoldable pub first_known : Urls → List ℕ → Option ℕ
unfolding lookup
first_known urls [] = none
first_known urls (v ∷ order) =
    let rest = first_known urls order in elim (lookup v urls) [ some u ↦ some v | none ↦ rest ]

-- The greater of an itag and what was found.
unfoldable pub greater : ℕ → Option ℕ → Option ℕ
greater k none = some k
greater k (some max) = if ltb max k then some k else some max

-- The highest itag; `none` if there is no URL at all.
unfoldable pub highest : Urls → Option ℕ
unfolding greater
highest [] = none
highest ((k, u) ∷ urls) = greater k (highest urls)

-- `pickBestID`; `none`: the program ends with an error.
unfoldable pub pick_best_id : Urls → List ℕ → Bool → Option ℕ
unfolding first_known highest
pick_best_id urls order guess = elim (first_known urls order) [
  | some v ↦ some v
  | none ↦ if guess then highest urls else none
]

-- `pickBest`: formats that the user prefers replace the order, and then nothing is guessed.
unfoldable pub pick_best : Urls → Option (List ℕ) → List ℕ → Option Bytes
unfolding pick_best_id
pick_best urls none order = pick_best_id urls order true >>= λ id. lookup id urls
pick_best urls (some preferred) order = pick_best_id urls preferred false >>= λ id. lookup id urls

abbrev pub best_video : Urls → Option (List ℕ) → Option Bytes
best_video urls preferred = pick_best urls preferred best_video_formats

abbrev pub best_audio : Urls → Option (List ℕ) → Option Bytes
best_audio urls preferred = pick_best urls preferred best_audio_formats

-- There is no URL for any of the formats.
abbrev pub NoneOf : Urls → List ℕ → Type 0
NoneOf urls [] = Unit {0}
NoneOf urls (v ∷ order) = (lookup v urls ≡ none) × NoneOf urls order

-- `k` is the first format of the order that there is.
abbrev pub IsFirst : Urls → List ℕ → ℕ → Type 0
IsFirst urls order k =
    (before : List ℕ) × (after : List ℕ) × (order ≡ before ++ k ∷ after)
    × NoneOf urls before
    × (lookup k urls ≢ none)

-- `k` is the highest of the formats that there are.
abbrev pub IsHighest : Urls → ℕ → Type 0
IsHighest urls k = (lookup k urls ≢ none) × ((j : ℕ) → lookup j urls ≢ none → j ≤ k)

first_known-cases :
    (urls : Urls) (order : List ℕ)
    → ((first_known urls order ≡ none) × NoneOf urls order)
      ⊎ ((k : ℕ) × (first_known urls order ≡ some k) × IsFirst urls order k)
unfolding first_known
first_known-cases urls [] = inl (refl, tt)
first_known-cases urls (v ∷ order) = elim (Option-cases (lookup v urls)) [
  | inr (u, e) ↦ inr (v, rw (e, first_known), ([], order, refl, tt, λ n. ground (arith, e, n)))
  | inl e ↦ elim (first_known-cases urls order) [
    | inl (q, no_others) ↦ inl (rw (e, first_known) q, (e, no_others))
    | inr (k, q, (before, after, split, no_others, there)) ↦
        inr (k, rw (e, first_known) q, (v ∷ before, after, ap (◌∷◌ v) split, (e, no_others), there))
  ]
]

highest-cases :
    (urls : Urls)
    → ((highest urls ≡ none) × (urls ≡ [])) ⊎ ((k : ℕ) × (highest urls ≡ some k) × IsHighest urls k)
unfolding highest lookup
highest-cases [] = inl (refl, refl)
highest-cases ((k, u) ∷ urls) = elim (highest-cases urls) [
  | inl (q, e) ↦ rw e (inr (k, refl, (λ n. ground (arith, n), λ j h. ground (arith, h))))
  | inr (m, q, (there, most)) ↦ elim (Bool-cases (ltb m k)) [
    | inl higher ↦
        inr (k, rw (q, higher), (λ n. ground (arith, n), λ j h. ground (arith, h, most j, higher)))
    | inr lower ↦ inr (
      m,
      rw (q, lower),
      (λ n. ground (arith, n, there, lower), λ j h. ground (arith, h, most j, lower)),
    )
  ]
]

-- What `pickBestID` picks is the first format of the order that there is; if there is none of them,
-- and it is to guess, the highest there is. It ends the program exactly if there is none of them and
-- it is not to guess, or there is no URL at all.
pub pick_best_id_lem :
    (urls : Urls) (order : List ℕ) (guess : Bool)
    → ((k : ℕ) × (pick_best_id urls order guess ≡ some k)
        × (IsFirst urls order k ⊎ (NoneOf urls order × (guess ≡ true) × IsHighest urls k)))
      ⊎ ((pick_best_id urls order guess ≡ none)
          × NoneOf urls order
          × ((guess ≡ false) ⊎ (urls ≡ [])))
unfolding pick_best_id
pick_best_id_lem urls order guess = elim (first_known-cases urls order) [
  | inr (k, q, f) ↦ inl (k, rw (q, pick_best_id), inl f)
  | inl (q, nothing) ↦ elim (Bool-cases guess) [
    | inr strict ↦ inr (rw (q, strict, pick_best_id), nothing, inl strict)
    | inl free ↦ elim (highest-cases urls) [
      | inl (h, empty) ↦ inr (rw (q, free, pick_best_id) h, nothing, inr empty)
      | inr (k, h, top) ↦ inl (k, rw (q, free, pick_best_id) h, inr (nothing, free, top))
    ]
  ]
]
