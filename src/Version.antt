-- ===== src/Version.antt =====
-- update_check.go: is there a newer release? Fetching the release and decoding its JSON are outside.
mod Tests
use ytarchive_raw_go.Prelude.{
  ℕ, ◌+◌, ◌-◌, ◌*◌, ◌^◌, ◌≡◌, refl, ◌≢◌, ◌∙◌, sym, ap, subst, ◌⊎◌, inl, inr, ◌↔◌, ℤ, pos, negsuc,
  ltb_ℤ, ◌<ℤ◌, Bool, true, false, ◌&&◌, List, [], ◌∷◌, ◌++◌, Option, none, some, arith, ◌==◌, ltb,
  leb, drop, length, if◌then◌else◌, Bool-cases, Option-cases, eq_of_parts, ◌>>=◌,
}
use ytarchive_raw_go.Prelude.Atoi.{atoi}
use ytarchive_raw_go.Prelude.Text.{Bytes, codes, has_prefix, contains, occurrences}

-- `githubReleaseData`, with the download addresses of its assets.
pub record GithubReleaseData : Type 0 where
  pub tag_name : Bytes
  pub assets : List Bytes

-- `updateUrl`: the first asset for the target, an operating system and an architecture.
unfoldable pub update_url_in : Bytes → List Bytes → Option Bytes
update_url_in target [] = none
update_url_in target (v ∷ assets) =
    if contains v target then some v else update_url_in target assets

unfoldable pub update_url : Bytes → Bytes → GithubReleaseData → Option Bytes
unfolding update_url_in
update_url goos goarch d = update_url_in (goos ++ (codes "-" ++ goarch)) d.assets

-- `strings.TrimPrefix(version, "v")`
unfoldable pub trim_v : Bytes → Bytes
unfolding has_prefix
trim_v version = if has_prefix version (codes "v") then drop 1 version else version

-- `strings.Split(version, ".")`
unfoldable pub split_dots : Bytes → List Bytes
split_dots [] = [] ∷ []
split_dots (c ∷ text) =
    let rest = split_dots text in
    if c == b'.' then [] ∷ rest else (elim rest [ [] ↦ (c ∷ []) ∷ [] | l ∷ ls ↦ (c ∷ l) ∷ ls ])

-- The loop of `parseVersion`.
unfoldable pub parse_numbers : List Bytes → Option (List ℤ)
unfolding atoi
parse_numbers [] = some []
parse_numbers (v ∷ parts) =
    let rest = parse_numbers parts in do n ← atoi v; ns ← rest; some (n ∷ ns)

unfoldable pub parse_version : Bytes → Option (List ℤ)
unfolding trim_v split_dots parse_numbers
parse_version version =
    let parts = split_dots (trim_v version) in
    if length parts == 3 then parse_numbers parts else none

-- The loop of `versionCheck`: is the release later?
unfoldable pub is_newer : List ℤ → List ℤ → Bool
is_newer (v ∷ version) (l ∷ latest) =
    let rest = is_newer version latest in
    if ltb_ℤ v l then true else if ltb_ℤ l v then false else rest
is_newer _ _ = false

-- `versionCheck`, with the release that was fetched, if that succeeded.
unfoldable pub version_check : Bytes → Bytes → List ℤ → Option GithubReleaseData → Option Bytes
unfolding parse_version is_newer update_url
version_check goos goarch version none = none
version_check goos goarch version (some release) = elim (parse_version release.tag_name) [
  | none ↦ none
  | some latest ↦
      if is_newer version latest
      then (elim (update_url goos goarch release) [
        | some url ↦ some (release.tag_name ++ (codes " (" ++ (url ++ codes ")")))
        | none ↦ some release.tag_name
      ])
      else none
]

-- `version` is less at the first place where it differs.
abbrev pub Older : List ℤ → List ℤ → Type 0
Older version latest =
    (shared : List ℤ) × (v : ℤ) × (l : ℤ) × (vs : List ℤ) × (ls : List ℤ) × (version
      ≡ shared ++ v ∷ vs)
    × (latest ≡ shared ++ l ∷ ls)
    × (v <ℤ l)

Older-later : (x : ℤ) {vs ls : List ℤ} → Older vs ls → Older (x ∷ vs) (x ∷ ls)
Older-later x (shared, v, l, vs, ls, e, e', lt) =
    (x ∷ shared, v, l, vs, ls, ap (◌∷◌ x) e, ap (◌∷◌ x) e', lt)

newer-Older : (version latest : List ℤ) → is_newer version latest ≡ true → Older version latest
unfolding is_newer
newer-Older [] latest h = absurd (ground (arith, h))
newer-Older (v ∷ vs) [] h = absurd (ground (arith, h))
newer-Older (v ∷ vs) (l ∷ ls) h = elim (Bool-cases (ltb_ℤ v l)) [
  | inl lt ↦ ([], v, l, vs, ls, refl, refl, ground (arith, lt))
  | inr ge ↦ elim (Bool-cases (ltb_ℤ l v)) [
    | inl gt ↦ absurd (ground (arith, h, ge, gt))
    | inr le ↦
        subst (λ x. Older (v ∷ vs) (x ∷ ls)) (eq_of_parts v l (ground (arith, ge, le)))
          (Older-later v (newer-Older vs ls (ground (arith, h, ge, le))))
  ]
]

older-newer :
    (shared : List ℤ) (v l : ℤ) (vs ls : List ℤ)
    → v <ℤ l
    → is_newer (shared ++ v ∷ vs) (shared ++ l ∷ ls) ≡ true
unfolding is_newer
older-newer [] v l vs ls lt = ground (arith, lt)
older-newer (x ∷ shared) v l vs ls lt = ground (arith, older-newer shared v l vs ls lt)

-- The loop of `versionCheck` finds a release newer exactly if the program's version is less at the
-- first place where the two differ.
pub is_newer_iff : (version latest : List ℤ) → is_newer version latest ≡ true ↔ Older version latest
is_newer_iff version latest = (
  newer-Older version latest,
  λ (shared, v, l, vs, ls, e, e', lt). rw (e, e') (older-newer shared v l vs ls lt),
)

-- A text without a dot is one part.
abbrev pub NoDot : Bytes → Type 0
NoDot a = occurrences b'.' a ≡ 0

split-part :
    (a : Bytes) (text : Bytes) → NoDot a → split_dots (a ++ b'.' ∷ text) ≡ a ∷ split_dots text
unfolding split_dots
split-part [] text h = refl
split-part (c ∷ a) text h = ground (arith, split-part a text, h)

split-last : (a : Bytes) → NoDot a → split_dots a ≡ a ∷ []
unfolding split_dots
split-last [] h = refl
split-last (c ∷ a) h = ground (arith, split-last a, h)

-- `parseVersion` reads three numbers from three texts without a dot that `Atoi` accepts, with dots
-- between them and a `v` before, and fails if `Atoi` refuses one of the texts.
pub parse_version_lem :
    (a b c : Bytes)
    → NoDot a
    → NoDot b
    → NoDot c
    → parse_version (codes "v" ++ (a ++ b'.' ∷ (b ++ b'.' ∷ c)))
      ≡ (do x ← atoi a; y ← atoi b; z ← atoi c; some (x ∷ y ∷ z ∷ []))
unfolding parse_version
parse_version_lem a b c ha hb hc =
    ground (arith, split-part a (b ++ b'.' ∷ c) ha, split-part b c hb, split-last c hc)
