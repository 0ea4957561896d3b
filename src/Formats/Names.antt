-- ===== src/Formats/Names.antt =====
-- util/util.go: the names of the formats, and the line that `pickBest` logs. `show` is what fmt makes of a
-- number with `%d`.
use ytarchive_raw_go.Prelude.{
  ℕ, Bool, true, false, subst, ◌≡◌, refl, inl, inr, List, [], ◌∷◌, ◌++◌, Option, none, some, arith,
  Option-cases, ◌>>=◌,
}
use ytarchive_raw_go.Prelude.Dict.{lookup}
use ytarchive_raw_go.Prelude.Text.{Bytes, codes}
use ytarchive_raw_go.Formats.{
  Urls, first_known, pick_best_id, best_video_formats, best_audio_formats,
}

abbrev pub FormatNames : Type 0
FormatNames = List (ℕ × Bytes)

abbrev pub video_format_names : FormatNames
video_format_names =
    (337, codes "2160p60 VP9 HDR")
    ∷ (315, codes "2160p60 VP9")
    ∷ (266, codes "2160p60 H264")
    ∷ (138, codes "2160p60 H264")
    ∷ (313, codes "2160p VP9")
    ∷ (336, codes "1440p60 VP9 HDR")
    ∷ (308, codes "1440p60 VP9")
    ∷ (271, codes "1440p VP9")
    ∷ (264, codes "1440p H264")
    ∷ (335, codes "1080p60 VP9 HDR")
    ∷ (303, codes "1080p60 VP9")
    ∷ (299, codes "1080p60 H264")
    ∷ (248, codes "1080p VP9")
    ∷ (169, codes "1080p VP8")
    ∷ (137, codes "1080p H264")
    ∷ (334, codes "720p60 VP9 HDR")
    ∷ (302, codes "720p60 VP9")
    ∷ (298, codes "720p60 H264")
    ∷ (247, codes "720p VP9")
    ∷ (136, codes "720p H264")
    ∷ []

abbrev pub audio_format_names : FormatNames
audio_format_names =
    (251, codes "Opus 160 Kbps")
    ∷ (141, codes "AAC 256 Kbps")
    ∷ (171, codes "Opus 128 Kbps")
    ∷ (140, codes "AAC 128 Kbps")
    ∷ (250, codes "Opus 70 Kbps")
    ∷ (249, codes "Opus 50 Kbps")
    ∷ (139, codes "AAC 48 Kbps")
    ∷ []

unfoldable pub name_of : FormatNames → ℕ → Bytes
unfolding lookup
name_of names id = elim (lookup id names) [ none ↦ codes "unknown codec" | some name ↦ name ]

-- What `pickBest` logs of its choice, if it makes one.
unfoldable pub used_format :
    (ℕ → Bytes) → Urls → Option (List ℕ) → List ℕ → FormatNames → Bytes → Option Bytes
unfolding pick_best_id name_of
used_format show urls preferred order names which =
    (elim preferred [
      | none ↦ pick_best_id urls order true
      | some formats ↦ pick_best_id urls formats false
    ])
    >>= λ id. some (
        codes "Using format "
        ++ (show id ++ (codes " (" ++ (name_of names id ++ (codes ") for " ++ which)))))

-- Do all formats of an order have names?
unfoldable pub all_named : FormatNames → List ℕ → Bool
unfolding lookup
all_named names [] = true
all_named names (v ∷ order) =
    let rest = all_named names order in elim (lookup v names) [ none ↦ false | some name ↦ rest ]

first_known-named :
    (names : FormatNames) (urls : Urls) (order : List ℕ) (id : ℕ)
    → all_named names order ≡ true
    → first_known urls order ≡ some id
    → (name : Bytes) × (lookup id names ≡ some name)
unfolding first_known all_named
first_known-named names urls [] id named e = absurd (cc e)
first_known-named names urls (v ∷ order) id named e = elim (Option-cases (lookup v names)) [
  | inl nameless ↦ absurd (ground (arith, named, nameless))
  | inr (name, here) ↦ elim (Option-cases (lookup v urls)) [
    | inl missing ↦
        first_known-named names urls order id (rw (here, all_named) at named)
          (rw (missing, first_known) at e)
    | inr (url, there) ↦
        let chosen : v ≡ id = cc (rw (there, first_known) at e) in
        (name, subst (λ x. lookup x names ≡ some name) chosen here)
  ]
]

video_named : all_named video_format_names best_video_formats ≡ true
unfolding all_named lookup
video_named = refl

audio_named : all_named audio_format_names best_audio_formats ≡ true
unfolding all_named lookup
audio_named = refl

-- Without formats that the user prefers, a format of the order has a name.
pub known_format_named :
    (urls : Urls) (id : ℕ)
    → (first_known urls best_video_formats ≡ some id
        → (name : Bytes) × (lookup id video_format_names ≡ some name))
      × (first_known urls best_audio_formats ≡ some id
          → (name : Bytes) × (lookup id audio_format_names ≡ some name))
known_format_named urls id = (
  first_known-named video_format_names urls best_video_formats id video_named,
  first_known-named audio_format_names urls best_audio_formats id audio_named,
)
