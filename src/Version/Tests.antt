-- ===== src/Version/Tests.antt =====
-- Release tags at concrete inputs.
use ytarchive_raw_go.Prelude.{ℕ, ◌≡◌, refl, ◌↔◌, pos, negsuc, true, List, [], ◌∷◌, none, some}
use ytarchive_raw_go.Prelude.Text.{codes, contains}
use ytarchive_raw_go.Version.{parse_version, is_newer, is_newer_iff, Older, version_check}

abbrev release_tag : List ℕ
release_tag = codes "v1.10.2"

parsed_tag : parse_version release_tag ≡ some (pos 1 ∷ pos 10 ∷ pos 2 ∷ [])
unfolding parse_version
parsed_tag = refl

two_numbers : parse_version (codes "v1.2") ≡ none
unfolding parse_version
two_numbers = refl

signed_numbers : parse_version (codes "-1.+2.3") ≡ some (negsuc 0 ∷ pos 2 ∷ pos 3 ∷ [])
unfolding parse_version
signed_numbers = refl

announced :
    version_check
      (codes "linux")
      (codes "amd64")
      (pos 1 ∷ pos 9 ∷ pos 9 ∷ [])
      (some (record { tag_name = release_tag; assets = codes "x/linux-amd64" ∷ [] }))
    ≡ some (codes "v1.10.2 (x/linux-amd64)")
unfolding version_check contains
announced = refl

is_newer_example :
    is_newer (pos 1 ∷ pos 9 ∷ pos 9 ∷ []) (pos 1 ∷ pos 10 ∷ pos 2 ∷ []) ≡ true
    ↔ Older (pos 1 ∷ pos 9 ∷ pos 9 ∷ []) (pos 1 ∷ pos 10 ∷ pos 2 ∷ [])
is_newer_example = is_newer_iff (pos 1 ∷ pos 9 ∷ pos 9 ∷ []) (pos 1 ∷ pos 10 ∷ pos 2 ∷ [])
