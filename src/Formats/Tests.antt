-- ===== src/Formats/Tests.antt =====
-- The choice of a format at concrete inputs.
use ytarchive_raw_go.Prelude.{ℕ, ◌≡◌, refl, ◌⊎◌, true, false, [], ◌∷◌, none, some}
use ytarchive_raw_go.Prelude.Dict.{lookup}
use ytarchive_raw_go.Prelude.Text.{codes}
use ytarchive_raw_go.Formats.{
  Urls, best_audio, best_audio_formats, best_video, pick_best, pick_best_id, IsFirst, IsHighest,
  NoneOf, pick_best_id_lem,
}

abbrev audio_urls : Urls
audio_urls = (140, codes "aac") ∷ (251, codes "opus") ∷ (900, codes "new") ∷ []

opus_first : best_audio audio_urls none ≡ some (codes "opus")
unfolding pick_best lookup
opus_first = refl

preferred : best_audio audio_urls (some (140 ∷ [])) ≡ some (codes "aac")
unfolding pick_best lookup
preferred = refl

-- No itag of the table is there: the highest is taken.
guessed : best_video audio_urls none ≡ some (codes "new")
unfolding pick_best lookup
guessed = refl

pick_best_id_example :
    ((k : ℕ) × (pick_best_id audio_urls best_audio_formats true ≡ some k)
      × (IsFirst audio_urls best_audio_formats k
          ⊎ (NoneOf audio_urls best_audio_formats × (true ≡ true) × IsHighest audio_urls k)))
    ⊎ ((pick_best_id audio_urls best_audio_formats true ≡ none)
        × NoneOf audio_urls best_audio_formats
        × ((true ≡ false) ⊎ (audio_urls ≡ [])))
pick_best_id_example = pick_best_id_lem audio_urls best_audio_formats true
