-- ===== src/Merge/Words.antt =====
-- merge/progress.go: what `updated` shows.
use ytarchive_raw_go.Prelude.{◌+◌, ◌≡◌, refl, pos, Bool, true, false, ◌∷◌, ◌++◌, if◌then◌else◌}
use ytarchive_raw_go.Prelude.Text.{Bytes, codes, occurrences, append-without}
use ytarchive_raw_go.Prelude.Numbers.{Numbers, Plain}
use ytarchive_raw_go.Log.Format.{ProgressStatus}
use ytarchive_raw_go.Merge.Counters.{MergeProgress}

abbrev pub color_green : Bytes
color_green = 27 ∷ codes "[32m"

abbrev pub color_reset : Bytes
color_reset = 27 ∷ codes "[0m"

abbrev pub color_yellow : Bytes
color_yellow = 27 ∷ codes "[93m"

module _ {F : Type 0} (f : Numbers F) where
  -- The share that is shown, by the counters after `updated`.
  unfoldable pub percentage : MergeProgress → F
  percentage m =
      if m.ended
      then f.of_int (pos 100)
      else f.mul (f.div (f.of_int (pos (m.audio + m.video))) (f.of_int m.total)) (f.of_int (pos 50))

  -- What `updated` gives to `log.Progress`.
  unfoldable pub status_of : MergeProgress → ProgressStatus
  unfolding percentage
  status_of m = record {
    title = f.show_float 1 (percentage m) ++ codes "%";
    message =
        (if m.ended then color_green else color_yellow)
        ++ (f.show_float 2 (percentage m)
            ++ (codes "% ("
                ++ (f.show (pos m.audio)
                    ++ (codes " audio, "
                        ++ (f.show (pos m.video) ++ (codes " video)" ++ color_reset))))));
  }

  -- Neither the title nor the message of the mergers has a newline.
  pub status_of-line :
      Plain f
      → (m : MergeProgress)
      → (occurrences 10 (status_of m).title ≡ 0) × (occurrences 10 (status_of m).message ≡ 0)
  unfolding status_of
  status_of-line plain m = (
    append-without 10 _ (codes "%") (plain.float_line 1 (percentage m)) refl,
    append-without 10 (if m.ended then color_green else color_yellow) _ (color_line m.ended)
        (search (append-without, plain.float_line, plain.int_line) depth 20),
  )
    where
      color_line : (b : Bool) → occurrences 10 (if b then color_green else color_yellow) ≡ 0
      color_line true = refl
      color_line false = refl
