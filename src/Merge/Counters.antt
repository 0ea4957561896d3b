-- ===== src/Merge/Counters.antt =====
-- merge/progress.go: the counters of `mergeProgress`, less what `updated` prints.
use ytarchive_raw_go.Prelude.{
  ℕ, ◌+◌, ◌≡◌, ℤ, pos, negsuc, Bool, true, false, ltb_ℤ, eqb_ℤ, if◌then◌else◌, refl,
}

-- `total` is -1 until it is known.
pub record MergeProgress : Type 0 where
  pub ended : Bool
  pub total : ℤ
  pub audio : ℕ
  pub video : ℕ

abbrev pub new_progress : MergeProgress
new_progress = record { ended = false; total = negsuc 0; audio = 0; video = 0 }

-- A total of 0 ends the progress.
unfoldable pub updated : MergeProgress → MergeProgress
updated m = record m { ended = if eqb_ℤ m.total (pos 0) then true else m.ended }

-- Only the first total counts.
unfoldable pub init_total : ℕ → MergeProgress → MergeProgress
unfolding updated
init_total total m = if ltb_ℤ m.total (pos 0) then updated (record m { total = pos total }) else m

unfoldable pub done : MergeProgress → MergeProgress
unfolding updated
done m = updated (record m { ended = true })

unfoldable pub merged_audio : MergeProgress → MergeProgress
unfolding updated
merged_audio m = updated (record m { audio = m.audio + 1 })

unfoldable pub merged_video : MergeProgress → MergeProgress
unfolding updated
merged_video m = updated (record m { video = m.video + 1 })

-- When the merger of an ignored stream is the first to set the total, to 0, the progress counts as
-- ended at once, and the number of segments of the other stream changes nothing any more.
pub ignored_stream_ends_progress :
    (segment_count : ℕ)
    → (init_total segment_count (init_total 0 new_progress) ≡ init_total 0 new_progress)
      × ((init_total 0 new_progress).ended ≡ true)
unfolding init_total
ignored_stream_ends_progress n = (refl, refl)
