-- ===== src/Merge/Ffmpeg/Thumbnail.antt =====
-- util/util.go: `WriteThumbnail`. Base64 and the file system are outside.
use ytarchive_raw_go.Prelude.{
  ◌≤◌, ◌≡◌, sym, ap, ◌∙◌, ◌↔◌, Bool, true, false, Option, none, some, arith, if◌then◌else◌, length,
  Option-cases, inl, inr,
}
use ytarchive_raw_go.Prelude.Text.{Bytes}
use ytarchive_raw_go.Args.Lists.{cut}
use ytarchive_raw_go.Download.SegmentFile.{
  Content, open_file, write_over, write_over_short, write_over_long,
}

-- Which of the calls on the file succeed.
pub record ThumbnailDisk : Type 0 where
  pub opens : Bool
  pub writes : Bool
  pub syncs : Bool

-- The text after the first comma, or all of it if there is none: a data URL has one.
unfoldable pub base64_part : Bytes → Bytes
unfolding cut
base64_part text = elim (cut b',' text) [ none ↦ text | some (before, after) ↦ after ]

-- `WriteThumbnail`: whether it succeeds, and the file. `torn` is what a write that fails leaves.
unfoldable pub write_thumbnail :
    (decode : Bytes → Option Content)
    → (torn : Content → Content) → ThumbnailDisk
    → Bytes
    → Option Content
    → Bool × Option Content
unfolding base64_part open_file write_over
write_thumbnail decode torn d thumbnail old = elim (decode (base64_part thumbnail)) [
  | none ↦ (false, old)
  | some dec ↦
      if d.opens
      then if d.writes
        then (d.syncs, some (write_over (open_file old) dec))
        else (false, some (torn (open_file old)))
      else (false, old)
]

-- When `WriteThumbnail` succeeds, the part of the thumbnail after its first comma was decoded, and the
-- file is that image exactly if no longer file was there before: it is not truncated.
pub write_thumbnail_lem :
    (decode : Bytes → Option Content) (torn : Content → Content) (d : ThumbnailDisk)
    (thumbnail : Bytes) (old : Option Content)
    → (write_thumbnail decode torn d thumbnail old).0 ≡ true
    → (image : Content) × (decode (base64_part thumbnail) ≡ some image)
      × ((write_thumbnail decode torn d thumbnail old).1 ≡ some image
          ↔ length (open_file old) ≤ length image)
unfolding write_thumbnail
write_thumbnail_lem decode torn d thumbnail old ok =
    elim (Option-cases (decode (base64_part thumbnail))) [
      | inl nothing ↦ absurd (ground (arith, ok, nothing))
      | inr (image, e) ↦
          let written : (write_thumbnail decode torn d thumbnail old).1
              ≡ some (write_over (open_file old) image) =
            rw (e, write_thumbnail) (ground (arith, e, ok)) in
          (
            image,
            e,
            (
              λ same. write_over_long (open_file old) image (cc (sym written ∙ same)),
              λ short. written ∙ ap some (write_over_short (open_file old) image short),
            ),
          )
    ]
