-- ===== src/Download/SegmentFile.antt =====
-- download/download.go: `downloadSegment`, and what it leaves in the segment directory. The file
-- system and the network are outside the program: their answers are arguments.
use ytarchive_raw_go.Prelude.{
  ℕ, zero, suc, ◌≤◌, ◌<◌, ◌≡◌, refl, ap, ◌≢◌, Bool, true, false, List, [], ◌∷◌, ◌++◌, Option, none,
  some, arith, ◌==◌, ltb, if◌then◌else◌, length, length-append, length-drop, drop, take,
}
use mathlib.Core.List.{append-nil}
use mathlib.Core.Logic.{◌⊎◌}
use mathlib.Core.Bool.{◌&&◌}
use Prim.Native.String.{String}
use ytarchive_raw_go.Segments.Status.{SegmentResult}

-- A file's content, as bytes.
abbrev pub Content : Type 0
Content = List ℕ

-- The two files of one segment: `.done` and `.incomplete`.
pub record Files : Type 0 where
  pub done : Option Content
  pub incomplete : Option Content

-- `util.FileNotEmpty`
unfoldable pub file_not_empty : Option Content → Bool
file_not_empty none = false
file_not_empty (some c) = ltb 0 (length c)

-- `os.OpenFile` with `O_RDWR|O_CREATE`: no truncation.
unfoldable pub open_file : Option Content → Content
open_file none = []
open_file (some c) = c

-- Writing from the start of an open file.
unfoldable pub write_over : Content → Content → Content
write_over old new = new ++ drop (length new) old

-- The answer to the request of a segment: none of the retries went through, or a status and a body.
pub data Response : Type 0 where
  unreachable : Response
  answered : (status : ℕ) (body : Content) → Response

-- Which of the calls on files succeed, and how many bytes of the body `io.Copy` writes if it fails.
pub record Disk : Type 0 where
  pub opens : Bool
  pub copies : Bool
  pub copied : ℕ
  pub syncs : Bool
  pub closes : Bool
  pub renames : Bool
  pub removes : Bool

-- What `downloadSegment` does: its two results, whether it counted a network error, what it reported
-- to `SegmentStatus.Downloaded`, and the files.
pub record Result : Type 0 where
  pub is_ok : Bool
  pub cached : Bool
  pub network_error : Bool
  pub reported : Option SegmentResult
  pub files : Files

abbrev pub failed : Files → Result
failed f = record {
  is_ok = false;
  cached = false;
  network_error = false;
  reported = none;
  files = f;
}

-- `os.Remove` of the `.incomplete` file, which has this content; its error is ignored.
unfoldable pub remove : Disk → Content → Files → Files
remove d content f = record f { incomplete = if d.removes then none else some content }

-- From `io.Copy` on, with the file open.
unfoldable pub save : Bool → String → Disk → Content → Files → Result
unfolding write_over open_file remove
save fsync done_path d body f =
    let content = write_over (open_file f.incomplete) body in
    if d.copies
    then if fsync && (if d.syncs then false else true)
      then failed (remove d content f)
      else if d.closes
      then if d.renames
        then record {
          is_ok = true;
          cached = false;
          network_error = false;
          reported = some (record { filename = done_path; is_ok = true });
          files = record { done = some content; incomplete = none };
        }
        else failed (remove d content f)
      else failed (remove d content f)
    else failed (remove d (write_over (open_file f.incomplete) (take d.copied body)) f)

unfoldable pub download_segment : Bool → String → Response → Disk → Files → Result
unfolding file_not_empty save
download_segment fsync done_path r d f =
    if file_not_empty f.done
    then record {
      is_ok = true;
      cached = true;
      network_error = false;
      reported = some (record { filename = done_path; is_ok = true });
      files = f;
    }
    else elim r [
      | unreachable ↦ record (failed f) { network_error = true }
      | answered status body ↦
          if status == 200
          then if d.opens then save fsync done_path d body f else failed f
          else failed f
    ]

drop_all : (c : Content) (n : ℕ) → length c ≤ n → drop n c ≡ []
drop_all [] zero h = refl
drop_all [] (suc n) h = refl
drop_all (x ∷ c) zero h = absurd (omega arith)
drop_all (x ∷ c) (suc n) h = drop_all c n (omega arith)

pub write_over_short : (old new : Content) → length old ≤ length new → write_over old new ≡ new
unfolding write_over
write_over_short old new h = rw (drop_all old (length new) h) (append-nil new)

pub write_over_long : (old new : Content) → write_over old new ≡ new → length old ≤ length new
unfolding write_over
write_over_long old new h =
    omega
      (arith, ap length h, length-append new (drop (length new) old), length-drop (length new) old)

abbrev pub leftover : Files → Content
leftover f = open_file f.incomplete

pub save_cases :
    (fsync : Bool) (done_path : String) (d : Disk) (body : Content) (f : Files)
    → let r = save fsync done_path d body f in
      ((r.is_ok ≡ false) × (r.reported ≡ none) × (r.files.done ≡ f.done))
      ⊎ ((r.is_ok ≡ true)
          × (r.cached ≡ false)
          × (r.reported ≡ some (record { filename = done_path; is_ok = true }))
          × (r.files.done ≡ some (write_over (leftover f) body)))
unfolding save remove
save_cases fsync done_path d body f = ground arith

-- `downloadSegment` reports a segment to `Downloaded` exactly if it returns `true`, then as ok and with
-- the name of the `.done` file; if it returns `false`, the `.done` file is what it was.
pub download_segment_report :
    (fsync : Bool) (done_path : String) (r : Response) (d : Disk) (f : Files)
    → let result = download_segment fsync done_path r d f in
      ((result.is_ok ≡ true)
        × (result.reported ≡ some (record { filename = done_path; is_ok = true })))
      ⊎ ((result.is_ok ≡ false) × (result.reported ≡ none) × (result.files.done ≡ f.done))
unfolding download_segment
download_segment_report fsync done_path unreachable d f = ground arith
download_segment_report fsync done_path (answered status body) d f =
    ground (arith, save_cases fsync done_path d body f)

-- When `downloadSegment` returns `true` for an answer with the body `body`, and no longer text was
-- left in the `.incomplete` file, then either the `.done` file had text and is what it was, or the
-- status was 200 and the `.done` file is the body.
pub download_segment_content :
    (fsync : Bool) (done_path : String) (status : ℕ) (body : Content) (d : Disk) (f : Files)
    → length (leftover f) ≤ length body
    → (download_segment fsync done_path (answered status body) d f).is_ok ≡ true
    → ((file_not_empty f.done ≡ true)
        × ((download_segment fsync done_path (answered status body) d f).files.done ≡ f.done))
      ⊎ ((status ≡ 200)
          × ((download_segment fsync done_path (answered status body) d f).files.done ≡ some body))
unfolding download_segment
download_segment_content fsync done_path status body d f short e =
    ground (arith, save_cases fsync done_path d body f, write_over_short (leftover f) body short)

-- A `.incomplete` file that is longer than the body, as a run that was killed may leave it, keeps its
-- tail: whenever `downloadSegment` then fetches the segment and returns `true`, the `.done` file is
-- not the body.
pub stale_tail :
    (fsync : Bool) (done_path : String) (status : ℕ) (body : Content) (d : Disk) (f : Files)
    → length body < length (leftover f)
    → file_not_empty f.done ≡ false
    → (download_segment fsync done_path (answered status body) d f).is_ok ≡ true
    → (download_segment fsync done_path (answered status body) d f).files.done ≢ some body
unfolding download_segment write_over
stale_tail fsync done_path status body d f longer empty e same = absurd (
    omega (
      arith,
      longer,
      write_over_long (leftover f) body
          (ground (arith, same, e, empty, save_cases fsync done_path d body f)),
    ))
