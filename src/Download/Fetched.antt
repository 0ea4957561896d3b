-- ===== src/Download/Fetched.antt =====
-- download/download.go: what `downloadSegment` does to the two files of a segment that has no `.incomplete` file.
use ytarchive_raw_go.Prelude.{
  ℕ, ◌≡◌, sym, ◌∙◌, ap, ◌≢◌, Bool, true, [], Option, none, some, arith, inl, inr, length,
}
use mathlib.Core.Logic.{◌⊎◌}
use Prim.Native.String.{String}
use ytarchive_raw_go.Download.SegmentFile.{
  Content, Files, Response, unreachable, answered, Disk, file_not_empty, open_file, remove, save,
  download_segment, write_over_short, leftover, save_cases, download_segment_report,
}

full : (c : Option Content) → file_not_empty c ≡ true → c ≢ none
unfolding file_not_empty
full none e = cc
full (some c) e = λ h. cc

save_leftover :
    (fsync : Bool) (done_path : String) (d : Disk) (body : Content) (f : Files)
    → d.removes ≡ true
    → (save fsync done_path d body f).files.incomplete ≡ none
unfolding save remove
save_leftover fsync done_path d body f gone = ground (arith, gone)

answered_done :
    (fsync : Bool) (done_path : String) (status : ℕ) (body : Content) (d : Disk) (f : Files)
    → f.incomplete ≡ none
    → let result = download_segment fsync done_path (answered status body) d f in
      (result.files.done ≡ f.done) ⊎ ((status ≡ 200) × (result.files.done ≡ some body))
unfolding download_segment open_file
answered_done fsync done_path status body d f e =
    let nothing_left : leftover f ≡ [] = ap open_file e in
    ground (
      arith,
      save_cases fsync done_path d body f,
      write_over_short (leftover f) body (omega (arith, ap length nothing_left)),
    )

none_left :
    (fsync : Bool) (done_path : String) (r : Response) (d : Disk) (f : Files)
    → d.removes ≡ true
    → f.incomplete ≡ none
    → (download_segment fsync done_path r d f).files.incomplete ≡ none
unfolding download_segment
none_left fsync done_path unreachable d f gone e = ground (arith, e)
none_left fsync done_path (answered status body) d f gone e =
    ground (arith, e, save_leftover fsync done_path d body f gone)

pub saves :
    (fsync : Bool) (done_path : String) (r : Response) (d : Disk) (f : Files)
    → (download_segment fsync done_path r d f).is_ok ≡ true
    → (download_segment fsync done_path r d f).files.done ≢ none
unfolding download_segment
saves fsync done_path unreachable d f ok = ground (arith, ok, full f.done)
saves fsync done_path (answered status body) d f ok =
    ground (arith, ok, full f.done, save_cases fsync done_path d body f)

-- With no `.incomplete` file left over, and if its removal does not fail, there is none afterwards, and the `.done` file is what it was,
-- or the body of an answer with the status 200. It is there when the call returns `true`.
pub fetched :
    (fsync : Bool) (done_path : String) (r : Response) (d : Disk) (f : Files)
    → d.removes ≡ true
    → f.incomplete ≡ none
    → let result = download_segment fsync done_path r d f in
      (result.files.incomplete ≡ none)
      × ((result.files.done ≡ f.done)
          ⊎ ((body : Content) × (r ≡ answered 200 body) × (result.files.done ≡ some body)))
      × (result.is_ok ≡ true → result.files.done ≢ none)
unfolding download_segment
fetched fsync done_path unreachable d f gone e = (
  none_left fsync done_path unreachable d f gone e,
  inl (ground arith),
  saves fsync done_path unreachable d f,
)
fetched fsync done_path (answered status body) d f gone e = (
  none_left fsync done_path (answered status body) d f gone e,
  (elim (answered_done fsync done_path status body d f e) [
    | inl kept ↦ inl kept
    | inr (s, done) ↦ inr (body, ap (λ n. answered n body) s, done)
  ]),
  saves fsync done_path (answered status body) d f,
)

-- A call does not remove a `.done` file.
pub stays :
    (fsync : Bool) (done_path : String) (r : Response) (d : Disk) (f : Files)
    → f.done ≢ none
    → (download_segment fsync done_path r d f).files.done ≢ none
stays fsync done_path r d f there = elim (download_segment_report fsync done_path r d f) [
  | inl (ok, _) ↦ saves fsync done_path r d f ok
  | inr (_, _, kept) ↦ λ e. there (sym kept ∙ e)
]
