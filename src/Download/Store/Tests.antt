-- ===== src/Download/Store/Tests.antt =====
-- A segment directory with one segment, and names with numbers as strokes.
use ytarchive_raw_go.Prelude.{
  ℕ, zero, suc, ◌≡◌, refl, sym, ap, ◌≢◌, inl, ℤ, pos, negsuc, true, false, List, [], ◌∷◌, none,
  some, arith, length,
}
use mathlib.Core.List.{tail-eq_of_cons-eq}
use Prim.Native.String.{String}
use ytarchive_raw_go.Prelude.Text.{Bytes, codes, occurrences, same}
use ytarchive_raw_go.Download.Names.{segment_base_file_name, done_name, incomplete_name}
use ytarchive_raw_go.Download.SegmentFile.{
  Content, Disk, answered, download_segment, file_not_empty, save, write_over, open_file,
}
use ytarchive_raw_go.Download.Store.{
  Directory, Fetch, Fresh, Saved, Answered, Saved-Answered, files_of, put_files, result_of, fetch,
  fetch_all,
}

-- A notation for numbers: strokes.
abbrev strokes : ℕ → Bytes
strokes zero = []
strokes (suc n) = b'1' ∷ strokes n

abbrev pub tally : ℤ → Bytes
tally (pos n) = strokes n
tally (negsuc n) = b'-' ∷ strokes n

strokes_only : (b n : ℕ) → b ≢ b'1' → occurrences b (strokes n) ≡ 0
strokes_only b zero other = refl
strokes_only b (suc n) other = ground (arith, other, strokes_only b n other)

pub tally-dotless : (n : ℤ) → occurrences b'.' (tally n) ≡ 0
tally-dotless (pos n) = strokes_only b'.' n (omega arith)
tally-dotless (negsuc n) = omega (arith, strokes_only b'.' n (omega arith))

length-strokes : (n : ℕ) → length (strokes n) ≡ n
length-strokes zero = refl
length-strokes (suc n) = omega (arith, length-strokes n)

strokes-injective : (m n : ℕ) → strokes m ≡ strokes n → m ≡ n
strokes-injective m n e = omega (arith, ap length e, length-strokes m, length-strokes n)

not_a_stroke : (m n : ℕ) → strokes m ≢ b'-' ∷ strokes n
not_a_stroke m n e = omega (arith, strokes_only b'-' m (omega arith), ap (occurrences b'-') e)

pub tally-injective : (m n : ℤ) → tally m ≡ tally n → m ≡ n
tally-injective (pos m) (pos n) e = ap pos (strokes-injective m n e)
tally-injective (pos m) (negsuc n) e = absurd (not_a_stroke m n e)
tally-injective (negsuc m) (pos n) e = absurd (not_a_stroke n m (sym e))
tally-injective (negsuc m) (negsuc n) e = ap negsuc (strokes-injective m n (tail-eq_of_cons-eq e))

abbrev pub all_well : Disk
all_well = record {
  opens = true;
  copies = true;
  copied = 0;
  syncs = true;
  closes = true;
  renames = true;
  removes = true;
}

abbrev pub one_fetch : List Fetch
one_fetch =
    record { itag = pos 2; segment = pos 0; response = answered 200 (codes "xy"); disk = all_well }
    ∷ []

abbrev pub any_path : ℤ → ℤ → String
any_path i s = "segment"

abbrev pub no_files : Directory
no_files name = none

pub no_files-Fresh : Fresh tally (codes "id") no_files
unfolding files_of
no_files-Fresh i s = refl

pub one_fetch-Saved : Saved tally (codes "id") false any_path (pos 2) (pos 0) no_files one_fetch
unfolding result_of files_of download_segment file_not_empty save
one_fetch-Saved = inl (refl, refl, refl)

pub one_fetch-done :
    (files_of tally
      (codes "id")
      (fetch_all tally (codes "id") false any_path no_files one_fetch)
      (pos 2)
      (pos 0)).done
    ≡ some (codes "xy")
unfolding result_of files_of download_segment file_not_empty save fetch_all fetch put_files
    done_name incomplete_name segment_base_file_name same write_over open_file
one_fetch-done = refl

saved_example :
    (body : Content) × ((files_of tally
        (codes "id")
        (fetch_all tally (codes "id") false any_path no_files one_fetch)
        (pos 2)
        (pos 0)).done
      ≡ some body)
    × Answered (pos 2) (pos 0) body one_fetch
saved_example =
    Saved-Answered tally (codes "id") false any_path tally-dotless tally-injective no_files
      no_files-Fresh one_fetch (refl, tt) (pos 2) (pos 0) one_fetch-Saved
