-- ===== src/Merge/Ffmpeg.antt =====
-- merge/ffmpeg.go: the arguments of FFmpeg and the filter of what it prints. FFmpeg is outside.
pub mod Output
pub mod Thumbnail
pub mod Mux
mod Tests
use ytarchive_raw_go.Prelude.{
  ℕ, ◌+◌, ◌≡◌, refl, ◌∙◌, ap, sym, ◌↔◌, ◌⊎◌, inl, inr, Bool, true, false, not, ◌&&◌, ◌||◌, List, [],
  ◌∷◌, ◌++◌, Option, none, some, arith, ◌==◌, ltb, if◌then◌else◌, length,
}
use ytarchive_raw_go.Prelude.Text.{Bytes, codes, same, contains}

-- `ReadString('\n')` until it fails: the lines with their newlines, and what follows the last newline.
unfoldable pub read_lines : Bytes → List Bytes
read_lines [] = [] ∷ []
read_lines (c ∷ text) =
    let rest = read_lines text in
    if c == 10 then (c ∷ []) ∷ rest else (elim rest [ [] ↦ (c ∷ []) ∷ [] | l ∷ ls ↦ (c ∷ l) ∷ ls ])

-- `strings.TrimSuffix(line, "\r")`
unfoldable pub trim_return : Bytes → Bytes
trim_return [] = []
trim_return (c ∷ []) = if c == 13 then [] else c ∷ []
trim_return (c ∷ d ∷ line) = let rest = trim_return (d ∷ line) in c ∷ rest

abbrev pub ignored_warnings : List Bytes
ignored_warnings =
    codes "    Last message repeated "
    ∷ codes "Found duplicated MOOV Atom. Skipped it"
    ∷ codes "Found unknown-length element with ID 0x18538067 at pos."
    ∷ codes "Thread message queue blocking;"
    ∷ []

abbrev pub wanted_levels : List Bytes
wanted_levels = codes "[panic]" ∷ codes "[fatal]" ∷ codes "[error]" ∷ codes "[warning]" ∷ []

-- The two loops of `ignoreWarning`: is one of the texts in the line?
unfoldable pub contains_one : Bytes → List Bytes → Bool
contains_one line [] = false
contains_one line (v ∷ vs) = if contains line v then true else contains_one line vs

unfoldable pub ignore_warning : Bytes → Bool
unfolding contains_one
ignore_warning line =
    if not (contains_one line wanted_levels) then true else contains_one line ignored_warnings

-- The loop of `printOutput` over the lines.
unfoldable pub collect : List Bytes → List Bytes
unfolding trim_return ignore_warning
collect [] = []
collect (l ∷ ls) =
    let line = trim_return l in
    if ltb 0 (length line) && not (ignore_warning line) then line ∷ collect ls else collect ls

-- What `printOutput` logs: nothing, or a heading and the warnings.
pub data Printed : Type 0 where
  nothing : Printed
  succeeded_with : (warnings : List Bytes) → Printed
  failed_with : (warnings : List Bytes) → Printed

unfoldable pub print_output : Bytes → Bool → Printed
unfolding collect read_lines
print_output stderr success =
    let warnings = collect (read_lines stderr) in
    if success
    then (if length warnings == 0 then nothing else succeeded_with warnings)
    else failed_with warnings

-- The metadata that `muxFfmpeg` reads, with the start date as `Format("20060201")` writes it.
pub record Metadata : Type 0 where
  pub date : Bytes
  pub title : Bytes
  pub description : Bytes
  pub channel_name : Bytes
  pub id : Bytes

unfoldable pub input : Bytes → List Bytes
input file = if ltb 0 (length file) then codes "-i" ∷ file ∷ [] else []

unfoldable pub metadata : Bytes → Bytes → List Bytes
metadata key value = codes "-metadata" ∷ (key ++ value) ∷ []

-- The arguments that `muxFfmpeg` gives to `ffmpeg` once the thumbnail is written; `none`: an error,
-- no input.
unfoldable pub mux_arguments : Bytes → Metadata → Bytes → Bytes → Option (List Bytes)
unfolding input metadata
mux_arguments base m audio video =
    if not (ltb 0 (length audio)) && not (ltb 0 (length video))
    then none
    else some (
        (codes "-loglevel" ∷ codes "level+40" ∷ codes "-y" ∷ [])
        ++ (input audio
            ++ (input video
                ++ ((codes "-c" ∷ codes "copy" ∷ [])
                    ++ (metadata (codes "date=") m.date
                        ++ (metadata (codes "title=") m.title
                            ++ (metadata (codes "comment=") m.description
                                ++ (metadata (codes "author=") m.channel_name
                                    ++ (metadata (codes "artist=") m.channel_name
                                        ++ (metadata (codes "episode_id=") m.id
                                            ++ (codes "-attach"
                                                ∷ (base ++ codes ".jpg")
                                                ∷ codes "-metadata:s:t"
                                                ∷ codes "mimetype=image/jpeg"
                                                ∷ codes "-metadata:s:t"
                                                ∷ codes "filename=thumbnail.jpg"
                                                ∷ (base ++ codes ".mkv")
                                                ∷ [])))))))))))

-- `ffmpeg`: the argument vector, after the name of the program.
unfoldable pub ffmpeg : List Bytes → List Bytes
ffmpeg args = codes "-v" ∷ codes "warning" ∷ args
