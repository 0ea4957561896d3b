-- ===== src/Log/Format.antt =====
-- log/log.go and log/fmt.go: levels, the header of a line, and the status block that is redrawn under
-- the log.
use ytarchive_raw_go.Prelude.{
  ◌>>=◌, ℕ, ◌/◌, pos, negsuc, Bool, true, List, [], ◌∷◌, ◌++◌, Option, none, some, ◌==◌, leb, ltb,
  if◌then◌else◌, length,
}
use ytarchive_raw_go.Prelude.Text.{Bytes, codes, same, to_lower, to_lower_byte}
use ytarchive_raw_go.Log.Itoa.{itoa}

pub data Level : Type 0 where
  debug info warn error fatal : Level

-- `int(level)`
abbrev pub rank : Level → ℕ
rank debug = 0
rank info = 1
rank warn = 2
rank error = 3
rank fatal = 4

-- `levels[level].name`
abbrev pub level_name : Level → Bytes
level_name debug = codes "debug"
level_name info = codes "info"
level_name warn = codes "warn"
level_name error = codes "error"
level_name fatal = codes "fatal"

-- `levels[level].color`; 27 is the escape character.
abbrev pub level_color : Level → Bytes
level_color debug = 27 ∷ codes "[36m"
level_color info = 27 ∷ codes "[32m"
level_color warn = 27 ∷ codes "[93m"
level_color error = 27 ∷ codes "[91m"
level_color fatal = 27 ∷ codes "[91m"

abbrev pub end_color : Bytes
end_color = 27 ∷ codes "[0m"

abbrev pub erase_rest_of_line : Bytes
erase_rest_of_line = 27 ∷ codes "[K"

-- The names differ, so the order in which the map is gone through does not matter.
unfoldable pub parse_level_in : List Level → Bytes → Option Level
unfolding same
parse_level_in [] name = none
parse_level_in (l ∷ ls) name = if same name (level_name l) then some l else parse_level_in ls name

abbrev pub all_levels : List Level
all_levels = debug ∷ info ∷ warn ∷ error ∷ fatal ∷ []

unfoldable pub parse_level : Bytes → Option Level
unfolding parse_level_in to_lower_byte
parse_level name = parse_level_in all_levels (to_lower name)

-- `Logger.log` and `logf`: whether the line is written, and whether the program then exits.
unfoldable pub logs : Level → Level → Bool × Bool
logs min_level level = (leb (rank min_level) (rank level), leb 4 (rank level))

-- `formatTime`, on the parts of the time.
unfoldable pub format_time : (year month day hour min sec nanosecond : ℕ) → Bytes → Option Bytes
unfolding itoa
format_time year month day hour min sec nanosecond buf = do
  buf ← itoa buf year (pos 4)
  buf ← itoa (buf ++ codes "/") month (pos 2)
  buf ← itoa (buf ++ codes "/") day (pos 2)
  buf ← itoa (buf ++ codes " ") hour (pos 2)
  buf ← itoa (buf ++ codes ":") min (pos 2)
  buf ← itoa (buf ++ codes ":") sec (pos 2)
  buf ← itoa (buf ++ codes ".") (nanosecond / 1000) (pos 6)
  some (buf ++ codes " ")

-- The text after the last slash, but for a slash at the front of the name: the loop of `formatHeader`
-- stops at index 1. `found` is what the loop would give for the bytes gone through.
unfoldable pub short_file_from : Bytes → Bytes → Bytes
short_file_from found [] = found
short_file_from found (c ∷ cs) = short_file_from (if c == b'/' then cs else found) cs

unfoldable pub short_file : Bytes → Bytes
unfolding short_file_from
short_file [] = []
short_file (c ∷ cs) = short_file_from (c ∷ cs) cs

unfoldable pub format_header : Bytes → Bytes → ℕ → Bytes → Option Bytes
unfolding short_file itoa
format_header [] file line buf = do
  buf ← itoa (buf ++ short_file file ++ codes ":") line (negsuc 0)
  some (buf ++ codes ": ")
format_header (t ∷ tag) file line buf = some (buf ++ (t ∷ tag) ++ codes ": ")

unfoldable pub move_cursor_up : ℕ → Bytes → Option Bytes
unfolding itoa
move_cursor_up lines buf = do
  buf ← itoa (buf ++ (27 ∷ codes "[")) lines (negsuc 0)
  some (buf ++ codes "A")

-- `s[:len(s)-1]` if the last byte is a newline.
unfoldable pub trim_newline : Bytes → Bytes
trim_newline [] = []
trim_newline (c ∷ []) = if c == 10 then [] else c ∷ []
trim_newline (c ∷ d ∷ cs) = c ∷ trim_newline (d ∷ cs)

-- `progressStatus`
pub record ProgressStatus : Type 0 where
  pub title : Bytes
  pub message : Bytes

pub data ProgressCategory : Type 0 where
  audio_download video_download merge : ProgressCategory

abbrev pub progress_order : List ProgressCategory
progress_order = audio_download ∷ video_download ∷ merge ∷ []

abbrev pub progress_name : ProgressCategory → Bytes
progress_name audio_download = codes "audio"
progress_name video_download = codes "video"
progress_name merge = codes "merge"

-- The global `progress`, less its buffers and its lock.
pub record ProgressState : Type 0 where
  pub status : ProgressCategory → Option ProgressStatus
  pub window_name : Bytes
  pub wrote_status : Bool

unfoldable pub status_message : Option ProgressStatus → Bytes
status_message none = codes "???"
status_message (some s) = s.message

unfoldable pub status_title : Option ProgressStatus → Bytes
status_title none = codes "???"
status_title (some s) = s.title

unfoldable pub status_lines : ProgressState → List ProgressCategory → Bytes
unfolding status_message
status_lines p [] = []
status_lines p (c ∷ cs) =
    progress_name c
    ++ (codes ": "
        ++ (status_message (p.status c) ++ (erase_rest_of_line ++ (10 ∷ status_lines p cs))))

unfoldable pub title_text : ProgressState → List ProgressCategory → Bytes
unfolding status_title
title_text p [] = []
title_text p (c ∷ []) = status_title (p.status c)
title_text p (c ∷ d ∷ cs) = status_title (p.status c) ++ (b'/' ∷ title_text p (d ∷ cs))

-- `doWrite`: what goes to the terminal, and the new state. 7 is the bell, which ends the title.
unfoldable pub do_write : Bytes → ProgressState → Option (Bytes × ProgressState)
unfolding move_cursor_up status_lines title_text
do_write line p = do
  up ← if p.wrote_status then move_cursor_up (length progress_order) [] else some []
  some (
    up
        ++ ((if ltb 0 (length line) then line ++ (erase_rest_of_line ++ (10 ∷ [])) else [])
            ++ (status_lines p progress_order
                ++ ((27 ∷ codes "]0;")
                    ++ (title_text p progress_order
                        ++ ((if ltb 0 (length p.window_name) then 32 ∷ p.window_name else [])
                            ++ (7 ∷ [])))))),
    record p { wrote_status = true },
  )
