-- ===== src/Log/Redraw.antt =====
-- The status block is redrawn over itself, names of levels are read back, and file names are cut at
-- the last slash.
use ytarchive_raw_go.Prelude.{
  ℕ, ◌≡◌, refl, ◌∙◌, ap, ◌↔◌, ◌⊎◌, Bool, true, false, List, [], ◌∷◌, ◌++◌, some, arith, ◌==◌, ltb,
  if◌then◌else◌, length, Bool-cases, Option-cases, inl, inr,
}
use ytarchive_raw_go.Prelude.Text.{
  Bytes, codes, same, eq_of_same, to_lower, occurrences, occurrences-append,
}
use ytarchive_raw_go.Log.Format.{
  Level, debug, info, warn, error, fatal, level_name, all_levels, parse_level_in, parse_level,
  erase_rest_of_line, short_file_from, short_file, ProgressStatus, ProgressCategory, audio_download,
  video_download, merge, progress_order, progress_name, ProgressState, status_message, status_title,
  status_lines, title_text, do_write,
}

-- No text of the status holds a newline.
pub record OneLine (p : ProgressState) : Type 0 where
  pub window : occurrences 10 p.window_name ≡ 0
  pub title :
      (c : ProgressCategory) (s : ProgressStatus) → p.status c ≡ some s → occurrences 10 s.title ≡ 0
  pub message :
      (c : ProgressCategory) (s : ProgressStatus)
      → p.status c ≡ some s
      → occurrences 10 s.message ≡ 0

message_line :
    (p : ProgressState) (c : ProgressCategory)
    → OneLine p
    → occurrences 10 (status_message (p.status c)) ≡ 0
unfolding status_message
message_line p c o = elim (Option-cases (p.status c)) [
  | inl e ↦ rw (e, status_message)
  | inr (s, e) ↦ rw (e, status_message) (o.message c s e)
]

title_line :
    (p : ProgressState) (c : ProgressCategory)
    → OneLine p
    → occurrences 10 (status_title (p.status c)) ≡ 0
unfolding status_title
title_line p c o = elim (Option-cases (p.status c)) [
  | inl e ↦ rw (e, status_title)
  | inr (s, e) ↦ rw (e, status_title) (o.title c s e)
]

name_line : (c : ProgressCategory) → occurrences 10 (progress_name c) ≡ 0
name_line audio_download = refl
name_line video_download = refl
name_line merge = refl

status_lines_count :
    (p : ProgressState) (cs : List ProgressCategory)
    → OneLine p
    → occurrences 10 (status_lines p cs) ≡ length cs
unfolding status_lines
status_lines_count p [] o = refl
status_lines_count p (c ∷ cs) o =
    let m = status_message (p.status c) in
    let rest = status_lines p cs in
    omega (
      arith,
      occurrences-append 10 (progress_name c)
          (codes ": " ++ (m ++ (erase_rest_of_line ++ (10 ∷ rest)))),
      name_line c,
      occurrences-append 10 m (erase_rest_of_line ++ (10 ∷ rest)),
      message_line p c o,
      status_lines_count p cs o,
    )

title_text_count :
    (p : ProgressState) (cs : List ProgressCategory)
    → OneLine p
    → occurrences 10 (title_text p cs) ≡ 0
unfolding title_text
title_text_count p [] o = refl
title_text_count p (c ∷ []) o = title_line p c o
title_text_count p (c ∷ d ∷ cs) o = omega (
  arith,
  occurrences-append 10 (status_title (p.status c)) (b'/' ∷ title_text p (d ∷ cs)),
  title_line p c o,
  title_text_count p (d ∷ cs) o,
)

-- The log line of a write, as it goes to the terminal.
abbrev pub log_line : Bytes → Bytes
log_line line = if ltb 0 (length line) then line ++ (erase_rest_of_line ++ (10 ∷ [])) else []

-- The text under the log, and the window title.
abbrev pub block : ProgressState → Bytes
block p =
    status_lines p progress_order
    ++ ((27 ∷ codes "]0;")
        ++ (title_text p progress_order
            ++ ((if ltb 0 (length p.window_name) then 32 ∷ p.window_name else []) ++ (7 ∷ []))))

block_count : (p : ProgressState) → OneLine p → occurrences 10 (block p) ≡ length progress_order
block_count p o =
    let w : Bytes = if ltb 0 (length p.window_name) then 32 ∷ p.window_name else [] in
    let tail : Bytes = title_text p progress_order ++ (w ++ (7 ∷ [])) in
    omega (
      arith,
      occurrences-append 10 (status_lines p progress_order) ((27 ∷ codes "]0;") ++ tail),
      status_lines_count p progress_order o,
      occurrences-append 10 (title_text p progress_order) (w ++ (7 ∷ [])),
      title_text_count p progress_order o,
      occurrences-append 10 w (7 ∷ []),
      window_line (ltb 0 (length p.window_name)),
    )
  where
    window_line : (b : Bool) → occurrences 10 (if b then 32 ∷ p.window_name else []) ≡ 0
    window_line true = omega (arith, o.window)
    window_line false = refl

-- What `doWrite` writes, whatever the texts of the status.
pub do_write_written :
    (line : Bytes) (p : ProgressState)
    → do_write line p
      ≡ some (
        (if p.wrote_status then 27 ∷ codes "[3A" else []) ++ (log_line line ++ block p),
        record p { wrote_status = true },
      )
unfolding do_write
do_write_written line p = elim (Bool-cases p.wrote_status) [
  | inl again ↦ simp (again, do_write)
  | inr first ↦ simp (first, do_write)
]

-- `doWrite` never fails. If a status was written before, it first moves the cursor up by three lines;
-- then it writes the line, if there is one, and the status, which takes three lines as long as no text
-- in it has a newline. So the status is always drawn over the last one.
pub do_write_lem :
    (line : Bytes) (p : ProgressState)
    → OneLine p
    → (do_write line p
        ≡ some (
          (if p.wrote_status then 27 ∷ codes "[3A" else []) ++ (log_line line ++ block p),
          record p { wrote_status = true },
        ))
      × (occurrences 10 (block p) ≡ length progress_order)
do_write_lem line p o = (do_write_written line p, block_count p o)

parse_level_sound :
    (ls : List Level) (name : Bytes) (l : Level)
    → parse_level_in ls name ≡ some l
    → name ≡ level_name l
unfolding parse_level_in
parse_level_sound [] name l e = cc
parse_level_sound (x ∷ ls) name l e = elim (Bool-cases (same name (level_name x))) [
  | inl hit ↦ eq_of_same name (level_name x) hit ∙ ap level_name (ground (arith, e, hit))
  | inr miss ↦ parse_level_sound ls name l (ground (arith, e, miss))
]

parse_level_complete : (l : Level) → parse_level_in all_levels (level_name l) ≡ some l
unfolding parse_level_in
parse_level_complete debug = refl
parse_level_complete info = refl
parse_level_complete warn = refl
parse_level_complete error = refl
parse_level_complete fatal = refl

-- `ParseLevel` gives a level exactly for the texts that are its name up to case.
pub parse_level_iff :
    (name : Bytes) (l : Level) → (parse_level name ≡ some l) ↔ (to_lower name ≡ level_name l)
unfolding parse_level
parse_level_iff name l =
    (λ e. parse_level_sound all_levels (to_lower name) l e, λ e. rw e (parse_level_complete l))

short_file_from_lem :
    (found cs : Bytes)
    → ((occurrences b'/' cs ≡ 0) × (short_file_from found cs ≡ found))
      ⊎ ((occurrences b'/' (short_file_from found cs) ≡ 0)
          × ((before : Bytes) × (cs ≡ before ++ (b'/' ∷ short_file_from found cs))))
unfolding short_file_from
short_file_from_lem found [] = inl (refl, refl)
short_file_from_lem found (c ∷ cs) = elim (Bool-cases (c == b'/')) [
  | inl slash ↦ elim (short_file_from_lem cs cs) [
    | inl (no_more, e) ↦
        rw (slash, short_file_from) (inr (rw e no_more, ([], ground (arith, e, slash))))
    | inr (none_left, (before, e)) ↦
        rw (slash, short_file_from) (inr (none_left, (c ∷ before, ap (◌∷◌ c) e)))
  ]
  | inr other ↦ elim (short_file_from_lem found cs) [
    | inl (no_more, e) ↦ rw (other, short_file_from) (inl (omega (arith, no_more), e))
    | inr (none_left, (before, e)) ↦
        rw (other, short_file_from) (inr (none_left, (c ∷ before, ap (◌∷◌ c) e)))
  ]
]

-- The file name in a header is what follows the last slash after the first byte; without such a slash
-- it is the whole name.
pub short_file_lem :
    (c : ℕ) (cs : Bytes)
    → ((occurrences b'/' cs ≡ 0) × (short_file (c ∷ cs) ≡ c ∷ cs))
      ⊎ ((occurrences b'/' (short_file (c ∷ cs)) ≡ 0)
          × ((before : Bytes) × (cs ≡ before ++ (b'/' ∷ short_file (c ∷ cs)))))
unfolding short_file
short_file_lem c cs = short_file_from_lem (c ∷ cs) cs
