-- ===== src/Log/Logger.antt =====
-- log/log.go: `Logger`, less its buffer and its lock. The time and the caller are arguments, and the text
-- of a message is what fmt makes of it.
use ytarchive_raw_go.Prelude.{
  ◌>>=◌, ℕ, ◌-◌, ◌/◌, ◌^◌, ◌≤◌, ◌<◌, ◌≡◌, ◌≢◌, refl, ℤ, pos, pos_part, Bool, true, false, List, [],
  ◌∷◌, ◌++◌, ◌∙◌, ap, ◌⊎◌, inl, inr, Option, none, some, if◌then◌else◌, length, replicate, arith,
}
use mathlib.Core.List.{append_assoc}
use ytarchive_raw_go.Prelude.Text.{Bytes, codes, occurrences, occurrences-append}
use ytarchive_raw_go.Log.Itoa.{itoa, AllDigits, Writes, itoa_lem}
use ytarchive_raw_go.Log.Format.{
  Level, debug, info, warn, error, fatal, level_name, level_color, end_color, format_time,
  format_header, trim_newline, ProgressCategory, audio_download, video_download, merge,
  ProgressStatus, ProgressState, do_write,
}
use ytarchive_raw_go.Log.Redraw.{block, log_line, do_write_written}

pub record Logger : Type 0 where
  pub min_level : Level
  pub tag : Bytes

-- The parts of a time that `formatTime` writes.
pub record Time : Type 0 where
  pub year : ℕ
  pub month : ℕ
  pub day : ℕ
  pub hour : ℕ
  pub min : ℕ
  pub sec : ℕ
  pub nanosecond : ℕ

-- `New`, by the level of `DefaultLogger`.
unfoldable pub new_logger : Level → Bytes → Logger
new_logger default_level tag = record { min_level = default_level; tag = tag }

unfoldable pub sub_logger : Level → Logger → Bytes → Logger
unfolding new_logger
sub_logger default_level l tag = new_logger default_level (l.tag ++ (b'.' ∷ tag))

-- The file and the line that `output` looks up; `none`: `runtime.Caller` fails.
unfoldable pub caller_of : Option (Bytes × ℕ) → Bytes × ℕ
caller_of none = (codes "???", 0)
caller_of (some c) = c

-- The spaces after the name of a level.
abbrev pub padding : Level → Bytes
padding level = replicate (5 - length (level_name level)) 32

-- What `output` gives to `doWrite`.
unfoldable pub line_of : Level → Time → Bytes → Option (Bytes × ℕ) → Bytes → Option Bytes
unfolding format_time caller_of format_header trim_newline
line_of level now tag caller s = do
  buf ←
      format_time now.year now.month now.day now.hour now.min now.sec now.nanosecond
        (level_color level)
  buf ←
      format_header tag (caller_of caller).0 (caller_of caller).1
        (buf ++ (level_name level ++ (codes ": " ++ padding level)))
  some (buf ++ (trim_newline s ++ end_color))

-- `output`: what goes to the terminal.
unfoldable pub output :
    Logger
    → Level
    → Time
    → Option (Bytes × ℕ)
    → Bytes
    → ProgressState
    → Option (Bytes × ProgressState)
unfolding line_of do_write
output l level now caller s p = do line ← line_of level now l.tag caller s; do_write line p

-- Equality of the keys of `progress.status`.
unfoldable pub same_category : ProgressCategory → ProgressCategory → Bool
same_category audio_download audio_download = true
same_category video_download video_download = true
same_category merge merge = true
same_category _ _ = false

-- `Progress`
unfoldable pub show_progress :
    ProgressCategory → ProgressStatus → ProgressState → Option (Bytes × ProgressState)
unfolding do_write same_category
show_progress category status p =
    do_write []
      (record p { status = λ c. if same_category c category then some status else p.status c })

digits_line : (text : List ℕ) → AllDigits text → occurrences 10 text ≡ 0
digits_line [] v = refl
digits_line (c ∷ cs) (lo, hi, v) = ground (arith, lo, hi, digits_line cs v)

-- Each part of a time fits into the buffer of `itoa`.
abbrev pub Fits : Time → Type 0
Fits t =
    (t.year < 10 ^ 20)
    × (t.month < 10 ^ 20)
    × (t.day < 10 ^ 20)
    × (t.hour < 10 ^ 20)
    × (t.min < 10 ^ 20)
    × (t.sec < 10 ^ 20)
    × (t.nanosecond < 10 ^ 20)

-- The text of a time: its parts in decimal digits, the year with at least four, the microseconds with
-- at least six and the others with at least two.
pub record IsStamp (t : Time) (stamp : Bytes) : Type 0 where
  pub year : Bytes
  pub month : Bytes
  pub day : Bytes
  pub hour : Bytes
  pub min : Bytes
  pub sec : Bytes
  pub micro : Bytes
  pub year_lem : Writes t.year (pos 4) 20 year
  pub month_lem : Writes t.month (pos 2) 20 month
  pub day_lem : Writes t.day (pos 2) 20 day
  pub hour_lem : Writes t.hour (pos 2) 20 hour
  pub min_lem : Writes t.min (pos 2) 20 min
  pub sec_lem : Writes t.sec (pos 2) 20 sec
  pub micro_lem : Writes (t.nanosecond / 1000) (pos 6) 20 micro
  pub parts :
      stamp
      ≡ year
        ++ (b'/'
            ∷ (month
                ++ (b'/'
                    ∷ (day
                        ++ (b' '
                            ∷ (hour
                                ++ (b':'
                                    ∷ (min
                                        ++ (b':' ∷ (sec ++ (b'.' ∷ (micro ++ (b' ' ∷ [])))))))))))))

itoa_at :
    (buf : Bytes) (i : ℕ) (wid : ℤ)
    → i < 10 ^ 20
    → pos_part wid ≤ 20
    → (text : Bytes) × (itoa buf i wid ≡ some (buf ++ text)) × Writes i wid 20 text
itoa_at buf i wid small fits = itoa_lem buf 20 i wid (omega arith) (omega arith) small fits

time_line :
    (t : Time) (buf : Bytes)
    → Fits t
    → (stamp : Bytes) × (format_time t.year t.month t.day t.hour t.min t.sec t.nanosecond buf
        ≡ some (buf ++ stamp))
      × IsStamp t stamp
unfolding format_time
time_line t buf (y, mo, d, h, mi, s, ns) =
    let (t1, e1, w1) = itoa_at buf t.year (pos 4) y (omega arith) in
    let b1 = buf ++ t1 in
    let (t2, e2, w2) = itoa_at (b1 ++ codes "/") t.month (pos 2) mo (omega arith) in
    let b2 = b1 ++ codes "/" ++ t2 in
    let (t3, e3, w3) = itoa_at (b2 ++ codes "/") t.day (pos 2) d (omega arith) in
    let b3 = b2 ++ codes "/" ++ t3 in
    let (t4, e4, w4) = itoa_at (b3 ++ codes " ") t.hour (pos 2) h (omega arith) in
    let b4 = b3 ++ codes " " ++ t4 in
    let (t5, e5, w5) = itoa_at (b4 ++ codes ":") t.min (pos 2) mi (omega arith) in
    let b5 = b4 ++ codes ":" ++ t5 in
    let (t6, e6, w6) = itoa_at (b5 ++ codes ":") t.sec (pos 2) s (omega arith) in
    let b6 = b5 ++ codes ":" ++ t6 in
    let (t7, e7, w7) =
      itoa_at (b6 ++ codes ".") (t.nanosecond / 1000) (pos 6) (omega (arith, ns)) (omega arith) in
    (
      _,
      rw (e1, e2, e3, e4, e5, e6, e7, format_time) (ap some (simp append_assoc)),
      record {
        year = t1;
        month = t2;
        day = t3;
        hour = t4;
        min = t5;
        sec = t6;
        micro = t7;
        year_lem = w1;
        month_lem = w2;
        day_lem = w3;
        hour_lem = w4;
        min_lem = w5;
        sec_lem = w6;
        micro_lem = w7;
        parts = refl;
      },
    )

Writes-line : {i n : ℕ} {wid : ℤ} (text : Bytes) → Writes i wid n text → occurrences 10 text ≡ 0
Writes-line text w = digits_line text w.digits

stamp_line : {t : Time} (stamp : Bytes) → IsStamp t stamp → occurrences 10 stamp ≡ 0
stamp_line stamp v = rw v.parts (
    simp (
      occurrences-append,
      Writes-line v.year v.year_lem,
      Writes-line v.month v.month_lem,
      Writes-line v.day v.day_lem,
      Writes-line v.hour v.hour_lem,
      Writes-line v.min v.min_lem,
      Writes-line v.sec v.sec_lem,
      Writes-line v.micro v.micro_lem,
    ))

-- The line of a message, with the text of the time.
abbrev pub line_with : Level → (stamp tag message : Bytes) → Bytes
line_with level stamp tag message =
    level_color level
    ++ (stamp
        ++ (level_name level
            ++ (codes ": " ++ (padding level ++ (tag ++ (codes ": " ++ (message ++ end_color)))))))

line_with-line :
    (level : Level) (stamp tag message : Bytes)
    → occurrences 10 stamp ≡ 0
    → occurrences 10 tag ≡ 0
    → occurrences 10 message ≡ 0
    → occurrences 10 (line_with level stamp tag message) ≡ 0
line_with-line debug stamp tag message p q r = simp (occurrences-append, p, q, r)
line_with-line info stamp tag message p q r = simp (occurrences-append, p, q, r)
line_with-line warn stamp tag message p q r = simp (occurrences-append, p, q, r)
line_with-line error stamp tag message p q r = simp (occurrences-append, p, q, r)
line_with-line fatal stamp tag message p q r = simp (occurrences-append, p, q, r)

line_of_lem :
    (level : Level) (now : Time) (tag : Bytes) (caller : Option (Bytes × ℕ)) (s : Bytes)
    → Fits now
    → tag ≢ []
    → (stamp : Bytes) × IsStamp now stamp
      × (line_of level now tag caller s ≡ some (line_with level stamp tag (trim_newline s)))
unfolding line_of format_header
line_of_lem level now [] caller s h tagged = absurd (tagged refl)
line_of_lem level now (c ∷ tag) caller s h tagged =
    let (stamp, timed, v) = time_line now (level_color level) h in
    (stamp, v, rw (timed, line_of, format_header) (ap some (simp append_assoc)))

trim_ended : (m : Bytes) → trim_newline (m ++ (10 ∷ [])) ≡ m
unfolding trim_newline
trim_ended [] = refl
trim_ended (c ∷ []) = refl
trim_ended (c ∷ d ∷ m) = ap (◌∷◌ c) (trim_ended (d ∷ m))

trim_plain : (m : Bytes) → occurrences 10 m ≡ 0 → trim_newline m ≡ m
unfolding trim_newline
trim_plain [] h = refl
trim_plain (c ∷ []) h = ground (arith, h)
trim_plain (c ∷ d ∷ m) h = ap (◌∷◌ c) (trim_plain (d ∷ m) (ground (arith, h)))

-- A message without a newline, but for one that may end it, of a logger with a tag without a newline,
-- at a time whose parts are below 10^20: `output` never fails. The cursor first moves up over the
-- status, if one was written; then come a line and the status. The line is the colour and, without a
-- newline, the time in digits, the name of the level with a colon and its padding, the tag with a
-- colon, the message, and the end of the colour.
pub output_lem :
    (l : Logger) (level : Level) (now : Time) (caller : Option (Bytes × ℕ)) (message s : Bytes)
    (p : ProgressState)
    → Fits now
    → l.tag ≢ []
    → occurrences 10 l.tag ≡ 0
    → occurrences 10 message ≡ 0
    → (s ≡ message) ⊎ (s ≡ message ++ (10 ∷ []))
    → (stamp : Bytes) × IsStamp now stamp
      × (occurrences 10 (line_with level stamp l.tag message) ≡ 0)
      × (output l level now caller s p
          ≡ some (
            (if p.wrote_status then 27 ∷ codes "[3A" else [])
                ++ (log_line (line_with level stamp l.tag message) ++ block p),
            record p { wrote_status = true },
          ))
unfolding output
output_lem l level now caller message s p h tagged one_tag one_message ends =
    let (stamp, v, made) = line_of_lem level now l.tag caller s h tagged in
    let trimmed : trim_newline s ≡ message = elim ends [
      | inl e ↦ ap trim_newline e ∙ trim_plain message one_message
      | inr e ↦ ap trim_newline e ∙ trim_ended message
    ] in
    (
      stamp,
      v,
      line_with-line level stamp l.tag message (stamp_line stamp v) one_tag one_message,
      rw (made, trimmed, output) (do_write_written _ p),
    )
