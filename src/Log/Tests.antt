-- ===== src/Log/Tests.antt =====
-- Numbers, levels and the status at concrete inputs.
use ytarchive_raw_go.Prelude.{
  ℕ, ◌≡◌, refl, ◌-ℤ◌, pos, negsuc, true, List, [], ◌∷◌, ◌++◌, none, some, arith, inr,
}
use ytarchive_raw_go.Prelude.Text.{Bytes, codes, occurrences}
use ytarchive_raw_go.Log.Itoa.{itoa, Writes, itoa_lem}
use ytarchive_raw_go.Log.Format.{
  debug, warn, parse_level, format_header, format_time, ProgressState,
}
use ytarchive_raw_go.Log.Logger.{Logger, Time, IsStamp, line_with, line_of, output, output_lem}
use ytarchive_raw_go.Log.Redraw.{block, log_line}

day_of_month : itoa (codes "2022/") 7 (pos 2) ≡ some (codes "2022/07")
unfolding itoa ◌-ℤ◌
day_of_month = refl

line_number : itoa [] 313 (negsuc 0) ≡ some (codes "313")
unfolding itoa ◌-ℤ◌
line_number = refl

itoa_example : (text : List ℕ) × (itoa [] 42 (pos 4) ≡ some ([] ++ text)) × Writes 42 (pos 4) 4 text
itoa_example = itoa_lem [] 4 42 (pos 4) (omega arith) (omega arith) (omega arith) (omega arith)

a_time : format_time 2022 3 14 1 59 26 535_897_932 [] ≡ some (codes "2022/03/14 01:59:26.535897 ")
unfolding format_time ◌-ℤ◌
a_time = refl

file_and_line : format_header [] (codes "/src/log/log.go") 7 [] ≡ some (codes "log.go:7: ")
unfolding format_header ◌-ℤ◌
file_and_line = refl

upper_case : parse_level (codes "WARN") ≡ some warn
unfolding parse_level
upper_case = refl

abbrev not_started : ProgressState
not_started = record { status = λ c. none; window_name = codes "x"; wrote_status = true }

abbrev tagged : Logger
tagged = record { min_level = debug; tag = codes "muxer" }

abbrev pi_day : Time
pi_day = record {
  year = 2022;
  month = 3;
  day = 14;
  hour = 1;
  min = 59;
  sec = 26;
  nanosecond = 535_897_932;
}

a_line :
    line_of warn pi_day (codes "muxer") none (codes "hi\n")
    ≡ some (
        (27 ∷ codes "[93m")
        ++ (codes "2022/03/14 01:59:26.535897 warn:  muxer: hi" ++ (27 ∷ codes "[0m")))
unfolding line_of ◌-ℤ◌
a_line = refl

output_example :
    (stamp : Bytes) × IsStamp pi_day stamp
    × (occurrences 10 (line_with warn stamp (codes "muxer") (codes "hi")) ≡ 0)
    × (output tagged warn pi_day none (codes "hi\n") not_started
        ≡ some (
          (27 ∷ codes "[3A")
              ++ (log_line (line_with warn stamp (codes "muxer") (codes "hi"))
                  ++ block not_started),
          not_started,
        ))
output_example =
    output_lem tagged warn pi_day none (codes "hi") (codes "hi\n") not_started
      (omega arith, omega arith, omega arith, omega arith, omega arith, omega arith, omega arith)
      (λ e. cc) refl refl (inr refl)
