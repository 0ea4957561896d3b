-- ===== src/Download/Progress/Tests.antt =====
-- The texts of a download at concrete counters. The float64 are fractions here, a duration is rounded
-- to seconds, and the text of a number is empty but for `%d` and `%02d`.
use ytarchive_raw_go.Prelude.{
  ℕ, zero, suc, ◌+◌, ◌-◌, ◌*◌, ◌/◌, ◌<◌, ◌≡◌, refl, pos, pos_part, ◌+ℤ◌, ◌-ℤ◌, [], ◌∷◌, ◌++◌, some,
  arith, if◌then◌else◌, ltb,
}
use ytarchive_raw_go.Prelude.Text.{Bytes, codes, occurrences}
use ytarchive_raw_go.Prelude.Numbers.{Numbers, Plain}
use ytarchive_raw_go.Download.Progress.{Progress, new_progress}
use ytarchive_raw_go.Download.Progress.Duration.{
  second, units, significant_figures, format_duration, format_duration_lem,
}
use ytarchive_raw_go.Download.Progress.Words.{eta_of, fmt, part_way, color_yellow, late_is_yellow}

abbrev strokes : ℕ → Bytes
strokes zero = []
strokes (suc n) = b'1' ∷ strokes n

strokes-line : (n : ℕ) → occurrences 10 (strokes n) ≡ 0
strokes-line zero = refl
strokes-line (suc n) = omega (arith, strokes-line n)

abbrev pub fractions : Numbers (ℕ × ℕ)
fractions = record {
  of_int = λ n. (pos_part n, 1);
  div = λ (a, b) (c, d). (a * d, b * c);
  mul = λ (a, b) (c, d). (a * c, b * d);
  sub = λ (a, b) (c, d). (a * d - c * b, b * d);
  pow = λ x y. (1, 1);
  floor = λ (a, b). (a / b, 1);
  round = λ (a, b). ((a + b / 2) / b, 1);
  abs = λ x. x;
  log10 = λ x. (0, 1);
  to_int = λ (a, b). pos (a / b);
  seconds = λ d. (pos_part d, second);
  show_float = λ k x. [];
  show = λ n. strokes (pos_part n);
  show_two = λ n. strokes (pos_part n);
  show_duration = λ d. [];
}

pub fractions-Plain : Plain fractions
fractions-Plain = record {
  float_line = λ k x. refl;
  int_line = λ n. strokes-line (pos_part n);
  two_line = λ n. strokes-line (pos_part n);
  duration_line = λ n. refl;
}

-- An hour, a minute and two seconds.
format_duration_example :
    (h : ℕ) × (m : ℕ) × (s : ℕ) × (h * 3600 + m * 60 + s ≡ 3662)
    × (m < 60)
    × (s < 60)
    × (format_duration fractions (pos (3662 * second))
        ≡ (if ltb 0 h then fractions.show (pos h) ++ codes "h" else [])
          ++ (fractions.show_two (pos m)
              ++ (codes "m" ++ (fractions.show_two (pos s) ++ codes "s"))))
unfolding significant_figures
format_duration_example = format_duration_lem fractions (pos (3662 * second)) 3662 refl

-- Half of the segments took 100 seconds; the URL expires 50 seconds from now.
abbrev half_way : Progress
half_way = record new_progress { downloaded = 101; total = pos 202; expire = some (150 * second) }

half_way_is_yellow :
    fmt fractions half_way (100 * second)
    ≡ part_way fractions half_way color_yellow
        (codes ", eta " ++ format_duration fractions (eta_of fractions half_way (100 * second)))
unfolding eta_of units ◌-ℤ◌ ◌+ℤ◌ new_progress
half_way_is_yellow =
    late_is_yellow fractions half_way (100 * second) (150 * second) refl refl refl (omega arith)
      (omega arith) (omega arith)
