-- ===== src/Prelude/Numbers.antt =====
-- What the program takes from math, time and fmt: arithmetic on float64, seconds of a duration, and
-- the texts of numbers. Durations are nanoseconds.
use Prim.Native.Nat.{ℕ}
use ytarchive_raw_go.Prelude.Int.{ℤ}
use ytarchive_raw_go.Prelude.Text.{Bytes, occurrences}
use mathlib.Core.Path.{◌≡◌}

pub record Numbers (F : Type 0) : Type 0 where
  pub of_int : ℤ → F
  pub div : F → F → F
  pub mul : F → F → F
  pub sub : F → F → F
  pub pow : F → F → F
  pub floor : F → F
  pub round : F → F
  pub abs : F → F
  pub log10 : F → F
  -- The conversion to int64.
  pub to_int : F → ℤ
  -- `Duration.Seconds`
  pub seconds : ℤ → F
  -- `%.1f`, `%.2f`
  pub show_float : ℕ → F → Bytes
  -- `%d`
  pub show : ℤ → Bytes
  -- `%02d`
  pub show_two : ℤ → Bytes
  -- `%v` of a duration, rounded to seconds.
  pub show_duration : ℤ → Bytes

-- No text of a number has a newline.
pub record Plain {F : Type 0} (f : Numbers F) : Type 0 where
  pub float_line : (k : ℕ) (x : F) → occurrences 10 (f.show_float k x) ≡ 0
  pub int_line : (n : ℤ) → occurrences 10 (f.show n) ≡ 0
  pub two_line : (n : ℤ) → occurrences 10 (f.show_two n) ≡ 0
  pub duration_line : (n : ℤ) → occurrences 10 (f.show_duration n) ≡ 0
