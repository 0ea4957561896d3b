-- ===== src/Download/Progress/Duration.antt =====
-- download/progress_bar.go: `formatDuration` and `significantFigures`. A duration stays below 2^63.
use ytarchive_raw_go.Prelude.{
  ℕ, suc, ◌+◌, ◌*◌, ◌/◌, ◌%◌, ◌<◌, ◌≡◌, refl, ap, ◌∙◌, ℤ, pos, negsuc, ◌-ℤ◌, ltb_ℤ, ltb, [], ◌++◌,
  arith, if◌then◌else◌,
}
use mathlib.Core.List.{append_assoc}
use ytarchive_raw_go.Prelude.Int.{sub_ℕ}
use ytarchive_raw_go.Prelude.Text.{Bytes, codes}
use ytarchive_raw_go.Prelude.Numbers.{Numbers}

-- `time.Second`, `time.Minute` and `time.Hour`
abbrev pub second : ℕ
second = 1000000000

abbrev pub minute : ℕ
minute = 60 * second

abbrev pub hour : ℕ
hour = 60 * minute

-- A product with a unit, and Go's quotient, which is rounded towards 0.
unfoldable pub units : ℕ → ℤ → ℤ
units k (pos n) = pos (n * k)
units k (negsuc n) = sub_ℕ 0 (suc n * k)

unfoldable pub quotient : ℤ → ℕ → ℤ
quotient (pos n) k = pos (n / k)
quotient (negsuc n) k = sub_ℕ 0 (suc n / k)

unfoldable pub significant_figures : {F : Type 0} → Numbers F → F → ℤ → F
significant_figures f v n =
    let exp =
      f.pow (f.of_int (pos 10)) (f.sub (f.floor (f.log10 (f.abs v))) (f.of_int (n -ℤ pos 1))) in
    f.mul exp (f.round (f.div v exp))

-- The hours, minutes and seconds of a duration.
unfoldable pub clock : ℤ → ℤ × ℤ × ℤ
unfolding quotient units
clock d =
    let h = quotient d hour in
    let past_hours = d -ℤ units hour h in
    let m = quotient past_hours minute in
    let past_minutes = past_hours -ℤ units minute m in (h, m, quotient past_minutes second)

unfoldable pub format_clock : {F : Type 0} → Numbers F → ℤ × ℤ × ℤ → Bytes
format_clock f (h, m, s) =
    let short = f.show_two m ++ (codes "m" ++ (f.show_two s ++ codes "s")) in
    if ltb_ℤ (pos 0) h then f.show h ++ (codes "h" ++ short) else short

unfoldable pub format_duration : {F : Type 0} → Numbers F → ℤ → Bytes
unfolding significant_figures units format_clock
format_duration f d =
    format_clock f (clock (units second (f.to_int (significant_figures f (f.seconds d) (pos 3)))))

take_away : (a b c : ℕ) → a ≡ b + c → pos a -ℤ pos b ≡ pos c
unfolding ◌-ℤ◌
take_away a b c h = ground (arith, h)

clock_lem : (n : ℕ) → clock (pos (n * second)) ≡ (pos (n / 3600), pos (n % 3600 / 60), pos (n % 60))
unfolding clock quotient units
clock_lem n =
    let hours : n * second / hour ≡ n / 3600 = omega arith in
    let past_hours = take_away (n * second) (n / 3600 * hour) (n % 3600 * second) (omega arith) in
    let minutes : n % 3600 * second / minute ≡ n % 3600 / 60 = omega arith in
    let past_minutes =
      take_away (n % 3600 * second) (n % 3600 / 60 * minute) (n % 60 * second) (omega arith) in
    let seconds : n % 60 * second / second ≡ n % 60 = omega arith in
    rw (hours, past_hours, clock, quotient, units)
      (rw (minutes, past_minutes, quotient, units) (rw seconds refl))

shown :
    {F : Type 0} (f : Numbers F) (h : ℕ) (m s : ℤ)
    → format_clock f (pos h, m, s)
      ≡ (if ltb 0 h then f.show (pos h) ++ codes "h" else [])
        ++ (f.show_two m ++ (codes "m" ++ (f.show_two s ++ codes "s")))
unfolding format_clock
shown f h m s = ground (
  arith,
  append_assoc (f.show (pos h)) (codes "h")
      (f.show_two m ++ (codes "m" ++ (f.show_two s ++ codes "s"))),
)

-- If the rounded duration is `n` seconds, `n` not negative, what `formatDuration` shows are hours,
-- minutes below 60 and seconds below 60 that add up to `n`; the hours are left out exactly if they
-- are 0.
pub format_duration_lem :
    {F : Type 0} (f : Numbers F) (d : ℤ) (n : ℕ)
    → f.to_int (significant_figures f (f.seconds d) (pos 3)) ≡ pos n
    → (h : ℕ) × (m : ℕ) × (s : ℕ) × (h * 3600 + m * 60 + s ≡ n)
      × (m < 60)
      × (s < 60)
      × (format_duration f d
          ≡ (if ltb 0 h then f.show (pos h) ++ codes "h" else [])
            ++ (f.show_two (pos m) ++ (codes "m" ++ (f.show_two (pos s) ++ codes "s"))))
unfolding format_duration
format_duration_lem f d n e = (
  n / 3600,
  n % 3600 / 60,
  n % 60,
  omega arith,
  omega arith,
  omega arith,
  ap (λ x. format_clock f (clock (units second x))) e
      ∙ (ap (format_clock f) (clock_lem n)
          ∙ shown f (n / 3600) (pos (n % 3600 / 60)) (pos (n % 60))),
)
