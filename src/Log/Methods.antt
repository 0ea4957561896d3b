-- ===== src/Log/Methods.antt =====
-- log/log.go: the methods of `Logger` for one level each, the functions of the package, which use
-- `DefaultLogger`, `SetDefaultLevel` and `SetWindowName`. The two ways to put a text together, `log` and
-- `logf`, are fmt's: the text is an argument.
use ytarchive_raw_go.Prelude.{
  ◌>>=◌, ℕ, ◌≡◌, refl, sym, subst, ap, ◌⊎◌, inl, inr, Bool-cases, Option-cases, ◌↔◌, ◌≢◌, ◌≤◌, ◌<◌,
  Bool, true, [], Option, some, none, arith, leb, if◌then◌else◌,
}
use ytarchive_raw_go.Prelude.Text.{Bytes}
use ytarchive_raw_go.Log.Format.{Level, debug, info, warn, error, fatal, rank, logs, ProgressState}
use ytarchive_raw_go.Log.Logger.{Logger, Time, new_logger, output}

-- What a call of a logger meets: the time, the caller that is looked up, and the text.
pub record Message : Type 0 where
  pub now : Time
  pub caller : Option (Bytes × ℕ)
  pub text : Bytes

-- What it comes to: what was written, if anything, the status, and whether the program ends.
pub record Logged : Type 0 where
  pub written : Option Bytes
  pub screen : ProgressState
  pub exits : Bool

-- `Logger.log` and `Logger.logf`
unfoldable pub log : Logger → Level → Message → ProgressState → Option Logged
unfolding output logs
log l level m p =
    if (logs l.min_level level).0
    then (do
      w ← output l level m.now m.caller m.text p
      some (record { written = some w.0; screen = w.1; exits = (logs l.min_level level).1 }))
    else some (record { written = none; screen = p; exits = (logs l.min_level level).1 })

unfoldable pub log_debug : Logger → Message → ProgressState → Option Logged
unfolding log
log_debug l = log l debug

unfoldable pub log_info : Logger → Message → ProgressState → Option Logged
unfolding log
log_info l = log l info

unfoldable pub log_warn : Logger → Message → ProgressState → Option Logged
unfolding log
log_warn l = log l warn

unfoldable pub log_error : Logger → Message → ProgressState → Option Logged
unfolding log
log_error l = log l error

unfoldable pub log_fatal : Logger → Message → ProgressState → Option Logged
unfolding log
log_fatal l = log l fatal

-- `DefaultLogger`, which has no tag; its level is that of `SetDefaultLevel`, the lowest before.
abbrev pub default_logger : Level → Logger
default_logger level = record { min_level = level; tag = [] }

abbrev pub first_default : Logger
first_default = default_logger debug

unfoldable pub set_default_level : Level → Logger → Logger
set_default_level level l = record l { min_level = level }

unfoldable pub set_window_name : Bytes → ProgressState → ProgressState
set_window_name name p = record p { window_name = name }

-- The functions of the package; `d` is `DefaultLogger`.
unfoldable pub default_debug : (d : Logger) → Message → ProgressState → Option Logged
unfolding log_debug
default_debug d = log_debug d

unfoldable pub default_info : (d : Logger) → Message → ProgressState → Option Logged
unfolding log_info
default_info d = log_info d

unfoldable pub default_warn : (d : Logger) → Message → ProgressState → Option Logged
unfolding log_warn
default_warn d = log_warn d

unfoldable pub default_error : (d : Logger) → Message → ProgressState → Option Logged
unfolding log_error
default_error d = log_error d

unfoldable pub default_fatal : (d : Logger) → Message → ProgressState → Option Logged
unfolding log_fatal
default_fatal d = log_fatal d

-- A call comes to a line, if the level is high enough, or changes nothing.
log_cases :
    (l : Logger) (level : Level) (m : Message) (p : ProgressState) (result : Logged)
    → log l level m p ≡ some result
    → (rank level < rank l.min_level
        × (result ≡ record { written = none; screen = p; exits = leb 4 (rank level) }))
      ⊎ ((text : Bytes) × (q : ProgressState) × (rank l.min_level ≤ rank level)
          × (result ≡ record { written = some text; screen = q; exits = leb 4 (rank level) }))
unfolding log logs
log_cases l level m p result e = elim (Bool-cases (leb (rank l.min_level) (rank level))) [
  | inl shown ↦ elim (Option-cases (output l level m.now m.caller m.text p)) [
    | inl nothing ↦ absurd (cc (rw (shown, nothing, log) at e))
    | inr (w, made) ↦ inr (w.0, w.1, ground (arith, shown), cc (rw (shown, made, log) at e))
  ]
  | inr hidden ↦ inl (ground (arith, hidden), cc (rw (hidden, log) at e))
]

fatal_exits : (level : Level) → leb 4 (rank level) ≡ true ↔ level ≡ fatal
fatal_exits debug = (λ e. absurd (cc e), λ e. absurd (cc e))
fatal_exits info = (λ e. absurd (cc e), λ e. absurd (cc e))
fatal_exits warn = (λ e. absurd (cc e), λ e. absurd (cc e))
fatal_exits error = (λ e. absurd (cc e), λ e. absurd (cc e))
fatal_exits fatal = (λ e. refl, λ e. refl)

at_most_fatal : (level : Level) → rank level ≤ rank fatal
at_most_fatal debug = omega arith
at_most_fatal info = omega arith
at_most_fatal warn = omega arith
at_most_fatal error = omega arith
at_most_fatal fatal = omega arith

-- What is said of a call with the lowest level `least`.
abbrev pub Says : Level → Level → ProgressState → Logged → Type 0
Says least level p result =
    (result.written ≢ none ↔ rank least ≤ rank level)
    × (rank level < rank least → result.screen ≡ p)
    × (result.exits ≡ true ↔ level ≡ fatal)
    × (level ≡ fatal → result.written ≢ none)

-- A logger that is made after `SetDefaultLevel` writes a message exactly if its level is not below
-- that one, and one below changes nothing on the terminal. The program ends exactly after a message
-- of the level fatal, which is always written.
pub log_by_level :
    (level default_level : Level) (d : Logger) (tag : Bytes) (m : Message) (p : ProgressState)
    (result : Logged)
    → log (new_logger (set_default_level default_level d).min_level tag) level m p ≡ some result
    → Says default_level level p result
unfolding new_logger set_default_level
log_by_level level least d tag m p result e =
    let l = new_logger (set_default_level least d).min_level tag in
    elim (log_cases l level m p result e) [
      | inl (below, same) ↦ subst (Says least level p) (sym same) (
        (λ w. absurd (w refl), λ h. absurd (omega (arith, h, below))),
        λ h. refl,
        fatal_exits level,
        λ f. absurd (omega (arith, below, at_most_fatal least, ap rank f)),
      )
      | inr (text, q, above, same) ↦ subst (Says least level p) (sym same) (
        (λ w. above, λ h w. cc w),
        λ h. absurd (omega (arith, h, above)),
        fatal_exits level,
        λ f w. cc w,
      )
    ]
