-- ===== src/Download/Progress/Words.antt =====
-- download/progress_bar.go: `pct`, `fmt` and `printProgress`, what the progress of a download shows.
use ytarchive_raw_go.Prelude.{
  ℕ, ◌+◌, ◌≡◌, refl, ℤ, pos, negsuc, ◌+ℤ◌, ◌-ℤ◌, ltb_ℤ, eqb_ℤ, ◌≤ℤ◌, ◌<ℤ◌, ◌<◌, ltb, ◌==◌, Bool,
  true, false, [], ◌∷◌, ◌++◌, none, some, arith, if◌then◌else◌, length, Bool-cases, inl, inr,
}
use ytarchive_raw_go.Prelude.Text.{Bytes, codes, occurrences, append-without}
use ytarchive_raw_go.Prelude.Numbers.{Numbers, Plain}
use ytarchive_raw_go.Log.Format.{ProgressStatus}
use ytarchive_raw_go.Download.Progress.{Progress, finished}
use ytarchive_raw_go.Download.Progress.Duration.{
  second, units, format_duration, format_clock, clock, significant_figures,
}

abbrev pub color_green : Bytes
color_green = 27 ∷ codes "[32m"

abbrev pub color_magenta : Bytes
color_magenta = 27 ∷ codes "[35m"

abbrev pub color_red : Bytes
color_red = 27 ∷ codes "[91m"

abbrev pub color_reset : Bytes
color_reset = 27 ∷ codes "[0m"

abbrev pub color_yellow : Bytes
color_yellow = 27 ∷ codes "[93m"

module _ {F : Type 0} (f : Numbers F) where
  unfoldable pub pct : Progress → F
  pct p = f.mul (f.div (f.of_int (pos (finished p))) (f.of_int p.total)) (f.of_int (pos 100))

  unfoldable pub lost_string : Progress → Bytes → Bytes
  lost_string p color =
      if p.failed == 0
      then []
      else codes ", " ++ (color_red ++ (codes "lost " ++ (f.show (pos p.failed) ++ color)))

  unfoldable pub requeued_string : Progress → Bytes → Bytes
  requeued_string p color =
      if length p.requeues == 0
      then []
      else codes ", "
        ++ (color_magenta ++ (codes "requeued " ++ (f.show (pos (length p.requeues)) ++ color)))

  -- `%d/%d` of the segments.
  unfoldable pub share : Progress → Bytes
  share p = f.show (pos (p.cached + p.downloaded)) ++ (codes "/" ++ f.show p.total)

  -- The time that is left, by the share of the segments that are not cached.
  unfoldable pub eta_of : Progress → ℕ → ℤ
  unfolding units
  eta_of p now =
      let elapsed = pos now -ℤ pos p.start in
      let eta_progress =
        f.div (f.of_int (pos (p.downloaded + p.failed))) (f.of_int (p.total -ℤ pos p.cached)) in
      let eta_seconds = f.mul (f.div (f.of_int (pos 1)) eta_progress) (f.seconds elapsed) in
      units second (f.to_int eta_seconds) -ℤ elapsed

  -- `p.expire != nil && p.start.Add(eta).After(*p.expire)`
  unfoldable pub expires_before : Progress → ℤ → Bool
  expires_before p eta = elim p.expire [
    | none ↦ false
    | some t ↦ ltb_ℤ (pos t) (pos p.start +ℤ eta)
  ]

  -- What a download in progress shows, with the text of the time that is left.
  unfoldable pub part_way : Progress → Bytes → Bytes → Bytes
  unfolding share requeued_string lost_string
  part_way p color eta =
      let progress = f.div (f.of_int (pos (finished p))) (f.of_int p.total) in
      color
      ++ (f.show_float 2 (f.mul progress (f.of_int (pos 100)))
          ++ (codes "% ("
              ++ (share p
                  ++ (requeued_string p color
                      ++ (lost_string p color ++ (eta ++ (codes ")" ++ color_reset)))))))

  -- What a download that has ended shows.
  unfoldable pub ended : Progress → Bytes → Bytes
  unfolding share lost_string
  ended p color =
      color
      ++ (codes "100% ("
          ++ (share p
              ++ (lost_string p color
                  ++ (codes " in "
                      ++ (f.show_duration (pos p.end -ℤ pos p.start)
                          ++ (codes ")" ++ color_reset))))))

  unfoldable pub fmt : Progress → ℕ → Bytes
  unfolding part_way ended eta_of expires_before
  fmt p now =
      if eqb_ℤ p.total (negsuc 0)
      then color_yellow ++ (codes "0% (0/???, not started yet)" ++ color_reset)
      else if eqb_ℤ (pos (finished p)) p.total
      then ended p (if ltb 0 p.failed then color_yellow else color_green)
      else if ltb 100 p.downloaded
      then part_way p (if expires_before p (eta_of p now) then color_red else color_yellow)
          (codes ", eta " ++ format_duration f (eta_of p now))
      else part_way p color_yellow (codes ", eta unknown")

  -- What `printProgress` gives to `log.Progress` for one of the two downloads.
  unfoldable pub status_of : Progress → ℕ → ProgressStatus
  unfolding pct fmt
  status_of p now = record { title = f.show_float 1 (pct p) ++ codes "%"; message = fmt p now }

  -- A download that has started and not ended, with more than 100 segments fetched, whose URL expires
  -- before it would end, counting the time that is left from now on: if that time, counted from the
  -- start of the download, does not go past the expiry, the text is yellow and not red.
  pub late_is_yellow :
      (p : Progress) (now expire : ℕ)
      → p.expire ≡ some expire
      → eqb_ℤ p.total (negsuc 0) ≡ false
      → eqb_ℤ (pos (finished p)) p.total ≡ false
      → 100 < p.downloaded
      → pos p.start +ℤ eta_of p now ≤ℤ pos expire
      → pos expire <ℤ pos now +ℤ eta_of p now
      → fmt p now ≡ part_way p color_yellow (codes ", eta " ++ format_duration f (eta_of p now))
  unfolding fmt expires_before
  late_is_yellow p now expire e known going many before late =
      rw (known, going, e) (ground (arith, many, before))

  module _ (plain : Plain f) where
    share-line : (p : Progress) → occurrences 10 (share p) ≡ 0
    unfolding share
    share-line p = search (append-without, plain.int_line)

    lost_string-line :
        (p : Progress) (color : Bytes)
        → occurrences 10 color ≡ 0
        → occurrences 10 (lost_string p color) ≡ 0
    unfolding lost_string
    lost_string-line p color h = elim (Bool-cases (p.failed == 0)) [
      | inl e ↦ rw e refl
      | inr e ↦ rw e (search (append-without, plain.int_line, h))
    ]

    one_of :
        (b : Bool) (x y : Bytes)
        → occurrences 10 x ≡ 0
        → occurrences 10 y ≡ 0
        → occurrences 10 (if b then x else y) ≡ 0
    one_of true x y hx hy = hx
    one_of false x y hx hy = hy

    format_clock-line : (c : ℤ × ℤ × ℤ) → occurrences 10 (format_clock f c) ≡ 0
    unfolding format_clock
    format_clock-line (h, m, s) =
        one_of (ltb_ℤ (pos 0) h) _ _
          (search (append-without, plain.int_line, plain.two_line) depth 12)
          (search (append-without, plain.two_line) depth 12)

    requeued_string-line :
        (p : Progress) (color : Bytes)
        → occurrences 10 color ≡ 0
        → occurrences 10 (requeued_string p color) ≡ 0
    unfolding requeued_string
    requeued_string-line p color h = elim (Bool-cases (length p.requeues == 0)) [
      | inl e ↦ rw e refl
      | inr e ↦ rw e (search (append-without, plain.int_line, h))
    ]

    format_duration-line : (d : ℤ) → occurrences 10 (format_duration f d) ≡ 0
    unfolding format_duration
    format_duration-line d =
        format_clock-line
          (clock (units second (f.to_int (significant_figures f (f.seconds d) (pos 3)))))

    part_way-line :
        (p : Progress) (color eta : Bytes)
        → occurrences 10 color ≡ 0
        → occurrences 10 eta ≡ 0
        → occurrences 10 (part_way p color eta) ≡ 0
    unfolding part_way
    part_way-line p color eta h e =
        search
          (
            append-without, plain.float_line, share-line, requeued_string-line, lost_string-line, h,
            e,
          )
          depth 20

    ended-line :
        (p : Progress) (color : Bytes)
        → occurrences 10 color ≡ 0
        → occurrences 10 (ended p color) ≡ 0
    unfolding ended
    ended-line p color h =
        search (append-without, plain.duration_line, share-line, lost_string-line, h) depth 20

    fmt-line : (p : Progress) (now : ℕ) → occurrences 10 (fmt p now) ≡ 0
    unfolding fmt
    fmt-line p now = elim (Bool-cases (eqb_ℤ p.total (negsuc 0))) [
      | inl e ↦ rw e refl
      | inr e ↦ rw e (elim (Bool-cases (eqb_ℤ (pos (finished p)) p.total)) [
        | inl all ↦
            rw all (ended-line p _ (one_of (ltb 0 p.failed) color_yellow color_green refl refl))
        | inr some_left ↦ rw some_left (elim (Bool-cases (ltb 100 p.downloaded)) [
          | inl many ↦ rw many (
              part_way-line p _ (codes ", eta " ++ format_duration f (eta_of p now))
                (one_of (expires_before p (eta_of p now)) color_red color_yellow refl refl)
                (append-without 10 (codes ", eta ") (format_duration f (eta_of p now)) refl
                  (format_duration-line (eta_of p now))))
          | inr few ↦ rw few (part_way-line p color_yellow (codes ", eta unknown") refl refl)
        ])
      ])
    ]

    -- Neither the title nor the message of a download has a newline.
    pub status_of-line :
        (p : Progress) (now : ℕ)
        → (occurrences 10 (status_of p now).title ≡ 0)
          × (occurrences 10 (status_of p now).message ≡ 0)
    unfolding status_of
    status_of-line p now =
        (append-without 10 _ (codes "%") (plain.float_line 1 (pct p)) refl, fmt-line p now)
