-- ===== src/Main/Shown.antt =====
-- download/progress_bar.go and merge/progress.go with log/log.go: what the counters of the two downloads and of
-- the mergers draw on the terminal. The calls of the workers and of the mergers come in any order; each
-- holds its lock until its status is written.
use ytarchive_raw_go.Prelude.{
  ◌>>=◌, ℕ, ◌≡◌, refl, ap, subst, ◌∙◌, Bool-cases, ◌⊎◌, inl, inr, pos, ltb_ℤ, Bool, true, List, [],
  ◌∷◌, ◌++◌, Option, some, none, arith, if◌then◌else◌,
}
use ytarchive_raw_go.Prelude.Text.{Bytes, codes, occurrences}
use ytarchive_raw_go.Prelude.Numbers.{Numbers, Plain}
use ytarchive_raw_go.Log.Format.{
  ProgressCategory, audio_download, video_download, merge, ProgressStatus, ProgressState,
}
use ytarchive_raw_go.Log.Redraw.{OneLine, block, do_write_lem}
use ytarchive_raw_go.Log.Logger.{show_progress, same_category}
use ytarchive_raw_go.Download.Progress.{Progress, Call}
use ytarchive_raw_go.Download.Progress.Words
use ytarchive_raw_go.Merge.Counters.{MergeProgress}
use ytarchive_raw_go.Merge.Words as MergeWords
use ytarchive_raw_go.Download.Progress as Downloads
use ytarchive_raw_go.Merge.Counters as Mergers

-- The counters that are shown, and the state of the terminal.
pub record Shown : Type 0 where
  pub audio : Progress
  pub video : Progress
  pub merger : MergeProgress
  pub screen : ProgressState

-- The calls that show something; `Downloads.init` and the calls of the workers take the time.
pub data Act : Type 0 where
  audio_started : (now total : ℕ) (expire : Option ℕ) → Act
  video_started : (now total : ℕ) (expire : Option ℕ) → Act
  audio_call : Call → Act
  video_call : Call → Act
  total_known : ℕ → Act
  one_merged : (is_audio : Bool) → Act
  merging_done : Act

module _ {F : Type 0} (f : Numbers F) where
  -- `TotalProgress.printProgress`: both downloads, one after the other.
  unfoldable pub print_progress : ℕ → Shown → Option (List Bytes × Shown)
  unfolding show_progress
  print_progress now s = do
    a ← show_progress audio_download (Words.status_of f s.audio now) s.screen
    v ← show_progress video_download (Words.status_of f s.video now) a.1
    some (a.0 ∷ v.0 ∷ [], record s { screen = v.1 })

  -- The end of `mergeProgress.updated`.
  unfoldable pub print_merge : Shown → Option (List Bytes × Shown)
  unfolding show_progress
  print_merge s = do
    m ← show_progress merge (MergeWords.status_of f s.merger) s.screen
    some (m.0 ∷ [], record s { screen = m.1 })

  unfoldable pub act : Act → Shown → Option (List Bytes × Shown)
  unfolding print_progress print_merge
  act (audio_started now total expire) s =
      print_progress now (record s { audio = Downloads.init now total expire s.audio })
  act (video_started now total expire) s =
      print_progress now (record s { video = Downloads.init now total expire s.video })
  act (audio_call c) s =
      print_progress (Downloads.call_time c) (record s { audio = Downloads.step s.audio c })
  act (video_call c) s =
      print_progress (Downloads.call_time c) (record s { video = Downloads.step s.video c })
  act (total_known n) s =
      if ltb_ℤ s.merger.total (pos 0)
      then print_merge (record s { merger = Mergers.init_total n s.merger })
      else some ([], s)
  act (one_merged is_audio) s = print_merge (record s {
    merger = if is_audio then Mergers.merged_audio s.merger else Mergers.merged_video s.merger;
  })
  act merging_done s = print_merge (record s { merger = Mergers.done s.merger })

  -- All that is written, in order.
  unfoldable pub act_all : List Act → Shown → Option (List Bytes × Shown)
  unfolding act
  act_all [] s = some ([], s)
  act_all (a ∷ acts) s = do
    first ← act a s
    rest ← act_all acts first.1
    some (first.0 ++ rest.0, rest.1)

  -- The lines show the counters as they are, or nothing was shown of them yet.
  pub record Current (s : Shown) : Type 0 where
    pub audio_line :
        (s.screen.status audio_download ≡ none)
        ⊎ ((now : ℕ) × (s.screen.status audio_download ≡ some (Words.status_of f s.audio now)))
    pub video_line :
        (s.screen.status video_download ≡ none)
        ⊎ ((now : ℕ) × (s.screen.status video_download ≡ some (Words.status_of f s.video now)))
    pub merge_line :
        (s.screen.status merge ≡ none)
        ⊎ (s.screen.status merge ≡ some (MergeWords.status_of f s.merger))
    pub screen_lines : OneLine s.screen

-- Each write takes three lines, and moves up by three before it does, but for the first.
abbrev pub Redrawn : Bool → List Bytes → Type 0
Redrawn wrote [] = Unit {0}
Redrawn wrote (w ∷ ws) =
    ((text : Bytes) × (w ≡ (if wrote then 27 ∷ codes "[3A" else []) ++ text)
      × (occurrences 10 text ≡ 3))
    × Redrawn true ws

abbrev pub wrote_after : Bool → List Bytes → Bool
wrote_after wrote [] = wrote
wrote_after wrote (w ∷ ws) = true

wrote_after-append :
    (wrote : Bool) (xs ys : List Bytes)
    → wrote_after (wrote_after wrote xs) ys ≡ wrote_after wrote (xs ++ ys)
wrote_after-append wrote [] ys = refl
wrote_after-append wrote (x ∷ xs) [] = refl
wrote_after-append wrote (x ∷ xs) (y ∷ ys) = refl

Redrawn-append :
    (wrote : Bool) (xs ys : List Bytes)
    → Redrawn wrote xs
    → Redrawn (wrote_after wrote xs) ys
    → Redrawn wrote (xs ++ ys)
Redrawn-append wrote [] ys h k = k
Redrawn-append wrote (x ∷ []) ys (h, _) k = (h, k)
Redrawn-append wrote (x ∷ y ∷ xs) ys (h, hs) k = (h, Redrawn-append true (y ∷ xs) ys hs k)

-- Up over the status, if one was written.
abbrev up : ProgressState → Bytes
up p = if p.wrote_status then 27 ∷ codes "[3A" else []

-- The state after one call of `Progress`, if `wrote` is how it leaves the flag.
abbrev shown_on : Bool → ProgressCategory → ProgressStatus → ProgressState → ProgressState
shown_on wrote c st p = record {
  status = λ d. if same_category d c then some st else p.status d;
  window_name = p.window_name;
  wrote_status = wrote;
}

shown_on-OneLine :
    (wrote : Bool) (c : ProgressCategory) (st : ProgressStatus) (p : ProgressState)
    → (occurrences 10 st.title ≡ 0) × (occurrences 10 st.message ≡ 0)
    → OneLine p
    → OneLine (shown_on wrote c st p)
shown_on-OneLine wrote c st p (t, m) o = record {
  window = o.window;
  title = λ d s e. ground (arith, e, t, o.title d s);
  message = λ d s e. ground (arith, e, m, o.message d s);
}

show_progress_lem :
    (c : ProgressCategory) (st : ProgressStatus) (p : ProgressState)
    → (occurrences 10 st.title ≡ 0) × (occurrences 10 st.message ≡ 0)
    → OneLine p
    → (text : Bytes) × (show_progress c st p
        ≡ some ((if p.wrote_status then 27 ∷ codes "[3A" else []) ++ text, shown_on true c st p))
      × (occurrences 10 text ≡ 3)
      × OneLine (shown_on true c st p)
unfolding show_progress
show_progress_lem c st p lines o =
    let q = shown_on p.wrote_status c st p in
    let (written, three) = do_write_lem [] q (shown_on-OneLine p.wrote_status c st p lines o) in
    (block q, written, three, shown_on-OneLine true c st p lines o)

module _ {F : Type 0} (f : Numbers F) (plain : Plain f) where
  -- What a call comes to, on a terminal with or without a status.
  abbrev pub Drawn : Bool → Option (List Bytes × Shown) → Type 0
  Drawn wrote r =
      (writes : List Bytes) × (s : Shown) × (r ≡ some (writes, s))
      × Current f s
      × Redrawn wrote writes
      × (s.screen.wrote_status ≡ wrote_after wrote writes)

  print_progress-Drawn :
      (now : ℕ) (s : Shown)
      → OneLine s.screen
      → (s.screen.status merge ≡ none)
        ⊎ (s.screen.status merge ≡ some (MergeWords.status_of f s.merger))
      → Drawn s.screen.wrote_status (print_progress f now s)
  unfolding print_progress same_category
  print_progress-Drawn now s o m =
      let (a, made_a, three_a, o_a) =
        show_progress_lem audio_download (Words.status_of f s.audio now) s.screen
          (Words.status_of-line f plain s.audio now) o in
      let after_a = shown_on true audio_download (Words.status_of f s.audio now) s.screen in
      let (v, made_v, three_v, o_v) =
        show_progress_lem video_download (Words.status_of f s.video now) after_a
          (Words.status_of-line f plain s.video now) o_a in
      let both : Bytes → Bytes × ProgressState → Option (List Bytes × Shown) =
        λ x v. some (x ∷ v.0 ∷ [], record s { screen = v.1 }) in
      let shows_video : Bytes × ProgressState → Option (List Bytes × Shown) =
        λ a. show_progress video_download (Words.status_of f s.video now) a.1 >>= both a.0 in
      let last = shown_on true video_download (Words.status_of f s.video now) after_a in
      (
        (up s.screen ++ a) ∷ ((27 ∷ codes "[3A") ++ v) ∷ [],
        record s { screen = last },
        ap (λ r. r >>= shows_video) made_a
            ∙ ap (λ (r : Option (Bytes × ProgressState)). r >>= both (up s.screen ++ a)) made_v,
        record {
          audio_line = inr (now, refl);
          video_line = inr (now, refl);
          merge_line = m;
          screen_lines = o_v;
        },
        ((a, refl, three_a), ((v, refl, three_v), tt)),
        refl,
      )

  print_merge-Drawn :
      (s : Shown)
      → OneLine s.screen
      → (s.screen.status audio_download ≡ none)
        ⊎ ((now : ℕ) × (s.screen.status audio_download ≡ some (Words.status_of f s.audio now)))
      → (s.screen.status video_download ≡ none)
        ⊎ ((now : ℕ) × (s.screen.status video_download ≡ some (Words.status_of f s.video now)))
      → Drawn s.screen.wrote_status (print_merge f s)
  unfolding print_merge same_category
  print_merge-Drawn s o a v =
      let (m, made, three, o_m) =
        show_progress_lem merge (MergeWords.status_of f s.merger) s.screen
          (MergeWords.status_of-line f plain s.merger) o in
      (
        (up s.screen ++ m) ∷ [],
        record s { screen = shown_on true merge (MergeWords.status_of f s.merger) s.screen },
        rw (made, print_merge) refl,
        record { audio_line = a; video_line = v; merge_line = inr refl; screen_lines = o_m },
        ((m, refl, three), tt),
        refl,
      )

  act-Drawn : (a : Act) (s : Shown) → Current f s → Drawn s.screen.wrote_status (act f a s)
  unfolding act
  act-Drawn (audio_started now total expire) s c =
      print_progress-Drawn now (record s { audio = Downloads.init now total expire s.audio })
        c.screen_lines c.merge_line
  act-Drawn (video_started now total expire) s c =
      print_progress-Drawn now (record s { video = Downloads.init now total expire s.video })
        c.screen_lines c.merge_line
  act-Drawn (audio_call k) s c =
      print_progress-Drawn (Downloads.call_time k) (record s { audio = Downloads.step s.audio k })
        c.screen_lines c.merge_line
  act-Drawn (video_call k) s c =
      print_progress-Drawn (Downloads.call_time k) (record s { video = Downloads.step s.video k })
        c.screen_lines c.merge_line
  act-Drawn (total_known n) s c = elim (Bool-cases (ltb_ℤ s.merger.total (pos 0))) [
    | inl first ↦ rw first (
        print_merge-Drawn (record s { merger = Mergers.init_total n s.merger }) c.screen_lines
          c.audio_line c.video_line)
    | inr known ↦ rw known ([], s, refl, c, tt, refl)
  ]
  act-Drawn (one_merged is_audio) s c =
      print_merge-Drawn
        (record s {
          merger =
              if is_audio then Mergers.merged_audio s.merger else Mergers.merged_video s.merger;
        })
        c.screen_lines c.audio_line c.video_line
  act-Drawn merging_done s c =
      print_merge-Drawn (record s { merger = Mergers.done s.merger }) c.screen_lines c.audio_line
        c.video_line

  -- Whatever the downloads and the mergers count, in any order: if no text of a number has a newline,
  -- nothing fails, each line of the status shows the counters as they are, or nothing was shown of
  -- them yet, and no text of the status has a newline. Each write takes three lines; each but the
  -- first of the program first moves the cursor up by three, so it is drawn over the last one.
  pub act_all-Drawn :
      (acts : List Act) (s : Shown) → Current f s → Drawn s.screen.wrote_status (act_all f acts s)
  unfolding act_all
  act_all-Drawn [] s c = ([], s, refl, c, tt, refl)
  act_all-Drawn (a ∷ acts) s c =
      let (xs, s1, e1, c1, d1, w1) = act-Drawn a s c in
      let (ys, s2, e2, c2, d2, w2) = act_all-Drawn acts s1 c1 in
      (
        xs ++ ys,
        s2,
        rw (e1, e2, act_all) refl,
        c2,
        Redrawn-append s.screen.wrote_status xs ys d1 (subst (λ w. Redrawn w ys) w1 d2),
        w2 ∙ (ap (λ w. wrote_after w ys) w1 ∙ wrote_after-append s.screen.wrote_status xs ys),
      )
