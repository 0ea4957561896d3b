-- ===== src/Download/Store.antt =====
-- download/download.go: the segment directory while the segments of a video are fetched. The file system
-- is a function from the names within the directory to contents. A call of `downloadSegment` is one
-- step: it touches the two files of its segment only, and no two workers hold one segment at a time.
pub mod Tests
use ytarchive_raw_go.Prelude.{
  ◌≡◌, refl, sym, ap, ◌∙◌, subst, ◌≢◌, ◌⊎◌, inl, inr, ℤ, eqb_ℤ, eq_of_eqb, Bool, true, false, List,
  [], ◌∷◌, Option, none, some, arith, if◌then◌else◌, Bool-cases,
}
use Prim.Native.String.{String}
use ytarchive_raw_go.Prelude.Text.{Bytes, occurrences, same, same_refl, not_same}
use ytarchive_raw_go.Download.Names.{done_name, incomplete_name, names_apart}
use ytarchive_raw_go.Download.SegmentFile.{
  Content, Files, Response, answered, unreachable, Disk, Result, download_segment,
}
use ytarchive_raw_go.Download.Fetched.{fetched, saves, stays}

abbrev pub Directory : Type 0
Directory = Bytes → Option Content

-- One call of `downloadSegment`, with what the network and the calls on files come to.
pub record Fetch : Type 0 where
  pub itag : ℤ
  pub segment : ℤ
  pub response : Response
  pub disk : Disk

-- The server answered a fetch of the segment with the status 200 and this body.
abbrev pub Answered : ℤ → ℤ → Content → List Fetch → Type 0
Answered i s body [] = ⊥
Answered i s body (r ∷ rs) =
    ((r.itag ≡ i) × (r.segment ≡ s) × (r.response ≡ answered 200 body)) ⊎ Answered i s body rs

-- Whenever a fetch removes its `.incomplete` file, the removal succeeds.
abbrev pub Removable : List Fetch → Type 0
Removable [] = Unit {0}
Removable (r ∷ rs) = (r.disk.removes ≡ true) × Removable rs

-- What holds of one segment, and of any other, holds of each.
at_each : (Q : ℤ → ℤ → Type 0) (i s j t : ℤ) → Q i s → ((i ≡ j → s ≢ t) → Q j t) → Q j t
at_each Q i s j t own other = elim (Bool-cases (eqb_ℤ i j)) [
  | inl p ↦ elim (Bool-cases (eqb_ℤ s t)) [
    | inl q ↦ subst (λ x. Q x t) (eq_of_eqb i j p) (subst (λ y. Q i y) (eq_of_eqb s t q) own)
    | inr q ↦ other (λ _ e. ground (arith, q, e))
  ]
  | inr p ↦ other (λ e _. ground (arith, p, e))
]

module _ (show : ℤ → Bytes) (id : Bytes) where
  unfoldable pub files_of : Directory → ℤ → ℤ → Files
  files_of d i s = record {
    done = d (done_name show id i s);
    incomplete = d (incomplete_name show id i s);
  }

  unfoldable pub put_files : Directory → ℤ → ℤ → Files → Directory
  put_files d i s f name =
      if same name (done_name show id i s)
      then f.done
      else if same name (incomplete_name show id i s)
      then f.incomplete
      else d name

  -- There is no file of the video yet.
  abbrev pub Fresh : Directory → Type 0
  Fresh d = (i s : ℤ) → files_of d i s ≡ record { done = none; incomplete = none }

  module _ (fsync : Bool) (path : ℤ → ℤ → String) where
    unfoldable pub result_of : Directory → Fetch → Result
    result_of d r =
        download_segment fsync (path r.itag r.segment) r.response r.disk
          (files_of d r.itag r.segment)

    unfoldable pub fetch : Directory → Fetch → Directory
    fetch d r = put_files d r.itag r.segment (result_of d r).files

    unfoldable pub fetch_all : Directory → List Fetch → Directory
    fetch_all d [] = d
    fetch_all d (r ∷ rs) = fetch_all (fetch d r) rs

    -- A fetch of the segment returned true.
    abbrev pub Saved : ℤ → ℤ → Directory → List Fetch → Type 0
    Saved i s d [] = ⊥
    Saved i s d (r ∷ rs) =
        ((r.itag ≡ i) × (r.segment ≡ s) × ((result_of d r).is_ok ≡ true)) ⊎ Saved i s (fetch d r) rs

    module _ (dotless : (n : ℤ) → occurrences b'.' (show n) ≡ 0)
        (injective : (m n : ℤ) → show m ≡ show n → m ≡ n) where
      private_names :
          (i s j t : ℤ)
          → (same (done_name show id i s) (incomplete_name show id j t) ≡ false)
            × (same (incomplete_name show id j t) (done_name show id i s) ≡ false)
      private_names i s j t =
          let (_, _, apart) = names_apart show id i s j t dotless injective in
          (not_same _ _ apart, not_same _ _ (λ e. apart (sym e)))

      put_files-same : (d : Directory) (i s : ℤ) (f : Files) → files_of (put_files d i s f) i s ≡ f
      unfolding files_of put_files
      put_files-same d i s f =
          rw
            (
              same_refl (done_name show id i s),
              same_refl (incomplete_name show id i s),
              (private_names i s i s).1,
            )
            refl

      put_files-other :
          (d : Directory) (i s j t : ℤ) (f : Files)
          → (i ≡ j → s ≢ t)
          → files_of (put_files d i s f) j t ≡ files_of d j t
      unfolding files_of put_files
      put_files-other d i s j t f other =
          let (dones, incompletes, _) = names_apart show id j t i s dotless injective in
          rw
            (
              not_same (done_name show id j t) (done_name show id i s)
                  (λ e. let (p, q) = dones e in other (sym p) (sym q)),
              not_same (incomplete_name show id j t) (incomplete_name show id i s)
                  (λ e. let (p, q) = incompletes e in other (sym p) (sym q)),
              (private_names j t i s).0,
              (private_names i s j t).1,
            )
            refl

      -- The step at the two files of the segment that is fetched, and at those of another.
      own_files :
          (d : Directory) (r : Fetch)
          → files_of (fetch d r) r.itag r.segment ≡ (result_of d r).files
      unfolding fetch
      own_files d r = put_files-same d r.itag r.segment (result_of d r).files

      other_files :
          (d : Directory) (r : Fetch) (i s : ℤ)
          → (r.itag ≡ i → r.segment ≢ s)
          → files_of (fetch d r) i s ≡ files_of d i s
      unfolding fetch
      other_files d r i s = put_files-other d r.itag r.segment i s (result_of d r).files

      -- Of the two files there is none, or a `.done` file, with what `P` allows.
      abbrev Allowed : (Content → Type 0) → Files → Type 0
      Allowed P f =
          (f.incomplete ≡ none)
          × ((f.done ≡ none) ⊎ ((body : Content) × (f.done ≡ some body) × P body))

      abbrev Honest : (ℤ → ℤ → Content → Type 0) → Directory → Type 0
      Honest P d = (i s : ℤ) → Allowed (P i s) (files_of d i s)

      result-Allowed :
          (P : Content → Type 0) (d : Directory) (r : Fetch)
          → r.disk.removes ≡ true
          → Allowed P (files_of d r.itag r.segment)
          → ((body : Content) → r.response ≡ answered 200 body → P body)
          → Allowed P (result_of d r).files
      unfolding result_of
      result-Allowed P d r gone (bare, content) fits =
          let (bare', content', _) =
            fetched fsync (path r.itag r.segment) r.response r.disk (files_of d r.itag r.segment)
              gone bare in
          (
            bare',
            (elim content' [
              | inl kept ↦ elim content [
                | inl nothing ↦ inl (kept ∙ nothing)
                | inr (body, e, p) ↦ inr (body, kept ∙ e, p)
              ]
              | inr (body, answer, e) ↦ inr (body, e, fits body answer)
            ]),
          )

      fetch-Honest :
          (P : ℤ → ℤ → Content → Type 0) (d : Directory) (r : Fetch)
          → r.disk.removes ≡ true
          → Honest P d
          → ((body : Content) → r.response ≡ answered 200 body → P r.itag r.segment body)
          → Honest P (fetch d r)
      fetch-Honest P d r gone h fits i s =
          at_each (λ i s. Allowed (P i s) (files_of (fetch d r) i s)) r.itag r.segment i s
            (subst (Allowed (P r.itag r.segment)) (sym (own_files d r))
              (result-Allowed (P r.itag r.segment) d r gone (h r.itag r.segment) fits))
            (λ other. subst (Allowed (P i s)) (sym (other_files d r i s other)) (h i s))

      fetch_all-Honest :
          (P : ℤ → ℤ → Content → Type 0) (d : Directory) (rs : List Fetch)
          → Removable rs
          → Honest P d
          → ((i s : ℤ) (body : Content) → Answered i s body rs → P i s body)
          → Honest P (fetch_all d rs)
      unfolding fetch_all
      fetch_all-Honest P d [] gone h fits = h
      fetch_all-Honest P d (r ∷ rs) (now, later) h fits =
          fetch_all-Honest P (fetch d r) rs later
            (fetch-Honest P d r now h (λ body e. fits _ _ body (inl (refl, refl, e))))
            (λ i s body a. fits i s body (inr a))

      -- A `.done` file stays.
      abbrev Done : Files → Type 0
      Done f = f.done ≢ none

      fetch-Done :
          (d : Directory) (r : Fetch) (i s : ℤ)
          → Done (files_of d i s)
          → Done (files_of (fetch d r) i s)
      unfolding result_of
      fetch-Done d r i s =
          at_each (λ i s. Done (files_of d i s) → Done (files_of (fetch d r) i s)) r.itag r.segment
            i s
            (λ there. subst Done (sym (own_files d r)) (
              stays fsync (path r.itag r.segment) r.response r.disk (files_of d r.itag r.segment)
                there))
            (λ other there. subst Done (sym (other_files d r i s other)) there)

      fetch_all-Done :
          (d : Directory) (rs : List Fetch) (i s : ℤ)
          → Done (files_of d i s)
          → Done (files_of (fetch_all d rs) i s)
      unfolding fetch_all
      fetch_all-Done d [] i s there = there
      fetch_all-Done d (r ∷ rs) i s there =
          fetch_all-Done (fetch d r) rs i s (fetch-Done d r i s there)

      Saved-Done :
          (d : Directory) (rs : List Fetch) (i s : ℤ)
          → Saved i s d rs
          → Done (files_of (fetch_all d rs) i s)
      unfolding fetch_all result_of
      Saved-Done d [] i s saved = absurd saved
      Saved-Done d (r ∷ rs) i s (inl (p, q, ok)) = fetch_all-Done (fetch d r) rs i s (
          subst (λ x. Done (files_of (fetch d r) x s)) p
            (subst (λ y. Done (files_of (fetch d r) r.itag y)) q
              (subst Done (sym (own_files d r)) (
                saves fsync (path r.itag r.segment) r.response r.disk (files_of d r.itag r.segment)
                  ok))))
      Saved-Done d (r ∷ rs) i s (inr saved) = Saved-Done (fetch d r) rs i s saved

      -- In a directory without files of the video, whatever is then fetched, in any order, if no removal
      -- of an `.incomplete` file fails: when a fetch of a segment has returned true, its `.done` file is the body of an answer that a fetch of this
      -- segment got with the status 200.
      pub Saved-Answered :
          (d : Directory)
          → Fresh d
          → (rs : List Fetch) → Removable rs
          → (i s : ℤ) → Saved i s d rs
          → (body : Content) × ((files_of (fetch_all d rs) i s).done ≡ some body)
            × Answered i s body rs
      Saved-Answered d fresh rs gone i s saved =
          let (_, content) =
            fetch_all-Honest (λ i s body. Answered i s body rs) d rs gone
              (λ i s. (
                ap (λ (f : Files). f.incomplete) (fresh i s),
                inl (ap (λ (f : Files). f.done) (fresh i s)),
              ))
              (λ i s body a. a) i s in
          elim content [
            | inl nothing ↦ absurd (Saved-Done d rs i s saved nothing)
            | inr answer ↦ answer
          ]
