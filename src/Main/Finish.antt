-- ===== src/Main/Finish.antt =====
-- main.go: `printResult`, and `main` from the end of the downloads on. Log lines and the removal of the
-- temporary directory are events, in order.
use ytarchive_raw_go.Prelude.{
  ℕ, ◌≡◌, refl, sym, subst, ◌∙◌, ◌⊎◌, ◌↔◌, Bool, true, false, not, ◌&&◌, List, [], ◌∷◌, ◌++◌,
  Option, some, none, arith, ltb, length, if◌then◌else◌, Option-cases, inl, inr,
}
use ytarchive_raw_go.Prelude.Text.{Bytes}
use ytarchive_raw_go.Merge.Loop.{audio, video}
use ytarchive_raw_go.Merge.Options.{Muxer, MuxerOptions, create_best_muxer}
use ytarchive_raw_go.Merge.DownloadOnly.{
  InfoResult, failed, merging, endless_template, info_output_locked,
}
use ytarchive_raw_go.Log.Format.{Level, info, warn, error, fatal}
use ytarchive_raw_go.Args.Parse.{Config}
use ytarchive_raw_go.Download.Run.{DownloadResult}
use ytarchive_raw_go.Main.Streams.{Choice-cases}
use ytarchive_raw_go.Main.{
  System, Stream, Started, started, halted, merge_only, stream, start_streams, start, muxer_options,
}

-- What a log line tells.
pub data News : Type 0 where
  lost_segments : (lost : List ℕ) (total : ℕ) → News
  task_failed task_succeeded : News
  waiting_for_muxer do_not_restart : News
  new_version files_are_kept : News
  muxing_failed merging_failed dir_not_removed success : News

pub data Event : Type 0 where
  logs : Level → News → Event
  removes_all : Bytes → Event
  exits_with_1 : Event

unfoldable pub print_result : DownloadResult → List Event
print_result r =
    (if ltb 0 (length r.lost_segments)
      then logs warn (lost_segments r.lost_segments r.total_segments) ∷ []
      else [])
    ++ ((if r.has_error then logs error task_failed else logs info task_succeeded) ∷ [])

-- The result of a task that was started.
unfoldable pub print_of : Option DownloadResult → List Event
unfolding print_result
print_of none = []
print_of (some r) = print_result r

-- What the end of the run depends on: whether there is a new version, the results of the tasks,
-- whether muxing fails, and whether the directory can be removed.
pub record Ending : Type 0 where
  pub is_outdated : Bool
  pub audio_result : Option DownloadResult
  pub video_result : Option DownloadResult
  pub mux_fails : Bool
  pub removal_fails : Bool

abbrev pub warning : Bool → News → List Event
warning b n = if b then logs warn n ∷ [] else []

-- From the result of the muxer on.
unfoldable pub finish : Ending → (delete_temp_dir : Bool) → Bytes → List Event
finish e delete_temp_dir temp_dir =
    if e.mux_fails
    then logs fatal muxing_failed ∷ exits_with_1 ∷ []
    else (if delete_temp_dir
        then removes_all temp_dir ∷ warning e.removal_fails dir_not_removed
        else [])
      ++ (logs info success ∷ [])

unfoldable pub wait_and_finish : Ending → (keep_files delete_temp_dir : Bool) → Bytes → List Event
unfolding print_of finish
wait_and_finish e keep_files delete_temp_dir temp_dir =
    print_of e.audio_result
    ++ (print_of e.video_result
        ++ (logs info waiting_for_muxer
            ∷ logs info do_not_restart
            ∷ (warning e.is_outdated new_version
                ++ (warning keep_files files_are_kept ++ finish e delete_temp_dir temp_dir))))

-- The end of a run with `--merge`, after `MergeDownloadInfoJson`: with a muxer, its `Mux` decides. When the
-- output is locked, the program ends at once; when the template never ends, nothing comes.
unfoldable pub conclude_merge : Ending → InfoResult → List Event
conclude_merge e (failed endless_template) = []
conclude_merge e (failed info_output_locked) = exits_with_1 ∷ []
conclude_merge e (failed _) = logs fatal merging_failed ∷ exits_with_1 ∷ []
conclude_merge e (merging m) =
    if e.mux_fails then logs fatal merging_failed ∷ exits_with_1 ∷ [] else logs info success ∷ []

-- `main` after `start`: the tasks run, and the muxer. A run that was halted has ended.
unfoldable pub conclude : Ending → Config → Started → List Event
unfolding wait_and_finish conclude_merge
conclude e c (halted h) = []
conclude e c (merge_only result) = conclude_merge e result
conclude e c (started options m a v d) = wait_and_finish e c.settings.keep_files d options.temp_dir

-- A directory is removed in the run.
abbrev pub Removes : Bytes → List Event → Type 0
Removes dir [] = ⊥
Removes dir (removes_all d ∷ es) = (d ≡ dir) ⊎ Removes dir es
Removes dir (_ ∷ es) = Removes dir es

-- Log lines remove nothing.
abbrev Quiet : List Event → Type 0
Quiet [] = Unit {0}
Quiet (logs l n ∷ es) = Quiet es
Quiet (_ ∷ es) = ⊥

Removes-append :
    (dir : Bytes) (xs ys : List Event) → Quiet xs → Removes dir (xs ++ ys) ↔ Removes dir ys
Removes-append dir [] ys q = (λ r. r, λ r. r)
Removes-append dir (logs l n ∷ xs) ys q = Removes-append dir xs ys q
Removes-append dir (removes_all d ∷ xs) ys q = absurd q
Removes-append dir (exits_with_1 ∷ xs) ys q = absurd q

warning-Quiet : (b : Bool) (n : News) → Quiet (warning b n)
warning-Quiet true n = tt
warning-Quiet false n = tt

result-Quiet : (r : Option DownloadResult) → Quiet (print_of r)
unfolding print_of print_result
result-Quiet none = tt
result-Quiet (some r) = lines (ltb 0 (length r.lost_segments)) r.has_error
  where
    lines :
        (b c : Bool)
        → Quiet (
            (if b then logs warn (lost_segments r.lost_segments r.total_segments) ∷ [] else [])
            ++ ((if c then logs error task_failed else logs info task_succeeded) ∷ []))
    lines true true = tt
    lines true false = tt
    lines false true = tt
    lines false false = tt

true_is_not_false : true ≡ false → ⊥
true_is_not_false e = cc

finish-Removes :
    (e : Ending) (delete_temp_dir : Bool) (temp_dir dir : Bytes)
    → Removes dir (finish e delete_temp_dir temp_dir)
      ↔ ((e.mux_fails ≡ false) × (delete_temp_dir ≡ true) × (temp_dir ≡ dir))
unfolding finish
finish-Removes e delete_temp_dir temp_dir dir = by_cases e.mux_fails delete_temp_dir e.removal_fails
  where
    only_one : (temp_dir ≡ dir) ⊎ ⊥ → (false ≡ false) × (true ≡ true) × (temp_dir ≡ dir)
    only_one (inl p) = (refl, refl, p)
    only_one (inr r) = absurd r

    by_cases :
        (fails del kept : Bool)
        → Removes dir (
            if fails
            then logs fatal muxing_failed ∷ exits_with_1 ∷ []
            else (if del
                then removes_all temp_dir ∷ (if kept then logs warn dir_not_removed ∷ [] else [])
                else [])
              ++ (logs info success ∷ []))
          ↔ ((fails ≡ false) × (del ≡ true) × (temp_dir ≡ dir))
    by_cases true del kept = (λ r. absurd r, λ (p, _, _). absurd (true_is_not_false p))
    by_cases false false kept = (λ r. absurd r, λ (_, p, _). absurd (true_is_not_false (sym p)))
    by_cases false true true = (only_one, λ (_, _, p). inl p)
    by_cases false true false = (only_one, λ (_, _, p). inl p)

-- The runs whose tasks were started with these options.
abbrev Given : Bytes → Bool → Started → Type 0
Given temp_dir delete_temp_dir (halted h) = Unit {0}
Given temp_dir delete_temp_dir (merge_only result) = Unit {0}
Given temp_dir delete_temp_dir (started options m a v d) =
    (options.temp_dir ≡ temp_dir) × (d ≡ delete_temp_dir)

if-Given :
    (t : Bytes) (d b : Bool) (r s : Started)
    → Given t d r
    → Given t d s
    → Given t d (if b then r else s)
if-Given t d true r s h k = h
if-Given t d false r s h k = k

start_streams-Given :
    (y : System) (c : Config) (options : MuxerOptions) (d : Bool)
    → Given options.temp_dir d (start_streams y c options d)
unfolding start_streams
start_streams-Given y c options d = elim (Choice-cases (create_best_muxer y.ffmpeg options)) [
  | inl (e, refuses) ↦ rw (refuses, start_streams) tt
  | inr (m, chooses) ↦
      rw (chooses, start_streams)
        (if-Given options.temp_dir d (not y.output_dir_made) _ _ tt (
          if-Given options.temp_dir d y.output_is_locked _ _ tt
            (elim (Option-cases (stream c (y.best_url audio) c.settings.only_video)) [
              | inl no_audio ↦ rw no_audio tt
              | inr (a, audio_made) ↦
                  elim (Option-cases (stream c (y.best_url video) c.settings.only_audio)) [
                    | inl no_video ↦ rw (audio_made, no_video) tt
                    | inr (v, video_made) ↦ rw (audio_made, video_made) (refl, refl)
                  ]
            ])))
]

start-Given :
    (y : System) (c : Config) (dir : Bytes)
    → y.temp_dir ≡ some dir
    → let given = ltb 0 (length c.settings.temp_dir) in
      Given
        (if given then c.settings.temp_dir else dir)
        (not given && not c.settings.keep_files)
        (start y c)
unfolding start muxer_options
start-Given y c dir there =
    let given = ltb 0 (length c.settings.temp_dir) in
    let temp_dir = if given then c.settings.temp_dir else dir in
    let del = not given && not c.settings.keep_files in
    let c' : Config = record c { settings = record c.settings { temp_dir = temp_dir } } in
    rw (there, start)
      (if-Given temp_dir del y.video_is_locked _ _ tt (
        if-Given temp_dir del (ltb 0 (length c.settings.merge_only_file)) _ _ tt (
          if-Given temp_dir del (ltb 0 (length c.settings.ip_pool_file) && not y.ip_pool_parses) _ _
            tt (start_streams-Given y c' (muxer_options c'.settings) del))))

-- Before the muxer's result nothing is removed.
wait_and_finish-Removes :
    (e : Ending) (keep_files del : Bool) (temp_dir dir : Bytes)
    → Removes dir (wait_and_finish e keep_files del temp_dir) ↔ Removes dir (finish e del temp_dir)
unfolding wait_and_finish
wait_and_finish-Removes e keep_files del temp_dir dir =
    let a = Removes-append dir (print_of e.audio_result) _ (result-Quiet e.audio_result) in
    let v = Removes-append dir (print_of e.video_result) _ (result-Quiet e.video_result) in
    let last = warning keep_files files_are_kept ++ finish e del temp_dir in
    let n =
      Removes-append dir (warning e.is_outdated new_version) last
        (warning-Quiet e.is_outdated new_version) in
    let k =
      Removes-append dir (warning keep_files files_are_kept) (finish e del temp_dir)
        (warning-Quiet keep_files files_are_kept) in
    (λ r. k.0 (n.0 (v.0 (a.0 r))), λ r. a.1 (v.1 (n.1 (k.1 r))))

-- The flags behind the directory and whether it is to be deleted.
flags_of :
    (t made dir : Bytes) (keep : Bool)
    → (((not (ltb 0 (length t)) && not keep) ≡ true)
        × ((if ltb 0 (length t) then t else made) ≡ dir))
      ↔ ((keep ≡ false) × (t ≡ []) × (made ≡ dir))
flags_of [] made dir true =
    (λ (p, _). absurd (true_is_not_false (sym p)), λ (p, _, _). absurd (true_is_not_false p))
flags_of [] made dir false = (λ (_, q). (refl, refl, q), λ (_, _, q). (refl, q))
flags_of (x ∷ t) made dir keep =
    (λ (p, _). absurd (true_is_not_false (ground (arith, p))), λ (_, p, _). cc)

-- Once the tasks are started, with whatever muxer, a directory is removed exactly if muxing does not
-- fail, temporary files are not kept, no directory for them was given, and it is the one that was
-- made for them.
pub temp_dir_removed :
    (y : System) (c : Config) (e : Ending) (made dir : Bytes) (options : MuxerOptions) (m : Muxer)
    (a v : Stream) (delete_temp_dir : Bool)
    → y.temp_dir ≡ some made
    → start y c ≡ started options m a v delete_temp_dir
    → Removes dir (conclude e c (start y c)) ↔ (
        (e.mux_fails ≡ false)
        × (c.settings.keep_files ≡ false)
        × (c.settings.temp_dir ≡ [])
        × (made ≡ dir))
unfolding conclude
temp_dir_removed y c e made dir options m a v d there runs =
    let (same_dir, same_flag) = subst (Given _ _) runs (start-Given y c made there) in
    let waits = wait_and_finish-Removes e c.settings.keep_files d options.temp_dir dir in
    let ends = finish-Removes e d options.temp_dir dir in
    let flags = flags_of c.settings.temp_dir made dir c.settings.keep_files in
    rw runs (
      λ r.
          let (ok, del, the_dir) = ends.0 (waits.0 r) in
          let (kept, given, same) = flags.0 (sym same_flag ∙ del, sym same_dir ∙ the_dir) in
          (ok, kept, given, same),
      λ (ok, kept, given, same).
          let (del, the_dir) = flags.1 (kept, given, same) in
          waits.1 (ends.1 (ok, same_flag ∙ del, same_dir ∙ the_dir)),
    )
