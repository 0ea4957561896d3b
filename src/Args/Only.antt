-- ===== src/Args/Only.antt =====
-- args.go: `--only audio` and `--only video` among the flags.
use ytarchive_raw_go.Prelude.{
  ℕ, ◌≡◌, refl, subst, ap, Bool, true, false, ◌&&◌, ◌||◌, List, [], ◌∷◌, Option, none, some, ◌>>=◌,
  arith, Bool-cases, inl, inr,
}
use ytarchive_raw_go.Prelude.Text.{Bytes, codes, eq_of_same, same, lookup_text}
use ytarchive_raw_go.Args.Lists.{parse_itag_list, cut}
use ytarchive_raw_go.Args.Flags.{
  Settings, defaults, BoolFlag, UintFlag, StringFlag, Flag, bool_var, uint_var, string_var, only,
  merger_argument, Values, set_bool, set_uint, set_string, set_only, set_merger_argument, set_flag,
  set_flags, flag_names,
}

abbrev is_only : Flag → Bool
is_only only = true
is_only _ = false

-- Is the flag `--only` among the flags, with this value?
abbrev pub asks : Bytes → List (Bytes × Bytes) → Bool
asks which [] = false
asks which ((name, v) ∷ flags) =
    (elim (lookup_text name flag_names) [ none ↦ false | some f ↦ is_only f ] && same v which)
    || asks which flags

-- The streams that `s'` leaves out are those of `s` and those that the flag names.
abbrev Chosen : Settings → Bool → Bytes → Settings → Type 0
Chosen s named v s' =
    (s'.only_audio ≡ (s.only_audio || (named && same v (codes "audio"))))
    × (s'.only_video ≡ (s.only_video || (named && same v (codes "video"))))

abbrev NotBoth : Settings → Type 0
NotBoth s = (s.only_audio && s.only_video) ≡ false

abbrev Same : Settings → Settings → Type 0
Same s s' = (s'.only_audio ≡ s.only_audio) × (s'.only_video ≡ s.only_video)

set_bool-Same : (f : BoolFlag) (b : Bool) (s : Settings) → Same s (set_bool f b s)
unfolding set_bool
set_bool-Same f b s = elim f as (λ g. Same s (set_bool g b s)) [
  | BoolFlag.ipv4 ↦ (refl, refl)
  | BoolFlag.ipv6 ↦ (refl, refl)
  | BoolFlag.disable_resume ↦ (refl, refl)
  | BoolFlag.fsync ↦ (refl, refl)
  | BoolFlag.keep_files ↦ (refl, refl)
  | BoolFlag.overwrite_temp ↦ (refl, refl)
  | BoolFlag.requeue_last ↦ (refl, refl)
  | BoolFlag.use_quic ↦ (refl, refl)
  | BoolFlag.verbose ↦ (refl, refl)
  | BoolFlag.version ↦ (refl, refl)
]

set_uint-Same : (f : UintFlag) (n : ℕ) (s : Settings) → Same s (set_uint f n s)
unfolding set_uint
set_uint-Same f n s = elim f as (λ g. Same s (set_uint g n s)) [
  | UintFlag.connect_retries ↦ (refl, refl)
  | UintFlag.requeue_failed ↦ (refl, refl)
  | UintFlag.retries ↦ (refl, refl)
  | UintFlag.segment_count ↦ (refl, refl)
  | UintFlag.start_segment ↦ (refl, refl)
  | UintFlag.threads ↦ (refl, refl)
]

set_string-Same : (f : StringFlag) (v : Bytes) (s : Settings) → Same s (set_string f v s)
unfolding set_string
set_string-Same f v s = elim f as (λ g. Same s (set_string g v s)) [
  | StringFlag.input ↦ (refl, refl)
  | StringFlag.ip_pool ↦ (refl, refl)
  | StringFlag.log_level ↦ (refl, refl)
  | StringFlag.merge ↦ (refl, refl)
  | StringFlag.merger ↦ (refl, refl)
  | StringFlag.output ↦ (refl, refl)
  | StringFlag.queue_mode ↦ (refl, refl)
  | StringFlag.temp_dir ↦ (refl, refl)
  | StringFlag.window_name ↦ (refl, refl)
]

-- A result of a chain: the first part had one, from which the rest made it.
bind-some {ℓ} :
    {A : Type ℓ} (x : Option A) (f : A → Option Settings) (s : Settings)
    → x >>= f ≡ some s
    → (a : A) × (f a ≡ some s)
bind-some none f s e = cc
bind-some (some a) f s e = (a, e)

bind_found {ℓ} :
    {A : Type ℓ} (x : Option A) (f : A → Option Settings) (s : Settings)
    → x >>= f ≡ some s
    → (a : A) × (x ≡ some a) × (f a ≡ some s)
bind_found none f s e = cc
bind_found (some a) f s e = (a, refl, e)

only_flag :
    (v : Bytes) (s s' : Settings)
    → set_only v s ≡ some s'
    → Chosen s true v s' × (NotBoth s → NotBoth s')
unfolding set_only same
only_flag v s s' e = elim (Bool-cases (same v (codes "audio"))) [
  | inl audio ↦
      only_audio (ap (λ x. same x (codes "video")) (eq_of_same v (codes "audio") audio)) audio
  | inr other ↦ elim (Bool-cases (same v (codes "video"))) [
    | inl video ↦ only_video video other
    | inr neither ↦ absurd (ground (arith, e, other, neither))
  ]
]
  where
    only_audio :
        same v (codes "video") ≡ false
        → same v (codes "audio") ≡ true
        → Chosen s true v s' × (NotBoth s → NotBoth s')
    only_audio no_video audio = ground (arith, e, no_video, audio)

    only_video :
        same v (codes "video") ≡ true
        → same v (codes "audio") ≡ false
        → Chosen s true v s' × (NotBoth s → NotBoth s')
    only_video video no_audio = ground (arith, e, video, no_audio)

set_flag-Same :
    (p : Values) (f : Flag) (v : Bytes) (s s' : Settings)
    → is_only f ≡ false
    → set_flag p f v s ≡ some s'
    → Same s s'
unfolding set_flag set_merger_argument
set_flag-Same p (bool_var f) v s s' o e =
    let (b, q) = bind-some (p.parse_bool v) _ s' e in
    subst (Same s) {x = set_bool f b s} {y = s'} (ground (arith, q)) (set_bool-Same f b s)
set_flag-Same p (uint_var f) v s s' o e =
    let (n, q) = bind-some (p.parse_uint v) _ s' e in
    subst (Same s) {x = set_uint f n s} {y = s'} (ground (arith, q)) (set_uint-Same f n s)
set_flag-Same p (string_var f) v s s' o e =
    subst (Same s) {x = set_string f v s} {y = s'} (ground (arith, e)) (set_string-Same f v s)
set_flag-Same p Flag.requeue_delay v s s' o e =
    let (d, q) = bind-some (p.parse_duration v) _ s' e in ground (arith, q)
set_flag-Same p only v s s' o e = cc
set_flag-Same p Flag.preferred_audio v s s' o e =
    let (l, q) = bind-some (parse_itag_list v) _ s' e in ground (arith, q)
set_flag-Same p Flag.preferred_video v s s' o e =
    let (l, q) = bind-some (parse_itag_list v) _ s' e in ground (arith, q)
set_flag-Same p merger_argument v s s' o e =
    let (parts, q) = bind-some (cut b':' v) _ s' e in
    let (kv, q') = bind-some (cut b'=' parts.1) _ s' q in ground (arith, q')

unchanged :
    (s s' : Settings) (v : Bytes) → Same s s' → Chosen s false v s' × (NotBoth s → NotBoth s')
unchanged s s' v (a, b) = (ground (arith, a, b), λ h. ground (arith, a, b, h))

-- What one flag does to the choice of streams.
set_flag-Chosen :
    (p : Values) (f : Flag) (v : Bytes) (s s' : Settings)
    → set_flag p f v s ≡ some s'
    → Chosen s (is_only f) v s' × (NotBoth s → NotBoth s')
unfolding set_only same set_flag
set_flag-Chosen p only v s s' e = only_flag v s s' e
set_flag-Chosen p (bool_var f) v s s' e =
    unchanged s s' v (set_flag-Same p (bool_var f) v s s' refl e)
set_flag-Chosen p (uint_var f) v s s' e =
    unchanged s s' v (set_flag-Same p (uint_var f) v s s' refl e)
set_flag-Chosen p (string_var f) v s s' e =
    unchanged s s' v (set_flag-Same p (string_var f) v s s' refl e)
set_flag-Chosen p Flag.requeue_delay v s s' e =
    unchanged s s' v (set_flag-Same p Flag.requeue_delay v s s' refl e)
set_flag-Chosen p Flag.preferred_audio v s s' e =
    unchanged s s' v (set_flag-Same p Flag.preferred_audio v s s' refl e)
set_flag-Chosen p Flag.preferred_video v s s' e =
    unchanged s s' v (set_flag-Same p Flag.preferred_video v s s' refl e)
set_flag-Chosen p merger_argument v s s' e =
    unchanged s s' v (set_flag-Same p merger_argument v s s' refl e)

set_flags-Chosen :
    (p : Values) (flags : List (Bytes × Bytes)) (s s' : Settings)
    → set_flags p flags s ≡ some s'
    → NotBoth s
    → (s'.only_audio ≡ (s.only_audio || asks (codes "audio") flags))
      × (s'.only_video ≡ (s.only_video || asks (codes "video") flags))
      × NotBoth s'
unfolding set_flags
set_flags-Chosen p [] s s' e h = ground (arith, e, h)
set_flags-Chosen p ((name, v) ∷ flags) s s' e h =
    let (f, found, q) = bind_found (lookup_text name flag_names) _ s' e in
    let (t, set, rest) = bind_found (set_flag p f v s) _ s' q in
    let ((audio, video), keep) = set_flag-Chosen p f v s t set in
    let (audio', video', both) = set_flags-Chosen p flags t s' rest (keep h) in
    (ground (arith, found, audio, audio'), ground (arith, found, video, video'), both)

-- When the flags of the command line are accepted: audio alone is chosen exactly if one of them is
-- `--only audio`, video alone exactly if one of them is `--only video`, and never both.
pub only_lem :
    (p : Values) (flags : List (Bytes × Bytes)) (s : Settings)
    → set_flags p flags defaults ≡ some s
    → (s.only_audio ≡ asks (codes "audio") flags)
      × (s.only_video ≡ asks (codes "video") flags)
      × ((s.only_audio && s.only_video) ≡ false)
only_lem p flags s e = set_flags-Chosen p flags defaults s e refl
