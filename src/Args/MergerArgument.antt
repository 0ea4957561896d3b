-- ===== src/Args/MergerArgument.antt =====
-- args.go with merge/merge.go: what is given by `--merger-argument` is what the muxer looks up.
use ytarchive_raw_go.Prelude.{
  ◌≡◌, refl, ◌∙◌, ap, true, false, ◌&&◌, List, [], ◌∷◌, ◌++◌, Option, none, some, arith,
  if◌then◌else◌, Bool-cases, inl, inr,
}
use ytarchive_raw_go.Prelude.Text.{Bytes, same, eq_of_same, to_lower, lookup_text, occurrences}
use ytarchive_raw_go.Args.Lists.{cut-append}
use ytarchive_raw_go.Args.Flags.{Settings, set_merger_argument, assign_text, arguments_of}
use ytarchive_raw_go.Merge.Options.{MuxerOptions, get_merger_argument}

differ : (j k i : Bytes) → same j k ≡ false → same j i ≡ true → same k i ≡ false
differ j k i away there = elim (Bool-cases (same k i)) [
  | inl e ↦ absurd (ground (arith, away, there, ap (same j) (eq_of_same k i e)))
  | inr e ↦ e
]

lookup_text-assign_text {ℓ} :
    {V : Type ℓ} (k i : Bytes) (v : V) (m : List (Bytes × V))
    → lookup_text i (assign_text k v m) ≡ (if same k i then some v else lookup_text i m)
unfolding lookup_text assign_text
lookup_text-assign_text k i v [] = refl
lookup_text-assign_text k i v ((j, w) ∷ m) = elim (Bool-cases (same j k)) [
  | inl here ↦ rw (here, assign_text) (ground (arith, ap (λ x. same x i) (eq_of_same j k here)))
  | inr away ↦ elim (Bool-cases (same j i)) [
    | inl there ↦ rw (away, assign_text, there, differ j k i away there) refl
    | inr off ↦ rw (away, assign_text, off) (lookup_text-assign_text k i v m)
  ]
]

abbrev get_from : Bytes → Option (List (Bytes × Bytes)) → Option Bytes
get_from key none = none
get_from key (some m) = lookup_text key m

-- One argument of one merger.
abbrev get_in : Bytes → Bytes → List (Bytes × List (Bytes × Bytes)) → Option Bytes
get_in name key args = get_from key (lookup_text name args)

-- Setting one argument.
abbrev set_in :
    Bytes
    → Bytes
    → Bytes
    → List (Bytes × List (Bytes × Bytes))
    → List (Bytes × List (Bytes × Bytes))
set_in name key value args = assign_text name (assign_text key value (arguments_of name args)) args

lookup-arguments_of :
    (name key : Bytes) (args : List (Bytes × List (Bytes × Bytes)))
    → lookup_text key (arguments_of name args) ≡ get_in name key args
unfolding lookup_text
lookup-arguments_of name key args = go (lookup_text name args)
  where
    go :
        (l : Option (List (Bytes × Bytes)))
        → lookup_text key (elim l [ some m ↦ m | none ↦ [] ]) ≡ get_from key l
    go none = refl
    go (some m) = refl

get_in-set_in :
    (name key value n k : Bytes) (args : List (Bytes × List (Bytes × Bytes)))
    → get_in n k (set_in name key value args)
      ≡ (if same name n && same key k then some value else get_in n k args)
get_in-set_in name key value n k args =
    let inner = assign_text key value (arguments_of name args) in
    ap (get_from k) (lookup_text-assign_text name n inner args) ∙ elim (Bool-cases (same name n)) [
      | inl named ↦
          let here : get_in name k args ≡ get_in n k args =
            ap (λ x. get_in x k args) (eq_of_same name n named) in
          rw named (
            lookup_text-assign_text key k value (arguments_of name args)
            ∙ rw (lookup-arguments_of name k args, here) refl)
      | inr other ↦ rw other refl
    ]

-- The options of the muxer that the settings give.
abbrev pub with_args : MuxerOptions → Settings → MuxerOptions
with_args opts s = record opts { merger_arguments = s.merger_args }

-- `--merger-argument NAME:KEY=VALUE` is accepted if the name has no colon and the key has no equals
-- sign, whatever the value. The muxer that looks up the key for the name, in any case of their letters,
-- then gets the value, and any other argument of any merger is what it was.
pub set_merger_argument_lem :
    (opts : MuxerOptions) (name key value : Bytes) (s : Settings)
    → occurrences b':' name ≡ 0
    → occurrences b'=' key ≡ 0
    → (s' : Settings) × (set_merger_argument (name ++ b':' ∷ (key ++ b'=' ∷ value)) s ≡ some s')
      × ((n k : Bytes)
          → get_merger_argument (with_args opts s') n k ≡ (
              if same (to_lower name) (to_lower n) && same (to_lower key) (to_lower k)
              then some value
              else get_merger_argument (with_args opts s) n k))
unfolding set_merger_argument get_merger_argument
set_merger_argument_lem opts name key value s hn hk = (
  record s { merger_args = set_in (to_lower name) (to_lower key) value s.merger_args },
  rw (cut-append b':' name (key ++ b'=' ∷ value) hn, cut-append b'=' key value hk) refl,
  λ n k. get_in-set_in (to_lower name) (to_lower key) value (to_lower n) (to_lower k) s.merger_args,
)
