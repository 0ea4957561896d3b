-- ===== src/Args/Lists.antt =====
-- args.go: `parseItagList`, and the cutting of a merger's argument.
use ytarchive_raw_go.Prelude.{
  ℕ, ◌≡◌, ℤ, List, [], ◌∷◌, ◌++◌, Option, none, some, ◌>>=◌, arith, ◌==◌, if◌then◌else◌,
}
use ytarchive_raw_go.Prelude.Text.{Bytes, occurrences}
use ytarchive_raw_go.Prelude.Atoi.{atoi}
use ytarchive_raw_go.Prelude.Trim.{trim_space}

-- `strings.Split(s, sep)` for one byte.
unfoldable pub split : ℕ → Bytes → List Bytes
split sep [] = [] ∷ []
split sep (c ∷ text) =
    let rest = split sep text in
    if c == sep then [] ∷ rest else (elim rest [ [] ↦ (c ∷ []) ∷ [] | l ∷ ls ↦ (c ∷ l) ∷ ls ])

-- The loop of `parseItagList`.
unfoldable pub parse_itags : List Bytes → Option (List ℤ)
unfolding trim_space atoi
parse_itags [] = some []
parse_itags (v ∷ vs) =
    let rest = parse_itags vs in do itag ← atoi (trim_space v); itags ← rest; some (itag ∷ itags)

unfoldable pub parse_itag_list : Bytes → Option (List ℤ)
unfolding split parse_itags
parse_itag_list s = parse_itags (split b',' s)

-- `strings.SplitN(s, sep, 2)`, where `none` is fewer than two parts.
unfoldable pub cut : ℕ → Bytes → Option (Bytes × Bytes)
cut sep [] = none
cut sep (c ∷ text) =
    let rest = cut sep text in
    if c == sep
    then some ([], text)
    else (elim rest [ none ↦ none | some (a, b) ↦ some (c ∷ a, b) ])

-- The text before the first separator, and the text after it, which may have more of them.
pub cut-append :
    (sep : ℕ) (a b : Bytes) → occurrences sep a ≡ 0 → cut sep (a ++ sep ∷ b) ≡ some (a, b)
unfolding cut
cut-append sep [] b h = ground arith
cut-append sep (c ∷ a) b h = ground (arith, h, cut-append sep a b)
