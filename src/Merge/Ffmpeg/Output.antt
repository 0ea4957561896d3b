-- ===== src/Merge/Ffmpeg/Output.antt =====
-- Which lines of FFmpeg's output the user gets to see.
use ytarchive_raw_go.Prelude.{
  ℕ, ◌≡◌, refl, ap, ◌≢◌, ◌↔◌, ◌⊎◌, inl, inr, true, false, List, [], ◌∷◌, ◌++◌, arith, ◌==◌,
  Bool-cases, if◌then◌else◌,
}
use ytarchive_raw_go.Prelude.Text.{Bytes, has_prefix, contains}
use ytarchive_raw_go.Merge.Ffmpeg.{
  read_lines, trim_return, contains_one, ignore_warning, ignored_warnings, wanted_levels,
}

-- `part` stands in `text`.
abbrev pub Within : Bytes → Bytes → Type 0
Within part text = (before : Bytes) × (after : Bytes) × (text ≡ before ++ (part ++ after))

prefix-rest :
    (text part : Bytes) → has_prefix text part ≡ true → (after : Bytes) × (text ≡ part ++ after)
unfolding has_prefix
prefix-rest text [] h = (text, refl)
prefix-rest [] (y ∷ part) h = absurd (ground (arith, h))
prefix-rest (x ∷ text) (y ∷ part) h =
    let (after, e) = prefix-rest text part (ground (arith, h)) in (after, ground (arith, h, e))

prefix-append : (part after : Bytes) → has_prefix (part ++ after) part ≡ true
unfolding has_prefix
prefix-append [] after = ground arith
prefix-append (x ∷ part) after = ground (arith, prefix-append part after)

contains-Within : (text part : Bytes) → contains text part ≡ true → Within part text
unfolding contains
contains-Within [] part h =
    let (after, e) = prefix-rest [] part (ground (arith, h)) in ([], after, e)
contains-Within (x ∷ text) part h = elim (Bool-cases (has_prefix (x ∷ text) part)) [
  | inl here ↦ let (after, e) = prefix-rest (x ∷ text) part here in ([], after, e)
  | inr later ↦
      let (before, after, e) = contains-Within text part (ground (arith, h, later)) in
      (x ∷ before, after, ap (◌∷◌ x) e)
]

within-contains : (before part after : Bytes) → contains (before ++ (part ++ after)) part ≡ true
unfolding contains
within-contains [] [] [] = ground (arith, prefix-append [] [])
within-contains [] [] (x ∷ after) = ground (arith, prefix-append [] (x ∷ after))
within-contains [] (x ∷ part) after = ground (arith, prefix-append (x ∷ part) after)
within-contains (x ∷ before) part after = ground (arith, within-contains before part after)

pub contains_iff : (text part : Bytes) → contains text part ≡ true ↔ Within part text
contains_iff text part =
    (contains-Within text part, λ (before, after, e). rw e (within-contains before part after))

-- Some text of the list stands in the line.
abbrev pub SomeWithin : List Bytes → Bytes → Type 0
SomeWithin [] line = ⊥
SomeWithin (v ∷ vs) line = Within v line ⊎ SomeWithin vs line

contains_one_iff :
    (line : Bytes) (vs : List Bytes) → contains_one line vs ≡ true ↔ SomeWithin vs line
unfolding contains_one
contains_one_iff line [] = (λ h. ground (arith, h), λ h. absurd h)
contains_one_iff line (v ∷ vs) =
    let (there, back) = contains_one_iff line vs in
    let (there', back') = contains_iff line v in
    (
      λ h. elim (Bool-cases (contains line v)) [
        | inl e ↦ inl (there' e)
        | inr e ↦ inr (there (ground (arith, h, e)))
      ],
      λ h. elim h [ inl w ↦ ground (arith, back' w) | inr w ↦ ground (arith, back w) ],
    )

-- `ignoreWarning` keeps a line exactly if one of the wanted levels stands in it, and none of the
-- ignored warnings does.
pub ignore_warning_iff :
    (line : Bytes)
    → ignore_warning line ≡ false
      ↔ (SomeWithin wanted_levels line × ¬ SomeWithin ignored_warnings line)
unfolding ignore_warning
ignore_warning_iff line =
    let (wanted, wanted') = contains_one_iff line wanted_levels in
    let (bad, bad') = contains_one_iff line ignored_warnings in
    (
      λ h. (wanted (ground (arith, h)), λ w. ground (arith, h, bad' w)),
      λ (w, good). elim (Bool-cases (contains_one line ignored_warnings)) [
        | inl e ↦ absurd (good (bad e))
        | inr e ↦ ground (arith, wanted' w, e)
      ],
    )

-- The lines, put together.
abbrev pub joined : List Bytes → Bytes
joined [] = []
joined (l ∷ ls) = l ++ joined ls

-- Each line but the last ends in a newline.
abbrev pub Ended : List Bytes → Type 0
Ended [] = Unit {0}
Ended (l ∷ []) = Unit {0}
Ended (l ∷ k ∷ ls) = ((before : Bytes) × (l ≡ before ++ 10 ∷ [])) × Ended (k ∷ ls)

-- The `\r` that `TrimSuffix` looks for is never last in a line that ends in a newline: the line stays
-- as it is.
pub trim_return_newline : (before : Bytes) → trim_return (before ++ 10 ∷ []) ≡ before ++ 10 ∷ []
unfolding trim_return
trim_return_newline [] = ground arith
trim_return_newline (c ∷ []) = ground arith
trim_return_newline (c ∷ d ∷ before) = ground (arith, trim_return_newline (d ∷ before))

-- What `read_lines` makes of a text.
Lines : Bytes → List Bytes → Type 0
Lines text ls = (ls ≢ []) × (joined ls ≡ text) × Ended ls

longer-Ended : (c : ℕ) (l : Bytes) (ls : List Bytes) → Ended (l ∷ ls) → Ended ((c ∷ l) ∷ ls)
longer-Ended c l [] h = tt
longer-Ended c l (k ∷ ls) ((before, e), h) = ((c ∷ before, ap (◌∷◌ c) e), h)

Lines-newline :
    (text : Bytes) (ls : List Bytes) → Lines text ls → Lines (10 ∷ text) ((10 ∷ []) ∷ ls)
unfolding Lines
Lines-newline text [] (some_line, e, h) = absurd (some_line refl)
Lines-newline text (l ∷ ls) (some_line, e, h) = (λ z. cc, ap (◌∷◌ 10) e, (([], refl), h))

read_lines-other :
    (c : ℕ) (text : Bytes)
    → (c == 10) ≡ false
    → Lines text (read_lines text)
    → Lines (c ∷ text) (read_lines (c ∷ text))
unfolding Lines read_lines
read_lines-other c text other h = go (read_lines text) h
  where
    go :
        (ls : List Bytes)
        → Lines text ls
        → Lines (c ∷ text) (
            if c == 10
            then (c ∷ []) ∷ ls
            else (elim ls [ [] ↦ (c ∷ []) ∷ [] | k ∷ ks ↦ (c ∷ k) ∷ ks ]))
    go [] (some_line, e, h) = absurd (some_line refl)
    go (l ∷ ls) (some_line, e, h) = rw other ((λ z. cc), ap (◌∷◌ c) e, longer-Ended c l ls h)

read_lines-newline :
    (c : ℕ) (text : Bytes)
    → (c == 10) ≡ true
    → Lines text (read_lines text)
    → Lines (c ∷ text) (read_lines (c ∷ text))
unfolding read_lines
read_lines-newline c text newline h =
    let e : c ≡ 10 = ground (arith, newline) in
    rw newline (rw e (Lines-newline text (read_lines text) h))

read_lines-Lines : (text : Bytes) → Lines text (read_lines text)
unfolding read_lines Lines
read_lines-Lines [] = ((λ z. cc), refl, tt)
read_lines-Lines (c ∷ text) = elim (Bool-cases (c == 10)) [
  | inl newline ↦ read_lines-newline c text newline (read_lines-Lines text)
  | inr other ↦ read_lines-other c text other (read_lines-Lines text)
]

-- The lines that `printOutput` reads are FFmpeg's output, cut up after each newline.
pub read_lines_lem : (text : Bytes) → (joined (read_lines text) ≡ text) × Ended (read_lines text)
unfolding Lines
read_lines_lem text = let (_, e, h) = read_lines-Lines text in (e, h)
