-- ===== src/Templates/Ending.antt =====
-- When the loop of `FormatTemplate` ends.
use ytarchive_raw_go.Prelude.{
  ℕ, zero, suc, ◌<◌, ◌≡◌, refl, inl, inr, Bool, true, false, List, [], ◌∷◌, ◌++◌, none, some, arith,
  length, Option-cases,
}
use ytarchive_raw_go.Prelude.Text.{
  Bytes, codes, has_prefix, occurrences, lookup_text, to_lower, to_lower_byte, same,
}
use ytarchive_raw_go.Templates.{
  replace_from, match_of, find_key, key_from, is_word, sanitize_filename, sanitize_byte,
  is_reserved, value_for, format_template, Formatted, formatted, unknown_key,
}
use ytarchive_raw_go.Templates.Replace.{replace-lt, find_key-lem}

-- No value has the byte.
abbrev pub NoneHas : ℕ → List (Bytes × Bytes) → Type 0
NoneHas b [] = Unit {0}
NoneHas b ((k, v) ∷ vals) = (occurrences b v ≡ 0) × NoneHas b vals

lookup-NoneHas :
    (b : ℕ) (key v : Bytes) (vals : List (Bytes × Bytes))
    → NoneHas b vals
    → lookup_text key vals ≡ some v
    → occurrences b v ≡ 0
unfolding lookup_text
lookup-NoneHas b key v [] h e = cc
lookup-NoneHas b key v ((k, w) ∷ vals) (none_in, h) e =
    ground (arith, e, none_in, lookup-NoneHas b key v vals h)

sanitize-percent : (v : Bytes) → occurrences b'%' v ≡ 0 → occurrences b'%' (sanitize_filename v) ≡ 0
unfolding sanitize_byte is_reserved
sanitize-percent [] h = refl
sanitize-percent (c ∷ v) h = ground (arith, h, sanitize-percent v)

value-percent :
    (filename : Bool) (key v : Bytes)
    → occurrences b'%' v ≡ 0
    → occurrences b'%' (value_for filename key v) ≡ 0
unfolding value_for
value-percent filename key v h = ground (arith, h, sanitize-percent v h)

match-percent : (key : Bytes) → 0 < occurrences b'%' (match_of key)
match-percent key = omega arith

match-length : (key : Bytes) → 0 < length (match_of key)
match-length key = omega arith

percent_word : is_word b'%' ≡ false
unfolding is_word
percent_word = refl

-- What the loop gives when it has ended: text without a key, or a key that has no value.
abbrev pub IsDone : List (Bytes × Bytes) → Formatted → Type 0
IsDone vals (formatted text) = find_key text ≡ none
IsDone vals (unknown_key key) = lookup_text key vals ≡ none

-- If no value has a percent sign, the loop of `FormatTemplate` ends after at most one iteration for
-- each percent sign of the template and one more: with a text in which no key is left, or with a key
-- that has no value.
pub format_template-ends :
    (fuel : ℕ) (vals : List (Bytes × Bytes)) (filename : Bool) (template : Bytes)
    → NoneHas b'%' vals
    → occurrences b'%' template < fuel
    → (r : Formatted) × (format_template fuel vals filename template ≡ some r) × IsDone vals r
unfolding format_template
format_template-ends zero vals filename template h enough = absurd (omega arith)
format_template-ends (suc fuel) vals filename template h enough =
    elim (Option-cases (find_key template)) [
      | inl plain ↦ (formatted template, rw (plain, format_template), plain)
      | inr (key, found) ↦ elim (Option-cases (lookup_text (to_lower key) vals)) [
        | inl missing ↦ (unknown_key (to_lower key), rw (found, missing, format_template), missing)
        | inr (v, e) ↦
            let val = value_for filename (to_lower key) v in
            let (there, _) = find_key-lem b'%' percent_word template key found in
            let (r, q, fits) =
              format_template-ends fuel vals filename (replace_from (match_of key) val 0 template) h
                (omega (
                  arith,
                  enough,
                  replace-lt b'%' (match_of key) val (match-length key)
                      (value-percent filename (to_lower key) v
                        (lookup-NoneHas b'%' (to_lower key) v vals h e))
                      (match-percent key) template there,
                )) in
            (r, rw (found, e, format_template) q, fits)
      ]
    ]

abbrev own_key : Bytes
own_key = codes "%(title)s"

-- A title that starts with its own key makes the loop run for ever, whatever the fuel, on a template
-- that starts with that key.
pub format_template-loops :
    (fuel : ℕ) (vals : List (Bytes × Bytes)) (filename : Bool) (more rest : Bytes)
    → lookup_text (codes "title") vals ≡ some (codes "%(title)s" ++ more)
    → format_template fuel vals filename (codes "%(title)s" ++ rest) ≡ none
unfolding format_template find_key key_from is_word has_prefix replace_from value_for sanitize_byte
    is_reserved same to_lower_byte
format_template-loops zero vals filename more rest e = refl
format_template-loops (suc fuel) vals true more rest e =
    rw (e, format_template)
      (format_template-loops fuel vals true more
        (sanitize_filename more ++ replace_from own_key (own_key ++ sanitize_filename more) 0 rest)
        e)
format_template-loops (suc fuel) vals false more rest e =
    rw (e, format_template)
      (format_template-loops fuel vals false more
        (more ++ replace_from own_key (own_key ++ more) 0 rest) e)
