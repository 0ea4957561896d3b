-- ===== src/Templates/Slashes.antt =====
-- util/util.go: the bytes that a video's metadata cannot put into the name of its file.
use ytarchive_raw_go.Prelude.{
  ℕ, zero, suc, ◌≡◌, refl, ◌∙◌, ap, true, false, List, [], ◌∷◌, some, arith, Option-cases, inl, inr,
}
use ytarchive_raw_go.Prelude.Text.{
  Bytes, codes, occurrences, occurrences-append, lookup_text, to_lower,
}
use ytarchive_raw_go.Templates.{
  replace_from, match_of, find_key, is_word, sanitize_filename, sanitize_byte, is_reserved,
  value_for, format_template, formatted,
}
use ytarchive_raw_go.Templates.Replace.{replace-same, find_key-lem}

module _ (b : ℕ) (reserved : is_reserved b ≡ true) where
  sanitize-reserved : (v : Bytes) → occurrences b (sanitize_filename v) ≡ 0
  unfolding sanitize_byte is_reserved
  sanitize-reserved [] = refl
  sanitize-reserved (c ∷ v) = ground (arith, reserved, sanitize-reserved v)

  value-reserved : (key v : Bytes) → occurrences b (value_for true key v) ≡ 0
  unfolding value_for
  value-reserved key v = ground (arith, sanitize-reserved v)

  no_word : is_word b ≡ false
  unfolding is_word is_reserved
  no_word = ground (arith, reserved)

  match-reserved : (key : Bytes) → occurrences b key ≡ 0 → occurrences b (match_of key) ≡ 0
  unfolding is_reserved
  match-reserved key h = ground (arith, reserved, h, occurrences-append b key (codes ")s"))

  kept :
      (fuel : ℕ) (vals : List (Bytes × Bytes)) (template out : Bytes)
      → format_template fuel vals true template ≡ some (formatted out)
      → occurrences b out ≡ occurrences b template
  unfolding format_template
  kept zero vals template out e = cc
  kept (suc fuel) vals template out e = elim (Option-cases (find_key template)) [
    | inl plain ↦ ap (occurrences b) (ground (arith, e, plain))
    | inr (key, found) ↦ elim (Option-cases (lookup_text (to_lower key) vals)) [
      | inl missing ↦ absurd (ground (arith, e, found, missing))
      | inr (v, there) ↦
          let (_, none_in) = find_key-lem b no_word template key found in
          let val = value_for true (to_lower key) v in
          kept fuel vals (replace_from (match_of key) val 0 template) out
            (ground (arith, e, found, there))
          ∙ replace-same b (match_of key) val (omega arith) (match-reserved key none_in)
              (value-reserved (to_lower key) v) 0 template
    ]
  ]

-- The name of a file has as many slashes as its template, and as many of each other byte that
-- `sanitizeFilename` replaces: the metadata of a video adds none of them and takes none away.
pub format_template-reserved :
    (b fuel : ℕ) (vals : List (Bytes × Bytes)) (template out : Bytes)
    → is_reserved b ≡ true
    → format_template fuel vals true template ≡ some (formatted out)
    → occurrences b out ≡ occurrences b template
format_template-reserved b fuel vals template out h = kept b h fuel vals template out
