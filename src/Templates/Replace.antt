-- ===== src/Templates/Replace.antt =====
-- What `strings.ReplaceAll` does to the counts of bytes.
use ytarchive_raw_go.Prelude.{
  ℕ, zero, suc, ◌+◌, ◌-◌, ◌≤◌, ◌<◌, ◌≡◌, refl, sym, subst, ◌∙◌, ap, inl, inr, true, false, [], ◌∷◌,
  ◌++◌, some, arith, length, drop, Bool-cases, Option-cases,
}
use ytarchive_raw_go.Prelude.Text.{
  Bytes, codes, contains, has_prefix, occurrences, occurrences-append,
}
use mathlib.Core.List.{append-nil, append_assoc}
use ytarchive_raw_go.Templates.{replace_from, match_of, key_from, find_key, is_word}

-- The bytes of a prefix, and those after it.
pub occurrences-prefix :
    (b : ℕ) (text part : Bytes)
    → has_prefix text part ≡ true
    → occurrences b text ≡ occurrences b part + occurrences b (drop (length part) text)
unfolding has_prefix
occurrences-prefix b text [] h = omega arith
occurrences-prefix b [] (y ∷ part) h = absurd (ground (arith, h))
occurrences-prefix b (x ∷ text) (y ∷ part) h =
    ground (arith, h, occurrences-prefix b text part (ground (arith, h)))

module _ (b : ℕ) (old val : Bytes) (some_old : 0 < length old) where
  matched :
      (c : ℕ) (text : Bytes)
      → has_prefix (c ∷ text) old ≡ true
      → occurrences b (c ∷ text) ≡ occurrences b old + occurrences b (drop (length old - 1) text)
  matched c text h =
      let n : length old ≡ suc (length old - 1) = omega (arith, some_old) in
      occurrences-prefix b (c ∷ text) old h
      ∙ ap (λ m. occurrences b old + occurrences b (drop m (c ∷ text))) n

  -- If neither the replaced text nor what replaces it has the byte, its count stays.
  pub replace-same :
      occurrences b old ≡ 0
      → occurrences b val ≡ 0
      → (skip : ℕ) (text : Bytes)
      → occurrences b (replace_from old val skip text) ≡ occurrences b (drop skip text)
  unfolding replace_from
  replace-same ho hv zero [] = refl
  replace-same ho hv (suc skip) [] = refl
  replace-same ho hv (suc skip) (c ∷ text) = replace-same ho hv skip text
  replace-same ho hv zero (c ∷ text) = elim (Bool-cases (has_prefix (c ∷ text) old)) [
    | inl here ↦ rw here (
        omega (
          arith,
          matched c text here,
          ho,
          hv,
          replace-same ho hv (length old - 1) text,
          occurrences-append b val (replace_from old val (length old - 1) text),
        ))
    | inr away ↦ rw away (omega (arith, replace-same ho hv 0 text))
  ]

  -- If what replaces has none of the byte, there are no more of it than before, and fewer if something
  -- with the byte is replaced.
  pub replace-le :
      occurrences b val ≡ 0
      → (skip : ℕ) (text : Bytes)
      → occurrences b (replace_from old val skip text) ≤ occurrences b (drop skip text)
  unfolding replace_from
  replace-le hv zero [] = omega arith
  replace-le hv (suc skip) [] = omega arith
  replace-le hv (suc skip) (c ∷ text) = replace-le hv skip text
  replace-le hv zero (c ∷ text) = elim (Bool-cases (has_prefix (c ∷ text) old)) [
    | inl here ↦ rw here (
        omega (
          arith,
          matched c text here,
          hv,
          replace-le hv (length old - 1) text,
          occurrences-append b val (replace_from old val (length old - 1) text),
        ))
    | inr away ↦ rw away (omega (arith, replace-le hv 0 text))
  ]

  pub replace-lt :
      occurrences b val ≡ 0
      → 0 < occurrences b old
      → (text : Bytes) → contains text old ≡ true
      → occurrences b (replace_from old val 0 text) < occurrences b text
  unfolding replace_from contains
  replace-lt hv ho [] h = absurd (omega (arith, some_old, no_prefix old h))
    where
      no_prefix : (part : Bytes) → has_prefix [] part ≡ true → length part ≡ 0
      no_prefix [] h = refl
      no_prefix (x ∷ part) h = absurd (ground (arith, h))
  replace-lt hv ho (c ∷ text) h = elim (Bool-cases (has_prefix (c ∷ text) old)) [
    | inl here ↦ rw here (
        omega (
          arith,
          matched c text here,
          ho,
          hv,
          replace-le hv (length old - 1) text,
          occurrences-append b val (replace_from old val (length old - 1) text),
        ))
    | inr away ↦ rw away (omega (arith, replace-lt hv ho text (ground (arith, h, away))))
  ]

-- A key that was found is a word, and stands in the text with its marks around it.
module _ (b : ℕ) (mark : is_word b ≡ false) where
  key_from-lem :
      (pre text key : Bytes)
      → key_from pre text ≡ some key
      → (rest : Bytes) × (key ≡ pre ++ rest)
        × (has_prefix text (rest ++ codes ")s") ≡ true)
        × (occurrences b rest ≡ 0)
  unfolding key_from has_prefix
  key_from-lem pre [] key h = cc
  key_from-lem pre (c ∷ cs) key h = elim (Bool-cases (is_word c)) [
    | inl word ↦
        let (rest, e, at, none_in) =
          key_from-lem (pre ++ c ∷ []) cs key (ground (arith, h, word)) in
        (
          c ∷ rest,
          e ∙ append_assoc pre (c ∷ []) rest,
          ground (arith, at),
          differs c rest word none_in,
        )
    | inr other ↦
        ([], sym (ground (arith, h, other)) ∙ sym (append-nil pre), ground (arith, h, other), refl)
  ]
    where
      differs :
          (c : ℕ) (rest : Bytes)
          → is_word c ≡ true
          → occurrences b rest ≡ 0
          → occurrences b (c ∷ rest) ≡ 0
      differs c rest word e = ground (arith, word, mark, e)

  whole_match :
      (c : ℕ) (text key : Bytes)
      → has_prefix (c ∷ text) (codes "%(") ≡ true
      → has_prefix (drop 1 text) (key ++ codes ")s") ≡ true
      → has_prefix (c ∷ text) (match_of key) ≡ true
  unfolding has_prefix
  whole_match c [] key h at = absurd (ground (arith, h))
  whole_match c (d ∷ text) key h at = ground (arith, h, at)

  pub find_key-lem :
      (text key : Bytes)
      → find_key text ≡ some key
      → (contains text (match_of key) ≡ true) × (occurrences b key ≡ 0)
  unfolding find_key contains
  find_key-lem [] key h = cc
  find_key-lem (c ∷ text) key h = elim (Bool-cases (has_prefix (c ∷ text) (codes "%("))) [
    | inr away ↦
        let (there, none_in) = find_key-lem text key (ground (arith, h, away)) in
        (ground (arith, there), none_in)
    | inl opened ↦ elim (Option-cases (key_from [] (drop 1 text))) [
      | inl open_only ↦
          let (there, none_in) = find_key-lem text key (ground (arith, h, opened, open_only)) in
          (ground (arith, there), none_in)
      | inr (found, e) ↦
          let same_key : found ≡ key = ground (arith, h, opened, e) in
          let (rest, split, at, none_in) = key_from-lem [] (drop 1 text) found e in
          let eq : rest ≡ key = sym split ∙ same_key in
          let here : has_prefix (c ∷ text) (match_of rest) ≡ true =
            whole_match c text rest opened at in
          (
            ground (arith, subst (λ k. has_prefix (c ∷ text) (match_of k) ≡ true) eq here),
            subst (λ k. occurrences b k ≡ 0) eq none_in,
          )
    ]
  ]
