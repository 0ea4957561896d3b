-- ===== src/Download/SegmentUrl.antt =====
-- The URL of a segment, from the URL that was given.
use ytarchive_raw_go.Prelude.{
  ◌+◌, ◌-◌, ◌≡◌, refl, ◌∙◌, ap, sym, ◌⊎◌, inl, inr, true, List, [], ◌∷◌, ◌++◌, some, arith, ltb,
  length, length-append, take, Bool-cases, Option-cases,
}
use ytarchive_raw_go.Prelude.Text.{Bytes, codes, same, has_prefix, has_suffix, eq_of_same}
use mathlib.Core.List.{append_assoc}
use ytarchive_raw_go.Download.ParsedUrl.{
  find_field, has_field, sq, path_raw, trim_slash, read_fields, path_fields, parse_download_url,
  segment_url, NetUrl, UrlType, query, path, ParsedUrl, parsed,
}

has_suffix-split :
    (text part : Bytes) → has_suffix text part ≡ true → (before : Bytes) × (text ≡ before ++ part)
unfolding has_suffix
has_suffix-split [] part h = ([], eq_of_same [] part h)
has_suffix-split (x ∷ xs) part h = elim (Bool-cases (same (x ∷ xs) part)) [
  | inl whole ↦ ([], eq_of_same (x ∷ xs) part whole)
  | inr later ↦
      let (before, e) = has_suffix-split xs part (ground (arith, h, later)) in
      (x ∷ before, ap (◌∷◌ x) e)
]

take_left : (xs ys : Bytes) → take (length xs) (xs ++ ys) ≡ xs
take_left [] ys = refl
take_left (x ∷ xs) ys = ap (◌∷◌ x) (take_left xs ys)

-- Cutting the number of a segment and the slash before it off a URL.
take-sq :
    (base val : Bytes)
    → let raw = base ++ (sq ++ b'/' ∷ val) in take (length raw - (length val + 1)) raw ≡ base ++ sq
take-sq base val =
    let long = length-append base (sq ++ b'/' ∷ val) in
    let short = length-append base sq in
    let n : length (base ++ (sq ++ b'/' ∷ val)) - (length val + 1) ≡ length (base ++ sq) =
      omega (arith, long, short) in
    ap (λ m. take m (base ++ (sq ++ b'/' ∷ val))) n
    ∙ (ap (take (length (base ++ sq))) (sym (append_assoc base sq (b'/' ∷ val)))
        ∙ take_left (base ++ sq) (b'/' ∷ val))

-- `raw` is `base` with nothing, `/sq` or `/sq` and a number after it.
abbrev pub Extends : Bytes → Bytes → Type 0
Extends base raw =
    (raw ≡ base) ⊎ ((raw ≡ base ++ sq) ⊎ ((val : Bytes) × (raw ≡ base ++ (sq ++ b'/' ∷ val))))

path_raw-Extends :
    (raw : Bytes) (fields : List Bytes) (r : Bytes)
    → path_raw raw fields ≡ some r
    → (base : Bytes) × (r ≡ base ++ sq) × Extends base raw
unfolding path_raw
path_raw-Extends raw fields r h = elim (Bool-cases (has_field fields (codes "sq"))) [
  | inr new ↦ (raw, ground (arith, h, new), inl refl)
  | inl named ↦
      let val = find_field fields (codes "sq") in
      elim (Bool-cases (has_suffix raw (sq ++ b'/' ∷ val))) [
        | inl numbered ↦
            let (base, e) = has_suffix-split raw (sq ++ b'/' ∷ val) numbered in
            let cut : r ≡ take (length raw - (length val + 1)) raw =
              ground (arith, h, named, numbered) in
            (
              base,
              cut ∙ (ap (λ x. take (length x - (length val + 1)) x) e ∙ take-sq base val),
              inr (inr (val, e)),
            )
        | inr other ↦ elim (Bool-cases (has_suffix raw sq)) [
          | inl bare ↦
              let (base, e) = has_suffix-split raw sq bare in
              (base, ground (arith, h, named, other, bare, e), inr (inl e))
          | inr wrong ↦ absurd (ground (arith, h, named, other, wrong))
        ]
      ]
]

read_fields-typ :
    (find : Bytes → Bytes) (raw : Bytes) (typ : UrlType) (p : ParsedUrl)
    → read_fields find raw typ ≡ parsed p
    → (p.raw ≡ raw) × (p.typ ≡ typ)
unfolding read_fields
read_fields-typ find raw typ p h = ground (arith, h)

-- If `parseDownloadURL` reads a URL with a path, the URL of a segment is the one that was given, less
-- a slash at the end and less `sq` and its value, then `/sq/` and the number of the segment.
pub segment_url_lem :
    (set_sq : Bytes → Bytes → Bytes) (raw : Bytes) (u : NetUrl) (p : ParsedUrl) (seg : Bytes)
    → parse_download_url raw u ≡ parsed p
    → p.typ ≡ path
    → (base : Bytes) × (segment_url set_sq p seg ≡ base ++ (sq ++ b'/' ∷ seg))
      × Extends base (trim_slash raw)
unfolding parse_download_url segment_url
segment_url_lem set_sq raw u p seg h on_path =
    elim (Bool-cases (ltb 0 (length (u.get (codes "noclen"))))) [
      | inl q ↦ absurd (ground (arith, h, q, on_path, read_fields-typ u.get raw query p))
      | inr no_query ↦ elim (Bool-cases (has_prefix u.escaped_path (codes "/videoplayback/"))) [
        | inr unknown ↦ absurd (ground (arith, h, no_query, unknown))
        | inl is_path ↦
            let fields = path_fields u.escaped_path in
            elim (Option-cases (path_raw (trim_slash raw) fields)) [
              | inl misplaced ↦ absurd (ground (arith, h, no_query, is_path, misplaced))
              | inr (r, e) ↦
                  let fits =
                    read_fields-typ (find_field fields) r path p
                      (ground (arith, h, no_query, is_path, e)) in
                  let (base, ends, rest) = path_raw-Extends (trim_slash raw) fields r e in
                  (
                    base,
                    rw (on_path, segment_url, fits.0, ends) (append_assoc base sq (b'/' ∷ seg)),
                    rest,
                  )
            ]
      ]
    ]
