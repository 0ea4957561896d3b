-- ===== src/Download/ParsedUrl.antt =====
-- download/parsed_url.go: what is read off a URL, and the URL of a segment. net/url is outside: the
-- parts that it parses are arguments.
use ytarchive_raw_go.Prelude.{
  ◌+◌, ◌-◌, ℤ, Bool, true, false, List, [], ◌∷◌, ◌++◌, Option, none, some, ◌==◌, ltb, length, take,
  drop, if◌then◌else◌,
}
use ytarchive_raw_go.Prelude.Text.{Bytes, codes, same, has_prefix, has_suffix}
use ytarchive_raw_go.Prelude.Atoi.{atoi}

-- What net/url makes of the URL: its query's values and its escaped path.
pub record NetUrl : Type 0 where
  pub get : Bytes → Bytes
  pub escaped_path : Bytes

pub data UrlType : Type 0 where
  query : UrlType
  path : UrlType

-- `parsedURL`; `expire` is a time in seconds.
pub record ParsedUrl : Type 0 where
  pub raw : Bytes
  pub expire : Option ℤ
  pub id : Bytes
  pub itag : ℤ
  pub typ : UrlType

pub data Parsed : Type 0 where
  parsed : ParsedUrl → Parsed
  sq_not_last : Parsed
  missing_id : Parsed
  missing_itag : Parsed
  bad_itag : Parsed
  fault : Parsed  -- the call of a nil `findField`

-- `strings.FieldsFunc` with a test for `/`: the parts between slashes that are not empty. `part` is
-- the part so far.
unfoldable pub fields_from : Bytes → Bytes → List Bytes
fields_from part [] = if ltb 0 (length part) then part ∷ [] else []
fields_from part (c ∷ text) =
    let next = fields_from [] text in
    let longer = fields_from (part ++ c ∷ []) text in
    if c == b'/' then (if ltb 0 (length part) then part ∷ next else next) else longer

-- `findField` of a path: names and values in turn.
unfoldable pub find_field : List Bytes → Bytes → Bytes
find_field [] name = []
find_field (k ∷ []) name = []
find_field (k ∷ v ∷ fields) name =
    let rest = find_field fields name in if same k name then v else rest

-- The loop for `hasSq`.
unfoldable pub has_field : List Bytes → Bytes → Bool
has_field [] name = false
has_field (k ∷ []) name = same k name
has_field (k ∷ v ∷ fields) name =
    let rest = has_field fields name in if same k name then true else rest

abbrev pub sq : Bytes
sq = codes "/sq"

-- `p.raw` of a path, without the number of a segment; `none`: `sq` is not the last field.
unfoldable pub path_raw : Bytes → List Bytes → Option Bytes
unfolding has_suffix has_field find_field
path_raw raw fields =
    let val = find_field fields (codes "sq") in
    if has_field fields (codes "sq")
    then if has_suffix raw (sq ++ b'/' ∷ val)
      then some (take (length raw - (length val + 1)) raw)
      else if has_suffix raw sq
      then some raw
      else none
    else some (raw ++ sq)

-- Without a slash at the end.
unfoldable pub trim_slash : Bytes → Bytes
unfolding has_suffix
trim_slash raw = if has_suffix raw (codes "/") then take (length raw - 1) raw else raw

unfoldable pub before_tilde : Bytes → Bytes
before_tilde [] = []
before_tilde (c ∷ cs) = let rest = before_tilde cs in if c == b'~' then [] else c ∷ rest

-- The id up to its first `~`, unless that is its first byte.
unfoldable pub cut_id : Bytes → Bytes
unfolding before_tilde
cut_id [] = []
cut_id (c ∷ cs) = if c == b'~' then c ∷ cs else c ∷ before_tilde cs

-- From `id := findField("id")` on.
unfoldable pub read_fields : (Bytes → Bytes) → Bytes → UrlType → Parsed
unfolding cut_id
read_fields find raw typ =
    if ltb 0 (length (find (codes "id")))
    then if ltb 0 (length (find (codes "itag")))
      then (elim (atoi (find (codes "itag"))) [
        | none ↦ bad_itag
        | some itag ↦ parsed (record {
          raw = raw;
          expire = atoi (find (codes "expire"));
          id = cut_id (find (codes "id"));
          itag = itag;
          typ = typ;
        })
      ])
      else missing_itag
    else missing_id

-- `fields[1:]` of a path.
unfoldable pub path_fields : Bytes → List Bytes
unfolding fields_from
path_fields escaped_path = drop 1 (fields_from [] escaped_path)

-- `parseDownloadURL`, after net/url has parsed the URL.
unfoldable pub parse_download_url : Bytes → NetUrl → Parsed
unfolding path_raw trim_slash read_fields path_fields
parse_download_url raw u =
    if ltb 0 (length (u.get (codes "noclen")))
    then read_fields u.get raw query
    else if has_prefix u.escaped_path (codes "/videoplayback/")
    then (elim (path_raw (trim_slash raw) (path_fields u.escaped_path)) [
      | none ↦ sq_not_last
      | some r ↦ read_fields (find_field (path_fields u.escaped_path)) r path
    ])
    else fault

-- `SegmentURL`, with the digits of the segment's number; `set_sq` is what net/url does to a query.
unfoldable pub segment_url : (Bytes → Bytes → Bytes) → ParsedUrl → Bytes → Bytes
segment_url set_sq p seg = elim p.typ [ query ↦ set_sq p.raw seg | path ↦ p.raw ++ b'/' ∷ seg ]
