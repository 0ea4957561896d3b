-- ===== src/Templates.antt =====
-- util/util.go: `FormatTemplate`, which puts the metadata of a video into the name of its file.
pub mod Replace
pub mod Ending
pub mod Slashes
mod Tests
use ytarchive_raw_go.Prelude.{
  ℕ, zero, suc, ◌+◌, ◌-◌, Bool, true, false, not, ◌&&◌, ◌||◌, List, [], ◌∷◌, ◌++◌, map, Option,
  none, some, ◌==◌, ltb, leb, if◌then◌else◌, length, drop,
}
use ytarchive_raw_go.Prelude.Text.{Bytes, codes, same, has_prefix, to_lower, lookup_text}

-- `FregMetadata`, with the start time as `Format("20060102")` and `Format(time.RFC3339)` write it.
pub record FregMetadata : Type 0 where
  pub title : Bytes
  pub id : Bytes
  pub channel_name : Bytes
  pub channel_url : Bytes
  pub description : Bytes
  pub start_date : Bytes
  pub start_timestamp : Bytes

-- A byte that `\w` matches.
unfoldable pub is_word : ℕ → Bool
is_word c =
    (leb b'a' c && leb c b'z')
    || ((leb b'A' c && leb c b'Z') || ((leb b'0' c && leb c b'9') || c == b'_'))

-- The group `([a-zA-Z0-9\-_]+)$`: the whole text, which is not empty.
unfoldable pub is_channel_id : Bytes → Bool
unfolding is_word
is_channel_id [] = true
is_channel_id (c ∷ cs) = (is_word c || c == b'-') && is_channel_id cs

-- `(?:www\.)youtube.com/channel/` and the group, where a dot that is not escaped is any
-- byte but a newline.
unfoldable pub channel_after_scheme : Bytes → Option Bytes
unfolding has_prefix is_channel_id
channel_after_scheme url =
    let rest = drop 24 url in
    if has_prefix url (codes "www.youtube")
      && ((ltb 11 (length url) && not (has_prefix (drop 11 url) (10 ∷ [])))
          && (has_prefix (drop 12 url) (codes "com/channel/")
              && (ltb 0 (length rest) && is_channel_id rest)))
    then some rest
    else none

-- The id in `https?://(?:www\.)youtube.com/channel/([a-zA-Z0-9\-_]+)`.
unfoldable pub channel_id : Bytes → Option Bytes
unfolding channel_after_scheme
channel_id url =
    if has_prefix url (codes "http://")
    then channel_after_scheme (drop 7 url)
    else if has_prefix url (codes "https://")
    then channel_after_scheme (drop 8 url)
    else none

-- `fillFormatVals`; `none`: the program ends, the URL of the channel cannot be parsed.
unfoldable pub fill_format_vals : FregMetadata → Option (List (Bytes × Bytes))
unfolding channel_id
fill_format_vals m = elim (channel_id m.channel_url) [
  | none ↦ none
  | some channel ↦ some (
      (codes "id", m.id)
      ∷ (codes "url", codes "https://youtu.be/" ++ m.id)
      ∷ (codes "title", m.title)
      ∷ (codes "channel", m.channel_name)
      ∷ (codes "upload_date", m.start_date)
      ∷ (codes "start_date", m.start_date)
      ∷ (codes "publish_date", m.start_date)
      ∷ (codes "start_timestamp", m.start_timestamp)
      ∷ (codes "description", m.description)
      ∷ (codes "channel_url", m.channel_url)
      ∷ (codes "channel_id", channel)
      ∷ [])
]

-- The bytes that `fnameReplacer` replaces.
unfoldable pub is_reserved : ℕ → Bool
is_reserved c =
    c == b'<'
    || (c == b'>'
        || (c == b':'
            || (c == b'"'
                || (c == b'/' || (c == b'\\' || (c == b'|' || (c == b'?' || c == b'*')))))))

unfoldable pub sanitize_byte : ℕ → ℕ
unfolding is_reserved
sanitize_byte c = if is_reserved c then b'_' else c

abbrev pub sanitize_filename : Bytes → Bytes
sanitize_filename = map sanitize_byte

-- `(\w+)\)s` at the start of a text: the group. `key` is what `\w+` has matched so far.
unfoldable pub key_from : Bytes → Bytes → Option Bytes
unfolding has_prefix is_word
key_from key [] = none
key_from key (c ∷ cs) =
    let longer = key_from (key ++ c ∷ []) cs in
    if is_word c
    then longer
    else if ltb 0 (length key) && has_prefix (c ∷ cs) (codes ")s")
    then some key
    else none

-- `FindStringSubmatch` for `%\((\w+)\)s`: the group of the first match.
unfoldable pub find_key : Bytes → Option Bytes
unfolding key_from
find_key [] = none
find_key (c ∷ text) =
    let rest = find_key text in
    let here = if has_prefix (c ∷ text) (codes "%(") then key_from [] (drop 1 text) else none in
    elim here [ some key ↦ some key | none ↦ rest ]

-- `match[0]`
abbrev pub match_of : Bytes → Bytes
match_of key = codes "%(" ++ (key ++ codes ")s")

-- `strings.ReplaceAll(text, old, val)` where `old` is not empty, with `skip` bytes of a match still to
-- be left out.
unfoldable pub replace_from : Bytes → Bytes → ℕ → Bytes → Bytes
unfolding has_prefix
replace_from old val skip [] = []
replace_from old val (suc skip) (c ∷ text) = replace_from old val skip text
replace_from old val zero (c ∷ text) =
    let kept = replace_from old val 0 text in
    let rest = replace_from old val (length old - 1) text in
    if has_prefix (c ∷ text) old then val ++ rest else c ∷ kept

-- What replaces a key.
unfoldable pub value_for : Bool → Bytes → Bytes → Bytes
unfolding same
value_for filename key val =
    let shown =
      if filename
        && (same key (codes "description")
            || (same key (codes "url") || same key (codes "channel_url")))
      then []
      else val in
    if filename then sanitize_filename shown else shown

pub data Formatted : Type 0 where
  formatted : Bytes → Formatted
  unknown_key : Bytes → Formatted

-- The loop of `FormatTemplate`; `none`: out of fuel.
unfoldable pub format_template : ℕ → List (Bytes × Bytes) → Bool → Bytes → Option Formatted
unfolding find_key replace_from value_for lookup_text
format_template zero vals filename template = none
format_template (suc fuel) vals filename template = elim (find_key template) [
  | none ↦ some (formatted template)
  | some match ↦ elim (lookup_text (to_lower match) vals) [
    | none ↦ some (unknown_key (to_lower match))
    | some val ↦
        format_template fuel vals filename
          (replace_from (match_of match) (value_for filename (to_lower match) val) 0 template)
  ]
]
