-- ===== src/Templates/Tests.antt =====
-- `FormatTemplate` at concrete inputs.
use ytarchive_raw_go.Prelude.{◌≡◌, refl, List, [], ◌∷◌, ◌++◌, some, none, true, arith}
use ytarchive_raw_go.Prelude.Text.{
  Bytes, codes, same, occurrences, to_lower_byte, has_prefix, lookup_text,
}
use ytarchive_raw_go.Templates.{
  channel_id, format_template, Formatted, formatted, is_reserved, find_key, key_from, is_word,
  replace_from, value_for, sanitize_byte,
}
use ytarchive_raw_go.Templates.Ending.{IsDone, format_template-ends, format_template-loops}
use ytarchive_raw_go.Templates.Slashes.{format_template-reserved}

abbrev vals : List (Bytes × Bytes)
vals = (codes "title", codes "a/b") ∷ (codes "id", codes "x") ∷ []

abbrev template : Bytes
template = codes "d/%(Title)s"

-- The slash of the title goes, the one of the template stays.
format_slashes : format_template 2 vals true template ≡ some (formatted (codes "d/a_b"))
unfolding format_template find_key key_from is_word has_prefix replace_from value_for sanitize_byte
    is_reserved same to_lower_byte
format_slashes = refl

-- The `www.` is needed.
no_channel_id : channel_id (codes "https://youtube.com/channel/UC") ≡ none
unfolding channel_id has_prefix
no_channel_id = refl

format_template_ends_example :
    (r : Formatted) × (format_template 2 vals true template ≡ some r) × IsDone vals r
format_template_ends_example =
    format_template-ends 2 vals true template (refl, (refl, tt)) (omega arith)

abbrev own : List (Bytes × Bytes)
own = (codes "title", codes "%(title)s" ++ codes "!") ∷ []

format_template_loops_example :
    format_template 1000 own true (codes "%(title)s" ++ codes ".mkv") ≡ none
unfolding lookup_text
format_template_loops_example = format_template-loops 1000 own true (codes "!") (codes ".mkv") refl

format_template_reserved_example :
    occurrences b'/' (codes "d/a_b") ≡ occurrences b'/' (codes "d/%(Title)s")
unfolding is_reserved
format_template_reserved_example =
    format_template-reserved b'/' 2 vals template (codes "d/a_b") refl format_slashes
