-- ===== src/Import/File.antt =====
-- Export to and import from a JSON file: `handleExport` and `handleFileSelected` of
-- front/components/use-roster-import-export.ts. `JSON.stringify`, `JSON.parse`, the answer of the
-- champion search and today's date are arguments.
pub mod Sorting
pub mod Unique
pub mod Roundtrip
use mawster.Base.{
  ℕ, ◌<◌, Text, Num, List, [], ◌∷◌, ◌++◌, Option, none, some, Bool, true, false, not, ◌&&◌, ◌||◌,
  ◌!=◌, ◌==◌, bool_eq, nat_eq, map, length, is_empty, codes, ltb, leb, or_else, whole, sort_by,
  if◌then◌else◌,
}
use mawster.Rarity.{rarity_sort_value}
use mawster.Roster.{RosterEntry, Champion}
use mawster.Import.Dedup.{RosterImportEntry, deduplicate_entries}
use mawster.Import.Preview.{PreviewRow, fetch_champion_lookup, build_preview_row}
use mawster.Import.Json.{
  Json, null, bool, num, str, arr, obj, Items, nil, cons, Fields, end, field, ImportError, Parsed,
  parse_and_validate_entries,
}

unfoldable pub to_export : RosterEntry → RosterImportEntry
to_export e = record {
  champion_name = e.champion_name;
  rarity = e.rarity;
  signature = e.signature;
  is_preferred_attacker = some e.is_preferred_attacker;
  ascension = or_else e.ascension (whole 0);
}

-- The object literal of an export entry; its flag is always a Boolean.
abbrev fields_of : RosterImportEntry → Fields
fields_of e = field (codes "champion_name") (str e.champion_name) (
    field (codes "rarity") (str e.rarity) (
      field (codes "signature") (num e.signature) (
        field (codes "is_preferred_attacker") (bool (or_else e.is_preferred_attacker false))
          (field (codes "ascension") (num e.ascension) end))))

abbrev pub to_json : RosterImportEntry → Json
to_json e = obj (fields_of e)

abbrev pub to_items : List RosterImportEntry → Items
to_items [] = nil
to_items (e ∷ entries) = cons (to_json e) (to_items entries)

-- The class `[a-zA-Z0-9_-]`
abbrev is_name_char : ℕ → Bool
is_name_char c =
    leb b'a' c && leb c b'z'
    || leb b'A' c && leb c b'Z'
    || leb b'0' c && leb c b'9'
    || c == b'_'
    || c == b'-'

abbrev safe_char : ℕ → ℕ
safe_char c = if is_name_char c then c else b'_'

pub data Exported : Type 0 where
  empty_export : Exported
  -- the file's name, its text, and the count that the toast shows
  downloaded : Text → Text → ℕ → Exported

unfoldable pub handle_export : (Json → Text) → Text → Text → List RosterEntry → Exported
handle_export stringify today account_name roster =
    let entries = map to_export roster in
    if is_empty roster
    then empty_export
    else downloaded
        (codes "roster_" ++ (map safe_char account_name ++ (b'_' ∷ today ++ codes ".json")))
        (stringify (arr (to_items entries))) (length entries)

pub data FileError : Type 0 where
  invalid_json not_array empty_file file_read_error : FileError
  all_invalid : List ImportError → FileError

pub data ParsedFile : Type 0 where
  items : Items → ParsedFile
  refused : FileError → ParsedFile

abbrev as_items : Option Json → ParsedFile
as_items none = refused invalid_json
as_items (some (arr nil)) = refused empty_file
as_items (some (arr (cons v vs))) = items (cons v vs)
as_items (some _) = refused not_array

unfoldable pub parse_json_file : (Text → Option Json) → Text → ParsedFile
parse_json_file parse text = as_items (parse text)

-- The comparator of `rows.sort`: whether it puts `a` strictly before `b`.
unfoldable pub comes_before : PreviewRow → PreviewRow → Bool
comes_before a b =
    if a.is_new != b.is_new
    then a.is_new
    else if a.has_changes != b.has_changes
    then a.has_changes
    else ltb (rarity_sort_value b.new_rarity) (rarity_sort_value a.new_rarity)

pub data FileSelected : Type 0 where
  no_file : FileSelected
  toast_error : FileError → FileSelected
  -- the number of items that the warning says were skipped (0: no warning), and the rows
  preview_opened : ℕ → List PreviewRow → FileSelected

-- The file as the browser gives it: `unreadable` where `file.text()` rejects.
pub data SelectedFile : Type 0 where
  nothing_selected unreadable : SelectedFile
  readable : Text → SelectedFile

module _ (lower : Text → Text) (search : Option (List Champion)) (roster : List RosterEntry) where
  unfoldable pub preview_rows : List RosterImportEntry → List PreviewRow
  preview_rows entries =
      let unique_entries = deduplicate_entries lower entries in
      let lookup = fetch_champion_lookup lower search unique_entries roster in
      sort_by comes_before (map (λ e. build_preview_row lower e roster lookup) unique_entries)

  unfoldable pub handle_items : Items → FileSelected
  handle_items parsed =
      let p = parse_and_validate_entries parsed in
      if not (is_empty p.errors) && is_empty p.entries
      then toast_error (all_invalid p.errors)
      else preview_opened (length p.errors) (preview_rows p.entries)

  unfoldable pub handle_file_selected : (Text → Option Json) → SelectedFile → FileSelected
  handle_file_selected parse nothing_selected = no_file
  handle_file_selected parse unreadable = toast_error file_read_error
  handle_file_selected parse (readable text) = elim (parse_json_file parse text) [
    | refused x ↦ toast_error x
    | items parsed ↦ handle_items parsed
  ]
