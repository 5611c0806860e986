-- ===== src/Import/Tests.antt =====
-- The import at concrete inputs.
use mawster.Base.{
  ◌⊎◌, filter, map_set, ℕ, ◌≤◌, ◌≡◌, refl, ◌↔◌, Text, whole, List, [], ◌∷◌, Option, none, some,
  true, false, ◌==◌, text_eq, text_beq, text_beq_iff, codes, map, length, replicate, count, find,
  find_last, any, arith, All, get_elem?, starts_with,
}
use mathlib.Core.Bool.{false≢true}
use mawster.Roster.{RosterEntry}
use mawster.Import.Dedup.{RosterImportEntry, dedup_key, dedup_from, deduplicate_entries}
use mawster.Import.Dedup.Last.{deduplicate_entries_last}
use mawster.Import.Preview.{PreviewRow, build_preview_row, find_roster_match, differs}
use mawster.Import.Preview.Diff.{IsRedundant, is_sent-IsRedundant}
use mawster.Import.Execute.{ImportCore, is_saved, saved, is_sent, to_bulk, execute_import}
use mawster.Import.Json.{
  Json, arr, null, Items, nil, cons, error, invalid_rarity, is_importable, validate_item,
}
use mawster.Import.File.{
  to_export, to_items, to_json, handle_export, handle_file_selected, readable, preview_opened,
}
use mawster.Import.File.Roundtrip.{
  IsExportable, handle_file_selected-handle_export, validate_item-7r6,
}
use mawster.Import.Vision.{PreviewRowPatch, on_row_change}
use mawster.Import.Vision.{to_confirmed, on_confirmed}
use mawster.Import.Vision.Archive.{execute_vision_import, execute_vision_import-archives}
use mawster.Import.Vision.Edit.{on_row_change-renamed}
use mawster.Import.Vision.Poll.{
  Vision, ticked, answer, other_status, poll_import, tick, answered, react, react_all, requests,
}
use mawster.Import.Vision.Poll.Bounds.{rounds, react_all-at_most_120, react_all-rounds_end}

-- Letters in lower case, for the texts below.
abbrev lower : Text → Text
lower s = s

abbrev entry_named : Text → Text → ℕ → RosterEntry
entry_named name rarity signature = record {
  id = codes "1";
  game_account_id = codes "a";
  champion_id = codes "c";
  rarity = rarity;
  signature = whole signature;
  champion_name = name;
  champion_class = codes "Skill";
  alias = none;
  image_url = none;
  is_preferred_attacker = true;
  ascension = some (whole 1);
  is_ascendable = true;
  has_prefight = false;
  is_saga_attacker = false;
  is_saga_defender = false;
}

abbrev roster : List RosterEntry
roster =
    entry_named (codes "thor") (codes "6r5") 20 ∷ entry_named (codes "thor") (codes "7r2") 0 ∷ []

abbrev wanted : Text → Text → RosterImportEntry
wanted name rarity = record {
  champion_name = name;
  rarity = rarity;
  signature = whole 20;
  is_preferred_attacker = none;
  ascension = whole 1;
}

abbrev entries : List RosterImportEntry
entries =
    wanted (codes "thor") (codes "6r4")
    ∷ wanted (codes "hulk") (codes "7r1")
    ∷ wanted (codes "thor") (codes "6r5")
    ∷ []

-- The last entry of a key replaces the first, in its place.
dedup_replaces :
    deduplicate_entries lower entries
    ≡ wanted (codes "thor") (codes "6r5") ∷ wanted (codes "hulk") (codes "7r1") ∷ []
unfolding deduplicate_entries dedup_from dedup_key map_set text_beq
dedup_replaces = refl

deduplicate_entries_last_example :
    (count (λ e. dedup_key lower e == codes "thor_6") (deduplicate_entries lower entries) ≤ 1)
    × (find (λ e. dedup_key lower e == codes "thor_6") (deduplicate_entries lower entries)
        ≡ find_last (λ e. dedup_key lower e == codes "thor_6") entries)
deduplicate_entries_last_example = deduplicate_entries_last lower entries (codes "thor_6")

abbrev row_for : RosterImportEntry → PreviewRow
row_for e = build_preview_row lower e roster []

-- Thor's 6-star entry has that signature and ascension already; at 6r4 it would change.
rows_sent : map is_sent (map row_for entries) ≡ true ∷ true ∷ false ∷ []
unfolding build_preview_row find_roster_match differs starts_with text_beq
rows_sent = refl

is_sent-IsRedundant_example :
    (is_sent (row_for (wanted (codes "thor") (codes "6r5"))) ≡ false)
    ↔ IsRedundant lower roster
        (to_bulk lower roster (row_for (wanted (codes "thor") (codes "6r5"))))
is_sent-IsRedundant_example =
    is_sent-IsRedundant lower roster [] (wanted (codes "thor") (codes "6r5"))

-- A preview of the rows above, about to be imported.
abbrev core : List PreviewRow → ImportCore
core rows = record {
  preview_open = true;
  preview_rows = rows;
  importing = false;
  report_open = false;
  import_results = [];
}

some_row_sent : any is_sent (map row_for entries) ≡ true
unfolding build_preview_row find_roster_match differs starts_with text_beq
some_row_sent = refl

abbrev unchanged_rows : List PreviewRow
unchanged_rows = row_for (wanted (codes "thor") (codes "6r5")) ∷ []

abbrev parsed : Items
parsed = cons null (cons (to_json (wanted (codes "thor") (codes "6r5"))) nil)

validate_item-7r6_example :
    validate_item (to_json (to_export (entry_named (codes "thor") (codes "7r6") 200))) 1
    ≡ error (invalid_rarity 1 (codes "thor") (codes "7r6"))
validate_item-7r6_example =
    validate_item-7r6 (entry_named (codes "thor") (codes "7r6") 200) 1 refl refl

-- A writer and a reader for one file.
abbrev one_text : Json → Text
one_text v = codes "file"

abbrev one_value : Text → Option Json
one_value s = some (arr (to_items (map to_export roster)))

thor_6-IsExportable : IsExportable (entry_named (codes "thor") (codes "6r5") 20)
unfolding is_importable
thor_6-IsExportable = record {
  named = refl;
  known = refl;
  signature = refl;
  ascension_low = refl;
  ascension_high = refl;
}

thor_7-IsExportable : IsExportable (entry_named (codes "thor") (codes "7r2") 0)
unfolding is_importable
thor_7-IsExportable = record {
  named = refl;
  known = refl;
  signature = refl;
  ascension_low = refl;
  ascension_high = refl;
}

handle_file_selected-handle_export_example :
    (rows : List PreviewRow) × (handle_file_selected lower none roster one_value
        (readable (codes "file"))
      ≡ preview_opened 0 rows)
    × (length rows ≡ 2)
    × All (λ row. is_sent row ≡ false) rows
unfolding handle_export is_importable starts_with text_beq
handle_file_selected-handle_export_example =
    handle_file_selected-handle_export lower none roster one_text one_value (codes "2026-01-02")
      (codes "me") (codes "roster_me_2026-01-02.json") (codes "file") 2 refl
      (thor_6-IsExportable, (thor_7-IsExportable, tt)) (omega arith, (omega arith, tt)) refl

abbrev rename_to_thor : PreviewRowPatch
rename_to_thor = record {
  new_rarity = none;
  new_signature = none;
  ascension = none;
  champion_name = some (codes "thor");
}

abbrev two_rows : List PreviewRow
two_rows =
    row_for (wanted (codes "hulk") (codes "6r5"))
    ∷ row_for (wanted (codes "hulk") (codes "7r1"))
    ∷ []

on_row_change-renamed_example :
    (after : PreviewRow) × (get_elem? (on_row_change lower roster [] 0 rename_to_thor two_rows) 0
      ≡ some after)
    × ((is_sent after ≡ false) ↔ IsRedundant lower roster (to_bulk lower roster after))
    × (after.champion_name ≡ codes "thor")
    × (after.corrected ≡ some true)
    × (get_elem? (on_row_change lower roster [] 0 rename_to_thor two_rows) 1 ≡ get_elem? two_rows 1)
unfolding build_preview_row text_beq
on_row_change-renamed_example =
    on_row_change-renamed lower roster [] two_rows 0 1
      (row_for (wanted (codes "hulk") (codes "6r5"))) rename_to_thor (codes "thor") refl refl
      (λ e. false≢true ((text_beq_iff (codes "thor") (codes "hulk")).1 e)) refl
      (λ e. absurd (omega arith))

abbrev other_star : PreviewRowPatch
other_star = record {
  new_rarity = some (codes "6r5");
  new_signature = none;
  ascension = none;
  champion_name = none;
}

abbrev seven_star : PreviewRow
seven_star = row_for (wanted (codes "thor") (codes "7r2"))

abbrev screen : Vision
screen = record {
  core = core [];
  uploading = true;
  import_id = none;
  polling = false;
  poll_count = 7;
  poll_busy = false;
  toasts = [];
}

react_all-at_most_120_example :
    requests (codes "i") (ticked ∷ ticked ∷ answer other_status ∷ ticked ∷ []) (poll_import screen)
    ≤ 120
react_all-at_most_120_example =
    react_all-at_most_120 (codes "i") (ticked ∷ ticked ∷ answer other_status ∷ ticked ∷ []) screen

two_sent :
    requests (codes "i") (ticked ∷ ticked ∷ answer other_status ∷ ticked ∷ []) (poll_import screen)
    ≡ 2
unfolding requests react tick answered poll_import
two_sent = refl

react_all-rounds_end_example :
    ((react_all (codes "i") (rounds (replicate 120 other_status)) (poll_import screen)).polling
      ≡ false)
    × ((react_all (codes "i") (rounds (replicate 120 other_status)) (poll_import screen)).uploading
        ≡ false)
react_all-rounds_end_example =
    react_all-rounds_end (codes "i") (replicate 120 other_status) screen (omega arith)

archived :
    (execute_vision_import lower [] roster saved none
      (some (codes "i"))
      (core (map row_for entries))).1
    ≡ some (codes "i", map to_confirmed (map row_for entries))
unfolding execute_vision_import execute_import on_confirmed build_preview_row find_roster_match
    differs starts_with text_beq
archived = refl

execute_vision_import-archives_example :
    ((is_saved saved ≡ true) ⊎ (filter is_sent (map row_for entries) ≡ []))
    × (codes "i" ≡ codes "i")
    × (map to_confirmed (map row_for entries) ≡ map to_confirmed (map row_for entries))
execute_vision_import-archives_example =
    execute_vision_import-archives lower [] roster saved none (core (map row_for entries))
      (codes "i") (codes "i") (map to_confirmed (map row_for entries)) archived
