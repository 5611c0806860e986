-- ===== src/Import/File/Roundtrip.antt =====
-- A roster that is exported and imported again.
use mawster.Base.{
  ℕ, suc, ◌+◌, ◌≤◌, Text, List, [], ◌∷◌, Option, some, true, false, ◌≡◌, refl, ◌∙◌, ap, arith, All,
  All-map, All-sort_by, All-In, In, In-All, map, length, length-map, length-sort_by, is_empty,
  whole, num_lt, or_else, codes, find_of_count, text_beq, text_eq, beq_refl, count, sort_by,
}
use mawster.Roster.{RosterEntry, Champion}
use mawster.Import.Preview.{
  PreviewRow, ChampionLookup, find_roster_match, same_slot, build_preview_row,
  fetch_champion_lookup,
}
use mawster.Import.Preview.Diff.{IsRedundant, is_sent-IsRedundant}
use mawster.Import.Execute.{is_sent, to_bulk}
use mawster.Import.Json.{
  Json, arr, entry, error, invalid_rarity, as_text, str, Fields, get_field, is_importable,
  validate_values, validate_entry, validate_item, validate_from, parse_and_validate_entries,
}
use mawster.Import.File.{
  to_export, fields_of, to_json, to_items, downloaded, handle_export, preview_opened, readable,
  parse_json_file, comes_before, preview_rows, handle_items, handle_file_selected, items,
}
use mawster.Import.File.Unique.{
  IsUnique, map-to_export-IsDistinct, deduplicate_entries_distinct, starts_with_same,
}

-- What an entry needs for the importer to take it back.
pub record IsExportable (r : RosterEntry) : Type 0 where
  pub named : is_empty r.champion_name ≡ false
  pub known : is_importable r.rarity ≡ true
  pub signature : num_lt r.signature (whole 0) ≡ false
  pub ascension_low : num_lt (or_else r.ascension (whole 0)) (whole 0) ≡ false
  pub ascension_high : num_lt (whole 2) (or_else r.ascension (whole 0)) ≡ false

-- With a name and a rarity that are texts, the checks of the values decide.
validate_entry_texts :
    (o : Fields) (idx : ℕ) (name rarity : Text)
    → as_text (get_field (codes "champion_name") o) ≡ some name
    → as_text (get_field (codes "rarity") o) ≡ some rarity
    → validate_entry o idx ≡ validate_values name rarity o idx
unfolding validate_entry
validate_entry_texts o idx name rarity named ranked = rw (named, validate_entry, ranked)

as_text_str : (s : Text) → is_empty s ≡ false → as_text (some (str s)) ≡ some s
as_text_str s full = rw full

is_empty_of_importable : (s : Text) → is_importable s ≡ true → is_empty s ≡ false
unfolding is_importable
is_empty_of_importable [] h = cc
is_empty_of_importable (c ∷ s) h = refl

validate_item_written :
    (r : RosterEntry) (idx : ℕ)
    → is_empty r.champion_name ≡ false
    → is_empty r.rarity ≡ false
    → validate_item (to_json (to_export r)) idx
      ≡ validate_values r.champion_name r.rarity (fields_of (to_export r)) idx
unfolding validate_item get_field text_beq to_export
validate_item_written r idx named ranked =
    validate_entry_texts (fields_of (to_export r)) idx r.champion_name r.rarity
      (as_text_str r.champion_name named) (as_text_str r.rarity ranked)

validate_values-fields_of :
    (r : RosterEntry) (idx : ℕ)
    → IsExportable r
    → validate_values r.champion_name r.rarity (fields_of (to_export r)) idx ≡ entry (to_export r)
unfolding validate_values get_field text_beq to_export
validate_values-fields_of r idx h = rw (h.known, h.signature, h.ascension_low, h.ascension_high)

validate_item-to_json :
    (r : RosterEntry) (idx : ℕ)
    → IsExportable r
    → validate_item (to_json (to_export r)) idx ≡ entry (to_export r)
validate_item-to_json r idx h =
    validate_item_written r idx h.named (is_empty_of_importable r.rarity h.known)
    ∙ validate_values-fields_of r idx h

validate_from-to_items :
    (i : ℕ) (roster : List RosterEntry)
    → All IsExportable roster
    → validate_from i (to_items (map to_export roster))
      ≡ record { entries = map to_export roster; errors = [] }
unfolding validate_from
validate_from-to_items i [] h = refl
validate_from-to_items i (r ∷ roster) (h, hs) =
    rw (validate_item-to_json r (i + 1) h, validate_from-to_items (suc i) roster hs)

module _ (lower : Text → Text) (roster : List RosterEntry) where
  find_self :
      (r : RosterEntry)
      → In r roster
      → IsUnique lower roster
      → find_roster_match lower roster r.champion_name r.rarity ≡ some r
  unfolding find_roster_match
  find_self r m unique =
      find_of_count (same_slot lower r.champion_name r.rarity) r roster m
        (ground (arith, beq_refl (lower r.champion_name), starts_with_same r.rarity r.rarity refl))
        (In-All (λ q. count (same_slot lower q.champion_name q.rarity) roster ≤ 1) r roster unique
          m)

  -- An entry of the roster, exported, is no change to the roster.
  is_sent-to_export :
      (lookup : ChampionLookup) (r : RosterEntry)
      → In r roster
      → IsUnique lower roster
      → is_sent (build_preview_row lower (to_export r) roster lookup) ≡ false
  is_sent-to_export lookup r m unique =
      (is_sent-IsRedundant lower roster lookup (to_export r)).1 (redundant lookup r m unique)
    where
      redundant :
          (lookup : ChampionLookup) (r : RosterEntry)
          → In r roster
          → IsUnique lower roster
          → IsRedundant lower roster
              (to_bulk lower roster (build_preview_row lower (to_export r) roster lookup))
      redundant lookup r m unique =
          unfold to_export to_bulk build_preview_row in
          (r, find_self r m unique, (refl, refl, refl, refl))

module _ (lower : Text → Text) (search : Option (List Champion)) (roster : List RosterEntry)
    (exportable : All IsExportable roster) (unique : IsUnique lower roster) where
  abbrev lookup : ChampionLookup
  lookup = fetch_champion_lookup lower search (map to_export roster) roster

  abbrev rows : List PreviewRow
  rows =
      sort_by comes_before
        (map (λ e. build_preview_row lower e roster lookup) (map to_export roster))

  preview_rows-map-to_export : preview_rows lower search roster (map to_export roster) ≡ rows
  unfolding preview_rows
  preview_rows-map-to_export =
      let known =
        All-In (λ r. is_importable r.rarity ≡ true) roster
          (λ r m. (In-All IsExportable r roster exportable m).known) in
      rw (
        deduplicate_entries_distinct lower (map to_export roster)
          (map-to_export-IsDistinct lower roster known unique))

  handle_items-to_items :
      handle_items lower search roster (to_items (map to_export roster)) ≡ preview_opened 0 rows
  unfolding handle_items parse_and_validate_entries
  handle_items-to_items =
      rw (validate_from-to_items 0 roster exportable)
        (ap (preview_opened 0) preview_rows-map-to_export)

  length-rows : length rows ≡ length roster
  length-rows =
      length-sort_by comes_before _
      ∙ (length-map (map to_export roster) _ ∙ length-map roster to_export)

  rows_unchanged : All (λ row. is_sent row ≡ false) rows
  rows_unchanged =
      All-sort_by (λ row. is_sent row ≡ false) comes_before _
        (All-map (λ row. is_sent row ≡ false) _ (map to_export roster)
          (All-map (λ e. is_sent (build_preview_row lower e roster lookup) ≡ false) to_export roster
            (All-In _ roster (λ r m. is_sent-to_export lower roster lookup r m unique))))

-- The exported text is read back as the exported items.
read_back :
    (roster : List RosterEntry) (stringify : Json → Text) (parse : Text → Option Json)
    (today account_name name text : Text) (n : ℕ)
    → parse (stringify (arr (to_items (map to_export roster))))
      ≡ some (arr (to_items (map to_export roster)))
    → handle_export stringify today account_name roster ≡ downloaded name text n
    → parse_json_file parse text ≡ items (to_items (map to_export roster))
unfolding handle_export parse_json_file
read_back [] stringify parse today account_name name text n inverse exported = cc
read_back (r ∷ roster) stringify parse today account_name name text n inverse exported =
    let e : stringify (arr (to_items (map to_export (r ∷ roster)))) ≡ text = cc in rw (← e, inverse)

-- A roster of entries that the importer can take back, one per champion and star level, exported
-- and imported on the same roster: the preview opens with no skipped item, with one row for each
-- entry of the roster, and with no row that would be written. `parse` has to invert `stringify` on
-- the exported value.
pub handle_file_selected-handle_export :
    (lower : Text → Text) (search : Option (List Champion)) (roster : List RosterEntry)
    (stringify : Json → Text) (parse : Text → Option Json) (today account_name name text : Text)
    (n : ℕ)
    → parse (stringify (arr (to_items (map to_export roster))))
      ≡ some (arr (to_items (map to_export roster)))
    → All IsExportable roster
    → IsUnique lower roster
    → handle_export stringify today account_name roster ≡ downloaded name text n
    → (rows : List PreviewRow) × (handle_file_selected lower search roster parse (readable text)
        ≡ preview_opened 0 rows)
      × (length rows ≡ length roster)
      × All (λ row. is_sent row ≡ false) rows
unfolding handle_file_selected
handle_file_selected-handle_export lower search roster stringify parse today account_name name text
      n inverse exportable unique exported =
    (
      rows lower search roster exportable unique,
      rw
          (
            read_back roster stringify parse today account_name name text n inverse exported,
            handle_file_selected,
          )
          (handle_items-to_items lower search roster exportable unique),
      length-rows lower search roster exportable unique,
      rows_unchanged lower search roster exportable unique,
    )

-- The highest rarity of the game does not survive an export: whatever else the entry holds, the
-- item written for a named 7r6 entry is refused by the importer.
pub validate_item-7r6 :
    (r : RosterEntry) (idx : ℕ)
    → is_empty r.champion_name ≡ false
    → r.rarity ≡ codes "7r6"
    → validate_item (to_json (to_export r)) idx
      ≡ error (invalid_rarity idx r.champion_name (codes "7r6"))
validate_item-7r6 r idx named top =
    validate_item_written r idx named (rw top)
    ∙ rw top (unfold validate_values is_importable in refl)
