-- ===== src/Import/Preview/Rediff.antt =====
-- A row whose champion was corrected by hand is diffed again.
use mawster.Base.{Text, List, false, whole, or_else, ◌≡◌, refl, ◌↔◌}
use mawster.Roster.{RosterEntry}
use mawster.Import.Dedup.{RosterImportEntry}
use mawster.Import.Preview.{PreviewRow, ChampionLookup, build_preview_row, rediff_row}
use mawster.Import.Execute.{is_sent, to_bulk}
use mawster.Import.Preview.Diff.{IsRedundant, is_sent-IsRedundant}

-- What a row asks for, as an import entry.
abbrev entry_of : PreviewRow → RosterImportEntry
entry_of row = record {
  champion_name = row.champion_name;
  rarity = row.new_rarity;
  signature = row.new_signature;
  ascension = or_else row.ascension (whole 0);
  is_preferred_attacker = row.is_preferred_attacker;
}

module _ (lower : Text → Text) (roster : List RosterEntry) (lookup : ChampionLookup)
    (row : PreviewRow) where
  -- Whatever its old values, flags and vision fields were, a row that was diffed again is left out
  -- of the import exactly when writing it would be redundant under its new name; and a second
  -- diff changes nothing.
  pub rediff_row-IsRedundant :
      ((is_sent (rediff_row lower row roster lookup) ≡ false)
        ↔ IsRedundant lower roster (to_bulk lower roster (rediff_row lower row roster lookup)))
      × (rediff_row lower (rediff_row lower row roster lookup) roster lookup
          ≡ rediff_row lower row roster lookup)
  unfolding rediff_row build_preview_row to_bulk
  rediff_row-IsRedundant = (is_sent-IsRedundant lower roster lookup (entry_of row), refl)
