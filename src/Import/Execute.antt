-- ===== src/Import/Execute.antt =====
-- The state of `useRosterImportCore` and its `executeImport`. The handler reads the state of the
-- render it was made in; the answers of the server are its arguments.
pub mod Report
use mawster.Base.{
  Text, Num, List, [], ◌∷◌, ◌++◌, Option, none, some, Bool, true, false, not, ◌&&◌, ◌||◌, map,
  filter, or_else, is_empty, whole, if◌then◌else◌,
}
use mawster.Roster.{RosterEntry, BulkChampionEntry}
use mawster.Import.Preview.{PreviewRow, find_roster_match}

pub record ImportResult : Type 0 where
  pub champion_name : Text
  pub success : Bool
  pub is_new : Bool
  pub is_skipped : Bool
  pub champion_class : Option Text
  pub image_url : Option Text
  pub new_rarity : Text
  pub new_signature : Num
  pub old_rarity : Option Text
  pub old_signature : Option Num
  pub error : Option Text

pub record ImportCore : Type 0 where
  pub preview_open : Bool
  pub preview_rows : List PreviewRow
  pub importing : Bool
  pub report_open : Bool
  pub import_results : List ImportResult

unfoldable pub open_preview : List PreviewRow → ImportCore → ImportCore
open_preview rows s = record s { preview_rows = rows; preview_open = true }

-- What the bulk endpoint answers: it is atomic. `failed` carries the error's message, if the
-- rejection is an `Error`.
pub data BulkAnswer : Type 0 where
  saved : BulkAnswer
  failed : Option Text → BulkAnswer

pub data Effect : Type 0 where
  toast_no_changes : Effect
  bulk_update_roster : List BulkChampionEntry → Effect
  roster_updated : List RosterEntry → Effect

pub record Executed : Type 0 where
  pub state : ImportCore
  pub success : Bool
  pub effects : List Effect

abbrev pub is_sent : PreviewRow → Bool
is_sent r = r.is_new || r.has_changes

abbrev is_unchanged : PreviewRow → Bool
is_unchanged r = not r.is_new && not r.has_changes

abbrev flag_of : Option RosterEntry → Option Bool
flag_of none = none
flag_of (some r) = some r.is_preferred_attacker

unfoldable pub to_bulk : (Text → Text) → List RosterEntry → PreviewRow → BulkChampionEntry
to_bulk lower roster r = record {
  champion_name = r.champion_name;
  rarity = r.new_rarity;
  signature = r.new_signature;
  is_preferred_attacker =
      or_else r.is_preferred_attacker
        (or_else (flag_of (find_roster_match lower roster r.champion_name r.new_rarity)) false);
  ascension = or_else r.ascension (whole 0);
}

-- What is sent to the bulk endpoint.
abbrev pub champions_of :
    (Text → Text) → List RosterEntry → List PreviewRow → List BulkChampionEntry
champions_of lower roster rows = map (to_bulk lower roster) (filter is_sent rows)

abbrev result_of : Bool → Bool → Bool → Option Text → PreviewRow → ImportResult
result_of success is_new is_skipped error row = record {
  champion_name = row.champion_name;
  success = success;
  is_new = is_new;
  is_skipped = is_skipped;
  champion_class = row.champion_class;
  image_url = row.image_url;
  new_rarity = row.new_rarity;
  new_signature = row.new_signature;
  old_rarity = row.old_rarity;
  old_signature = row.old_signature;
  error = error;
}

-- `message || serverError`: an empty message counts as none.
abbrev error_text : Text → Option Text → Text
error_text server_error none = server_error
error_text server_error (some m) = if is_empty m then server_error else m

unfoldable pub results_of : Text → List PreviewRow → BulkAnswer → List ImportResult
results_of server_error rows saved =
    map (λ (r : PreviewRow). result_of true r.is_new false none r) (filter is_sent rows)
    ++ map (result_of true false true none) (filter is_unchanged rows)
results_of server_error rows (failed message) =
    map
      (λ (r : PreviewRow).
        result_of false r.is_new false (some (error_text server_error message)) r)
      rows

abbrev pub is_saved : BulkAnswer → Bool
is_saved saved = true
is_saved (failed message) = false

-- The roster read again after the write; `none` where that request throws.
abbrev refresh_effects : Option (List RosterEntry) → List Effect
refresh_effects none = []
refresh_effects (some updated) = roster_updated updated ∷ []

-- What the `finally` block leaves behind.
abbrev finished : ImportCore → List ImportResult → ImportCore
finished s results = record s {
  importing = false;
  preview_open = false;
  import_results = results;
  report_open = true;
}

unfoldable pub execute_import :
    (Text → Text)
    → Text
    → List RosterEntry
    → BulkAnswer
    → Option (List RosterEntry)
    → ImportCore
    → Executed
execute_import lower server_error roster answer updated s =
    let to_send = filter is_sent s.preview_rows in
    let nothing : Executed = record {
      state = finished s [];
      success = true;
      effects = toast_no_changes ∷ [];
    } in
    let written : Executed = record {
      state = finished s (results_of server_error s.preview_rows answer);
      success = is_saved answer;
      effects =
          bulk_update_roster (champions_of lower roster s.preview_rows) ∷ refresh_effects updated;
    } in
    if is_empty s.preview_rows
    then record { state = s; success = true; effects = [] }
    else if is_empty to_send
    then nothing
    else written
