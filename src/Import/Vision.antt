-- ===== src/Import/Vision.antt =====
-- The import from screenshots: front/components/use-roster-import-vision.ts. Predictions become
-- rows, rows are corrected by hand, and confirmed rows are archived.
pub mod Archive
pub mod Guard
pub mod Poll
pub mod Edit
use mawster.Base.{
  ℕ, Text, Num, List, [], ◌∷◌, ◌++◌, Option, none, some, Bool, true, false, not, ◌&&◌, ◌||◌, ◌==◌,
  ◌!=◌, text_eq, num_eq, option_eq, map, codes, to_decimal, or_else, whole, opt_map, update_at,
  if◌then◌else◌, is_some,
}
use mawster.Roster.{RosterEntry, Champion}
use mawster.Import.Dedup.{RosterImportEntry}
use mawster.Import.Preview.{
  Candidate, ChampionLookup, PreviewRow, fetch_champion_lookup, build_preview_row, rediff_row,
}
use mawster.Import.Json.{is_importable}

pub record VisionPrediction : Type 0 where
  pub id : Text
  pub job_id : Text
  pub champion_name : Option Text
  -- stars and rank are whole numbers
  pub stars : ℕ
  pub rank : ℕ
  pub signature : Num
  pub ascension : Num
  pub confidence : Num
  pub crop_index : Option Num
  pub candidates : List Candidate
  pub margin : Option Num

abbrev proxy_path : Text
proxy_path = codes "/api/back"

unfoldable get_sprite_url : Text → Text → Text
get_sprite_url import_id job_id =
    proxy_path
    ++ (codes "/vision/imports/"
        ++ (import_id ++ (codes "/jobs/" ++ (job_id ++ codes "/crops/sprite"))))

unfoldable prediction_to_entry : VisionPrediction → RosterImportEntry
prediction_to_entry prediction = record {
  champion_name = or_else prediction.champion_name [];
  rarity = to_decimal prediction.stars ++ (b'r' ∷ to_decimal prediction.rank);
  signature = prediction.signature;
  ascension = prediction.ascension;
  is_preferred_attacker = none;
}

unfoldable rarity_valid : VisionPrediction → Bool
rarity_valid prediction =
    is_importable (to_decimal prediction.stars ++ (b'r' ∷ to_decimal prediction.rank))

module _ (lower : Text → Text) (roster : List RosterEntry) where
  unfoldable prediction_row : Text → ChampionLookup → VisionPrediction → PreviewRow
  prediction_row import_id lookup prediction =
      let row = build_preview_row lower (prediction_to_entry prediction) roster lookup in
      record row {
        confidence = some prediction.confidence;
        candidates = some prediction.candidates;
        margin = if rarity_valid prediction then prediction.margin else none;
        sprite_url =
            opt_map (λ (cell : Num). get_sprite_url import_id prediction.job_id)
              prediction.crop_index;
        crop_index = prediction.crop_index;
        prediction_id = some prediction.id;
        editable = some true;
      }

  unfoldable build_rows_from_predictions :
      Option (List Champion) → Text → List VisionPrediction → List PreviewRow
  build_rows_from_predictions search import_id predictions =
      let lookup =
        fetch_champion_lookup lower search (map prediction_to_entry predictions) roster in
      map (prediction_row import_id lookup) predictions

-- A correction names the fields that it sets.
pub record PreviewRowPatch : Type 0 where
  pub new_rarity : Option Text
  pub new_signature : Option Num
  pub ascension : Option Num
  pub champion_name : Option Text

-- `{ ...row, ...patch }`
abbrev patched : PreviewRow → PreviewRowPatch → PreviewRow
patched row patch = record row {
  new_rarity = or_else patch.new_rarity row.new_rarity;
  new_signature = or_else patch.new_signature row.new_signature;
  ascension = elim patch.ascension [ none ↦ row.ascension | some a ↦ some a ];
  champion_name = or_else patch.champion_name row.champion_name;
}

abbrev is_renamed : PreviewRow → Option Text → Bool
is_renamed row none = false
is_renamed row (some name) = name != row.champion_name

-- The diff as it is recomputed behind an edit.
abbrev edited_changes : PreviewRow → Bool
edited_changes base =
    base.is_new
    || (base.old_rarity != some base.new_rarity)
    || (base.old_signature != some base.new_signature)
    || (or_else base.old_ascension (whole 0) != or_else base.ascension (whole 0))

module _ (lower : Text → Text) (roster : List RosterEntry) (lookup : ChampionLookup) where
  unfoldable pub change_row : PreviewRowPatch → PreviewRow → PreviewRow
  change_row patch row =
      let updated = patched row patch in
      let rediffed : PreviewRow = record (rediff_row lower updated roster lookup) {
        corrected = some true;
      } in
      let base = if is_renamed row patch.champion_name then rediffed else updated in
      record base { has_changes = edited_changes base }

  unfoldable pub on_row_change : ℕ → PreviewRowPatch → List PreviewRow → List PreviewRow
  on_row_change index patch rows = update_at index (change_row patch) rows

pub record ConfirmedRow : Type 0 where
  pub champion_name : Text
  pub rarity : Text
  pub signature : Num
  pub ascension : Num
  pub is_preferred_attacker : Bool
  pub prediction_id : Option Text

unfoldable pub to_confirmed : PreviewRow → ConfirmedRow
to_confirmed row = record {
  champion_name = row.champion_name;
  rarity = row.new_rarity;
  signature = row.new_signature;
  ascension = or_else row.ascension (whole 0);
  is_preferred_attacker = or_else row.is_preferred_attacker false;
  prediction_id = row.prediction_id;
}

-- What `onConfirmed` sends, if an import is under review.
unfoldable pub on_confirmed : Option Text → List PreviewRow → Option (Text × List ConfirmedRow)
on_confirmed none rows = none
on_confirmed (some import_id) rows = some (import_id, map to_confirmed rows)
