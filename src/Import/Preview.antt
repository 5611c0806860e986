-- ===== src/Import/Preview.antt =====
-- The preview rows: champion metadata, the match with the roster and the diff against it.
-- `none` stands for `null` and for `undefined`: no reader tells them apart.
pub mod Diff
pub mod Rediff
use mawster.Base.{
  map_set, map_get, Text, Num, List, [], ◌∷◌, Option, none, some, Bool, true, false, not, ◌&&◌,
  ◌||◌, ◌==◌, ◌!=◌, any, find, is_empty, is_some, starts_with, char_at_0, or_else, or_opt, opt_map,
  whole, text_eq, num_eq, bool_eq, if◌then◌else◌,
}
use mawster.Roster.{RosterEntry, Champion}
use mawster.Import.Dedup.{RosterImportEntry}

pub record Candidate : Type 0 where
  pub name : Text
  pub score : Num

-- The value stored in the champion lookup.
pub record ChampionMeta : Type 0 where
  pub champion_class : Text
  pub image_url : Option Text

abbrev pub ChampionLookup : Type 0
ChampionLookup = List (Text × ChampionMeta)

pub record PreviewRow : Type 0 where
  pub champion_name : Text
  pub champion_class : Option Text
  pub image_url : Option Text
  pub new_rarity : Text
  pub new_signature : Num
  pub old_rarity : Option Text
  pub old_signature : Option Num
  pub is_new : Bool
  pub has_changes : Bool
  pub is_preferred_attacker : Option Bool
  pub ascension : Option Num
  pub old_ascension : Option Num
  pub confidence : Option Num
  pub sprite_url : Option Text
  pub crop_index : Option Num
  pub prediction_id : Option Text
  pub editable : Option Bool
  pub candidates : Option (List Candidate)
  pub margin : Option Num
  pub corrected : Option Bool

-- An entry with no opinion on the flag never differs in it.
abbrev prefers_otherwise : RosterEntry → Option Bool → Bool
prefers_otherwise existing none = false
prefers_otherwise existing (some b) = existing.is_preferred_attacker != b

-- The four comparisons of `hasChanges`.
unfoldable pub differs : RosterEntry → RosterImportEntry → Bool
differs existing entry =
    (existing.rarity != entry.rarity)
    || (existing.signature != entry.signature)
    || prefers_otherwise existing entry.is_preferred_attacker
    || (or_else existing.ascension (whole 0) != entry.ascension)

abbrev changes : Option RosterEntry → RosterImportEntry → Bool
changes none entry = false
changes (some existing) entry = differs existing entry

-- `existing?.ascension`, `rosterMatch?.image_url`, `apiMatch?.image_url`
abbrev ascension_of : Option RosterEntry → Option Num
ascension_of none = none
ascension_of (some r) = r.ascension

abbrev image_of : Option RosterEntry → Option Text
image_of none = none
image_of (some r) = r.image_url

abbrev url_of : Option ChampionMeta → Option Text
url_of none = none
url_of (some m) = m.image_url

-- `toLowerCase` is a parameter, as in the deduplication.
module _ (lower : Text → Text) where
  abbrev same_champion : Text → RosterEntry → Bool
  same_champion name r = lower r.champion_name == lower name

  abbrev pub same_slot : Text → Text → RosterEntry → Bool
  same_slot name rarity r = same_champion name r && starts_with r.rarity (char_at_0 rarity)

  unfoldable pub find_roster_match : List RosterEntry → Text → Text → Option RosterEntry
  find_roster_match roster champion_name rarity = find (same_slot champion_name rarity) roster

  -- `unknownNames`: only whether it is empty is read, so repetitions do not matter.
  unfoldable has_unknown_name : List RosterEntry → List RosterImportEntry → Bool
  has_unknown_name roster entries =
      any (λ e. not (is_some (find (same_champion e.champion_name) roster))) entries

  abbrev set_champions : List Champion → ChampionLookup → ChampionLookup
  set_champions [] lookup = lookup
  set_champions (c ∷ champions) lookup = set_champions champions (
      map_set (lower c.name) (record { champion_class = c.champion_class; image_url = c.image_url })
        lookup)

  -- `search` is the answer of `searchChampions('', 9999)`, `none` where it throws.
  unfoldable pub fetch_champion_lookup :
      Option (List Champion) → List RosterImportEntry → List RosterEntry → ChampionLookup
  unfolding has_unknown_name
  fetch_champion_lookup search unique_entries roster =
      if has_unknown_name roster unique_entries then set_champions (or_else search []) [] else []

  unfoldable pub build_preview_row :
      RosterImportEntry → List RosterEntry → ChampionLookup → PreviewRow
  build_preview_row entry roster lookup =
      let existing = find_roster_match roster entry.champion_name entry.rarity in
      let roster_match = find (same_champion entry.champion_name) roster in
      let api_match = map_get (lower entry.champion_name) lookup in
      record {
        champion_name = entry.champion_name;
        champion_class =
            or_opt (opt_map (λ (r : RosterEntry). r.champion_class) roster_match)
              (opt_map (λ (m : ChampionMeta). m.champion_class) api_match);
        image_url = or_opt (image_of roster_match) (url_of api_match);
        new_rarity = entry.rarity;
        new_signature = entry.signature;
        old_rarity = opt_map (λ (r : RosterEntry). r.rarity) existing;
        old_signature = opt_map (λ (r : RosterEntry). r.signature) existing;
        old_ascension = ascension_of existing;
        is_new = not (is_some existing);
        has_changes = changes existing entry;
        is_preferred_attacker = entry.is_preferred_attacker;
        ascension = some entry.ascension;
        confidence = none;
        sprite_url = none;
        crop_index = none;
        prediction_id = none;
        editable = none;
        candidates = none;
        margin = none;
        corrected = none;
      }

  unfoldable pub rediff_row : PreviewRow → List RosterEntry → ChampionLookup → PreviewRow
  rediff_row row roster lookup =
      let entry : RosterImportEntry = record {
        champion_name = row.champion_name;
        rarity = row.new_rarity;
        signature = row.new_signature;
        ascension = or_else row.ascension (whole 0);
        is_preferred_attacker = row.is_preferred_attacker;
      } in
      let rebuilt = build_preview_row entry roster lookup in
      record rebuilt {
        confidence = row.confidence;
        sprite_url = row.sprite_url;
        crop_index = row.crop_index;
        prediction_id = row.prediction_id;
        editable = row.editable;
        candidates = row.candidates;
        margin = row.margin;
        corrected = row.corrected;
      }
