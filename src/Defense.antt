-- ===== src/Defense.antt =====
-- The defense page: front/app/game/defense/_hooks/use-defense-actions.ts and
-- front/app/game/defense/_viewmodels/use-defense-viewmodel.ts, with the data of
-- front/app/services/defense.ts. An interval is a number; `intervals` are those that run.
pub mod Actions
pub mod Polling
pub mod Intervals
mod Tests
use mawster.Base.{
  ℕ, Text, Num, List, [], ◌∷◌, Option, none, some, Bool, true, false, not, is_empty, filter,
  if◌then◌else◌,
}
use mawster.Alliances.{AllianceSelector}

pub record DefensePlacement : Type 0 where
  pub id : Text
  pub alliance_id : Text
  pub battlegroup : ℕ
  pub node_number : ℕ
  pub champion_user_id : Text
  pub game_account_id : Text
  pub game_pseudo : Text
  pub champion_name : Text
  pub champion_alias : Option Text
  pub champion_class : Text
  pub champion_image_url : Option Text
  pub rarity : Text
  pub signature : Num
  pub is_preferred_attacker : Bool
  pub ascension : Num
  pub is_saga_attacker : Bool
  pub is_saga_defender : Bool
  pub placed_by_id : Option Text
  pub placed_by_pseudo : Option Text
  pub created_at : Text

pub record DefenseSummary : Type 0 where
  pub alliance_id : Text
  pub battlegroup : ℕ
  pub placements : List DefensePlacement
  pub member_defender_counts : List (Text × Num)

pub record ChampionOwner : Type 0 where
  pub champion_user_id : Text
  pub game_account_id : Text
  pub game_pseudo : Text
  pub rarity : Text
  pub stars : Num
  pub rank : Num
  pub signature : Num
  pub defender_count : Num
  pub is_preferred_attacker : Bool
  pub ascension : Num

pub record AvailableChampion : Type 0 where
  pub champion_id : Text
  pub champion_name : Text
  pub champion_alias : Option Text
  pub champion_class : Text
  pub image_url : Option Text
  pub is_saga_attacker : Bool
  pub is_saga_defender : Bool
  pub owners : List ChampionOwner

-- The messages of the page, by the names of their translations.
pub data Notice : Type 0 where
  load_error place_error remove_success remove_error clear_success clear_error : Notice
  place_success : (champion_name : Text) → (node : ℕ) → Notice
  -- the text of an error
  text : Text → Notice

pub data Toast : Type 0 where
  success error : Notice → Toast

-- `err.message || fallback`
abbrev pub message_or : Text → Notice → Notice
message_or message fallback = if is_empty message then fallback else text message

pub record BgMember : Type 0 where
  pub game_account_id : Text
  pub game_pseudo : Text
  pub defender_count : Num
  pub max_defenders : Num
  pub is_owner : Bool
  pub is_officer : Bool

pub record DefensePage : Type 0 where
  pub selector : AllianceSelector
  pub defense_loading : Bool
  pub defense_summary : Option DefenseSummary
  pub available_champions : List AvailableChampion
  pub bg_members : List BgMember
  pub selector_node : Option ℕ
  pub clear_confirm_open : Bool
  pub poll_interval : Option ℕ
  pub intervals : List ℕ
  pub next_interval : ℕ
  pub toasts : List Toast

abbrev pub show : Toast → DefensePage → DefensePage
show toast s = record s { toasts = toast ∷ s.toasts }

abbrev pub is_ready : DefensePage → Bool
is_ready s = not (is_empty s.selector.selected_alliance_id)
