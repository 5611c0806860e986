-- ===== src/War.antt =====
-- The state of the war page, front/app/contexts/war-context.tsx, and its data,
-- front/app/services/war.ts. A handler that waits for the server is two functions: what it sends,
-- and what its answer does to the state that it finds.
pub mod Toasts
pub mod Requests
pub mod Current
pub mod Defense
pub mod Board
pub mod Clicks
pub mod Lists
pub mod Dialogs
pub mod Service
mod Tests
use mawster.Base.{
  ℕ, Text, Num, List, [], ◌∷◌, Option, none, some, Bool, true, false, not, ◌&&◌, is_empty, find,
  ◌==◌, text_eq,
}
use mawster.Alliances.{AllianceSelector, AllianceWithVisitorFlag}
use mawster.War.Toasts.{Toast}

-- The fields of a war that the page reads.
pub record War : Type 0 where
  pub id : Text
  pub alliance_id : Text
  pub opponent_name : Text

pub record WarPlacement : Type 0 where
  pub id : Text
  pub war_id : Text
  pub battlegroup : ℕ
  pub node_number : ℕ
  pub champion_id : Text
  pub champion_name : Text
  pub champion_class : Text
  pub image_url : Option Text
  pub rarity : Text
  pub ascension : ℕ
  pub placed_by_pseudo : Option Text
  pub created_at : Text
  pub ko_count : ℕ
  pub is_combat_completed : Bool
  pub is_fight_not_done : Bool
  pub is_planning_error : Bool
  pub attacker_champion_user_id : Option Text
  pub attacker_game_account_id : Option Text
  pub attacker_pseudo : Option Text
  pub attacker_champion_name : Option Text
  pub attacker_champion_class : Option Text
  pub attacker_image_url : Option Text
  pub attacker_rarity : Option Text
  pub attacker_is_preferred_attacker : Option Bool
  pub is_saga_attacker : Bool
  pub is_saga_defender : Bool
  pub attacker_ascension : Option ℕ
  pub attacker_is_saga_attacker : Option Bool
  pub attacker_is_saga_defender : Option Bool
  pub is_assisted : Bool
  pub assistor_champion_user_id : Option Text
  pub assistor_game_account_id : Option Text
  pub assistor_pseudo : Option Text
  pub assistor_champion_name : Option Text
  pub assistor_champion_class : Option Text
  pub assistor_image_url : Option Text
  pub assistor_rarity : Option Text
  pub assistor_ascension : Option ℕ
  pub note : Option Text
  pub note_id : Option Text
  pub note_blocked : Option Bool

pub record WarDefenseSummary : Type 0 where
  pub war_id : Text
  pub battlegroup : ℕ
  pub placements : List WarPlacement

-- What the page reads of a synergy and of a prefight.
pub record WarSynergy : Type 0 where
  pub champion_user_id : Text
  pub target_champion_user_id : Text
  pub target_champion_name : Text

pub record WarPrefight : Type 0 where
  pub champion_user_id : Text
  pub target_node_number : ℕ

pub data WarMode : Type 0 where
  attackers defenders export : WarMode

pub record WarState : Type 0 where
  pub selector : AllianceSelector
  pub current_war : Option War
  pub management_loading : Bool
  pub war_mode : WarMode
  pub war_summary : Option WarDefenseSummary
  pub synergies : List WarSynergy
  pub prefights : List WarPrefight
  pub war_loading : Bool
  pub selector_node : Option ℕ
  pub attacker_selector_node : Option ℕ
  pub pending_remove_node : Option ℕ
  pub show_create_dialog : Bool
  pub show_end_confirm : Bool
  pub show_clear_confirm : Bool
  pub toasts : List Toast

abbrev pub show : Toast → WarState → WarState
show toast s = record s { toasts = toast ∷ s.toasts }

-- `currentWar?.id ?? ''`
abbrev id_of : Option War → Text
id_of none = []
id_of (some war) = war.id

abbrev active_war_id : WarState → Text
active_war_id s = id_of s.current_war

abbrev placements_of : Option WarDefenseSummary → List WarPlacement
placements_of none = []
placements_of (some summary) = summary.placements

abbrev pub placements : WarState → List WarPlacement
placements s = placements_of s.war_summary

abbrev selected_alliance : WarState → Option AllianceWithVisitorFlag
selected_alliance s =
    find (λ a. a.alliance.id == s.selector.selected_alliance_id) s.selector.alliances

-- `selectedAllianceId && activeWarId`
abbrev pub is_ready : WarState → Bool
is_ready s = not (is_empty s.selector.selected_alliance_id) && not (is_empty (active_war_id s))
