-- ===== src/KnowledgeBase.antt =====
-- The fight records: front/app/game/knowledge-base/_viewmodels/use-knowledge-base-viewmodel.ts, with
-- the data of front/app/services/fight-records.ts. `D` is a page of records.
pub mod Address
pub mod Loads
pub mod Cleared
mod Tests
use mawster.Base.{
  Answer, resolved, rejected, ℕ, Text, List, [], ◌∷◌, Option, none, some, Bool, true, false, not,
  ◌&&◌, ◌||◌, ◌==◌, ◌!=◌, text_eq, option_eq, bool_eq, codes, is_empty, is_some, is_truthy, any,
  map_get, or_else, opt_map, if◌then◌else◌,
}
use mawster.Membership.{Roles}

pub record Filters : Type 0 where
  pub champion_id : Option Text
  pub defender_champion_id : Option Text
  pub node_number : Text
  pub tier : Text
  pub game_account_pseudo : Text

abbrev default_filters : Filters
default_filters = record {
  champion_id = none;
  defender_champion_id = none;
  node_number = [];
  tier = [];
  game_account_pseudo = [];
}

pub data SeasonStatus : Type 0 where
  upcoming active ended : SeasonStatus

pub record Season : Type 0 where
  pub id : Text
  pub number : ℕ
  pub status : SeasonStatus

pub record AccessibleAlliance : Type 0 where
  pub id : Text
  pub name : Text
  pub tag : Text

-- What the address keeps. `sort_order` and `source` are what it holds, whatever that is.
pub record View : Type 0 where
  pub filters : Filters
  pub planning_error_only : Option Bool
  pub page : ℕ
  pub size : ℕ
  pub sort_by : Text
  pub sort_order : Text
  pub season_selector : Text
  pub season_id : Option Text
  pub alliance_id : Option Text
  pub source : Text

pub record KnowledgeBase (D : Type 0) : Type 0 where
  pub view : View
  pub debounced_pseudo : Text
  pub debounced_node_number : Text
  pub seasons : List Season
  pub accessible_alliances : List AccessibleAlliance
  pub can_import : Bool
  pub data_shown : Option D
  pub loading : Bool
  pub error : Option Text
  pub request_id : ℕ

abbrev is_officer_in : Roles → AccessibleAlliance → Bool
is_officer_in roles a =
    or_else (opt_map (λ r. r.is_owner || r.is_officer) (map_get a.id roles)) false

abbrev first_season : List Season → Option Text
first_season [] = none
first_season (season ∷ seasons) = some season.id

module _ {D : Type 0} where
  abbrev set_view : (View → View) → KnowledgeBase D → KnowledgeBase D
  set_view change s = record s { view = change s.view }

  -- The timers of the two delayed texts run out.
  unfoldable pseudo_due : KnowledgeBase D → KnowledgeBase D
  pseudo_due s = record s { debounced_pseudo = s.view.filters.game_account_pseudo }

  unfoldable node_number_due : KnowledgeBase D → KnowledgeBase D
  node_number_due s = record s { debounced_node_number = s.view.filters.node_number }

  unfoldable seasons_answered : Answer (List Season) → KnowledgeBase D → KnowledgeBase D
  seasons_answered (resolved seasons) s = record s { seasons = seasons }
  seasons_answered (rejected message) s = record s { seasons = [] }

  -- The answers of both requests, `rejected` where one of them throws.
  unfoldable alliances_answered :
      Answer (List AccessibleAlliance × Roles) → KnowledgeBase D → KnowledgeBase D
  alliances_answered (resolved (alliances, roles)) s = record s {
    accessible_alliances = alliances;
    can_import = any (is_officer_in roles) alliances;
  }
  alliances_answered (rejected message) s = record s {
    accessible_alliances = [];
    can_import = false;
  }

  -- A change of the filters, whichever of them.
  unfoldable handle_filter_change : (Filters → Filters) → KnowledgeBase D → KnowledgeBase D
  handle_filter_change change s =
      set_view (λ v. record v { filters = change v.filters; page = 1 }) s

  unfoldable handle_sort : Text → KnowledgeBase D → KnowledgeBase D
  handle_sort col s =
      if s.view.sort_by == col
      then set_view
          (λ v. record v {
            sort_order = if v.sort_order == codes "asc" then codes "desc" else codes "asc";
            page = 1;
          })
          s
      else set_view (λ v. record v { sort_by = col; sort_order = codes "desc"; page = 1 }) s

  unfoldable handle_alliance_change : Option Text → KnowledgeBase D → KnowledgeBase D
  handle_alliance_change value s = set_view (λ v. record v { alliance_id = value; page = 1 }) s

  unfoldable handle_source_change : Text → KnowledgeBase D → KnowledgeBase D
  handle_source_change value s = set_view (λ v. record v { source = value; page = 1 }) s

  unfoldable handle_clear_filters : KnowledgeBase D → KnowledgeBase D
  handle_clear_filters s = record s {
    view = record s.view {
      filters = default_filters;
      planning_error_only = none;
      season_selector = codes "all_seasons";
      season_id = none;
      alliance_id = none;
      source = codes "non_imported";
      page = 1;
    };
    debounced_pseudo = [];
    debounced_node_number = [];
  }

  unfoldable handle_season_selector_change : Text → KnowledgeBase D → KnowledgeBase D
  handle_season_selector_change value s =
      set_view
        (λ v. record v {
          season_selector = value;
          season_id = if value == codes "specific" then first_season s.seasons else none;
          page = 1;
        })
        s

  unfoldable handle_season_id_change : Option Text → KnowledgeBase D → KnowledgeBase D
  handle_season_id_change value s = set_view (λ v. record v { season_id = value; page = 1 }) s

  unfoldable handle_toggle_planning_error : KnowledgeBase D → KnowledgeBase D
  handle_toggle_planning_error s =
      set_view
        (λ v. record v {
          planning_error_only = if v.planning_error_only == some true then none else some true;
          page = 1;
        })
        s

  unfoldable set_page : ℕ → KnowledgeBase D → KnowledgeBase D
  set_page page s = set_view (λ v. record v { page = page }) s

  unfoldable set_size : ℕ → KnowledgeBase D → KnowledgeBase D
  set_size size s = set_view (λ v. record v { size = size }) s

-- `hasActiveFilters`
unfoldable has_active_filters : View → Bool
has_active_filters v =
    v.source != codes "all"
    || is_truthy v.filters.champion_id
    || is_truthy v.filters.defender_champion_id
    || not (is_empty v.filters.node_number)
    || not (is_empty v.filters.tier)
    || not (is_empty v.filters.game_account_pseudo)
    || is_some v.planning_error_only
    || v.season_selector != codes "all_seasons"
    || is_some v.alliance_id
