-- ===== src/Matchups.antt =====
-- front/app/game/knowledge-base/_viewmodels/use-matchups-viewmodel.ts with use-matchup-grid.ts and
-- use-matchup-defender-grid.ts: which of three views is shown, and what is asked for it. The rows
-- and grids that the server answers, and `Number`, are arguments.
pub mod Views
pub mod Ratings
mod Tests
use mawster.Base.{
  is_truthy, Text, List, [], ◌∷◌, Option, none, some, Bool, true, false, not, ◌&&◌, ◌||◌, is_empty,
  is_some, opt_map, if◌then◌else◌, codes,
}
use mawster.Alliances.{AllianceWithVisitorFlag}
use mawster.Membership.{Roles, role_can_manage}

pub record MatchupFiltersState : Type 0 where
  pub champion_id : Option Text
  pub defender_champion_id : Option Text
  pub node_number : Text
  pub game_account_id : Text

abbrev pub empty_filters : MatchupFiltersState
empty_filters = record {
  champion_id = none;
  defender_champion_id = none;
  node_number = [];
  game_account_id = [];
}

abbrev show_grid : MatchupFiltersState → Bool
show_grid f =
    is_some f.champion_id && not (is_some f.defender_champion_id) && is_empty f.node_number

abbrev show_defender_grid : MatchupFiltersState → Bool
show_defender_grid f =
    is_some f.defender_champion_id && not (is_some f.champion_id) && is_empty f.node_number

abbrev has_target : MatchupFiltersState → Bool
has_target f = is_some f.defender_champion_id || not (is_empty f.node_number)

abbrev show_evaluation : MatchupFiltersState → Bool
show_evaluation f = has_target f && not (show_defender_grid f)

abbrev non_empty : Text → Option Text
non_empty s = if is_empty s then none else some s

pub record EvaluateRequest (N : Type 0) : Type 0 where
  pub champion_id : Option Text
  pub defender_champion_id : Option Text
  pub node_number : Option N
  pub game_account_id : Option Text

-- What a hook has loaded.
pub record Loaded (A : Type 0) : Type 0 where
  pub value : A
  pub loading : Bool
  pub error : Option Text

abbrev load_failed : Text
load_failed = codes "load-failed"

-- `reload` of the grid hooks, with the answer, `none` where the request throws. Switched off, it
-- drops the grid.
unfoldable reload_grid : {G : Type 0} → Bool → Option G → Loaded (Option G) → Loaded (Option G)
reload_grid false answer v = record v { value = none }
reload_grid true none v = record { value = none; loading = false; error = some load_failed }
reload_grid true (some grid) v = record { value = some grid; loading = false; error = none }

-- `reload` of the evaluation, which keeps its rows where the request throws.
unfoldable reload_rows : {R : Type 0} → Bool → Option (List R) → Loaded (List R) → Loaded (List R)
reload_rows false answer v = record v { value = [] }
reload_rows true none v = record v { loading = false; error = some load_failed }
reload_rows true (some rows) v = record { value = rows; loading = false; error = none }

pub record Matchups (R G D : Type 0) : Type 0 where
  pub alliance_id : Text
  pub filters : MatchupFiltersState
  pub rows : Loaded (List R)
  pub grid : Loaded (Option G)
  pub defender_grid : Loaded (Option D)

module _ {R G D : Type 0} where
  abbrev clear_filters : Matchups R G D → Matchups R G D
  clear_filters s = record s { filters = empty_filters }

  abbrev evaluates : Matchups R G D → Bool
  evaluates s = not (is_empty s.alliance_id) && show_evaluation s.filters

  abbrev loads_grid : Matchups R G D → Bool
  loads_grid s =
      not (is_empty s.alliance_id) && show_grid s.filters && is_truthy s.filters.champion_id

  abbrev loads_defender_grid : Matchups R G D → Bool
  loads_defender_grid s =
      not (is_empty s.alliance_id)
      && show_defender_grid s.filters
      && is_truthy s.filters.defender_champion_id

  abbrev set_filters : (MatchupFiltersState → MatchupFiltersState) → Matchups R G D → Matchups R G D
  set_filters change s = record s { filters = change s.filters }

  -- The effect that selects the first alliance where none is selected.
  unfoldable select_first : List AllianceWithVisitorFlag → Matchups R G D → Matchups R G D
  select_first [] s = s
  select_first (a ∷ alliances) s =
      if is_empty s.alliance_id then record s { alliance_id = a.alliance.id } else s

  -- The reload of the evaluation while it waits.
  unfoldable reload_started : Matchups R G D → Matchups R G D
  reload_started s =
      if evaluates s
      then record s { rows = record s.rows { loading = true; error = none } }
      else record s { rows = record s.rows { value = [] } }

  -- `roles` are those of `getMyAllianceRoles`, and none where it throws.
  abbrev can_edit : Roles → Matchups R G D → Bool
  can_edit roles s = not (is_empty s.alliance_id) && role_can_manage roles s.alliance_id

  -- What `evaluateMatchups` is asked, if anything.
  unfoldable evaluate_request :
      {N : Type 0} → (Text → N) → Matchups R G D → Option (Text × EvaluateRequest N)
  evaluate_request to_number s =
      if evaluates s
      then some (
        s.alliance_id,
        record {
          champion_id = s.filters.champion_id;
          defender_champion_id = s.filters.defender_champion_id;
          node_number = opt_map to_number (non_empty s.filters.node_number);
          game_account_id = non_empty s.filters.game_account_id;
        },
      )
      else none

  -- `reloadActive`, with the answer that each of the three would get.
  unfoldable reload_active : Option (List R) → Option G → Option D → Matchups R G D → Matchups R G D
  unfolding reload_grid reload_rows
  reload_active rows grid defender_grid s = record s {
    rows = reload_rows (evaluates s) rows s.rows;
    grid = reload_grid (loads_grid s) grid s.grid;
    defender_grid = reload_grid (loads_defender_grid s) defender_grid s.defender_grid;
  }

  -- The `loading` and `error` of the view that is shown.
  unfoldable shown_loading : Matchups R G D → Bool
  shown_loading s =
      if show_grid s.filters
      then s.grid.loading
      else if show_defender_grid s.filters
      then s.defender_grid.loading
      else s.rows.loading

  unfoldable shown_error : Matchups R G D → Option Text
  shown_error s =
      if show_grid s.filters
      then s.grid.error
      else if show_defender_grid s.filters
      then s.defender_grid.error
      else s.rows.error
