-- ===== src/War/Current.antt =====
-- The choice of the alliance and of the battlegroup, and the current war of the alliance:
-- front/app/contexts/war-context.tsx, from `handleAllianceChange` to the effects, and the handlers
-- that create, edit and end a war.
pub mod Chosen
use mawster.Base.{
  Answer, resolved, rejected, ℕ, Text, List, [], ◌∷◌, Option, none, some, Bool, true, false, not,
  ◌&&◌, ◌||◌, is_empty, any, ◌==◌, text_eq, nat_eq, if◌then◌else◌,
}
use mawster.Alliances.{AllianceSelector, Alliance, AllianceWithVisitorFlag, refresh_answered}
use mawster.War.{War, WarState, WarMode, show, active_war_id}
use mawster.War.Toasts.{
  success, error, error_toast, load_error, create_success, create_error, edit_war_success,
  edit_war_error, end_war_success, end_war_error,
}

-- A call of `onStateChange`.
abbrev pub StateChange : Type 0
StateChange = Text × ℕ

abbrev set_selected_alliance_id : Text → WarState → WarState
set_selected_alliance_id id s = record s {
  selector = record s.selector { selected_alliance_id = id };
}

unfoldable pub handle_alliance_change : Text → WarState → WarState × Option StateChange
handle_alliance_change id s = (set_selected_alliance_id id s, some (id, s.selector.selected_bg))

unfoldable pub handle_bg_change : ℕ → WarState → WarState × Option StateChange
handle_bg_change bg s = (
  record s { selector = record s.selector { selected_bg = bg } },
  if is_empty s.selector.selected_alliance_id
      then none
      else some (s.selector.selected_alliance_id, bg),
)

abbrev pub is_alliance : Text → AllianceWithVisitorFlag → Bool
is_alliance id a = a.alliance.id == id

abbrev pub is_chosen : WarState → Bool
is_chosen s =
    not (is_empty s.selector.selected_alliance_id)
    && any (is_alliance s.selector.selected_alliance_id) s.selector.alliances

abbrev auto_select_from : List AllianceWithVisitorFlag → WarState → WarState × Option StateChange
auto_select_from [] s = (s, none)
auto_select_from (a ∷ alliances) s =
    if is_chosen s
    then (s, none)
    else (set_selected_alliance_id a.alliance.id s, some (a.alliance.id, s.selector.selected_bg))

-- The effect that selects the first alliance where none is selected, or a foreign one.
unfoldable pub auto_select : WarState → WarState × Option StateChange
auto_select s = auto_select_from s.selector.alliances s

-- The answer of `getCurrentWar`, with the `status` of the error where it throws.
pub data CurrentWarAnswer : Type 0 where
  found : War → CurrentWarAnswer
  refused : (status : Option ℕ) → CurrentWarAnswer

unfoldable pub fetch_current_war_started : WarState → WarState
fetch_current_war_started s =
    if is_empty s.selector.selected_alliance_id then s else record s { management_loading = true }

-- The statuses that mean that there is no war: none is running, or the alliance is a foreign one.
abbrev is_no_war : Option ℕ → Bool
is_no_war none = false
is_no_war (some status) = status == 404 || status == 403

unfoldable pub fetch_current_war_answered : CurrentWarAnswer → WarState → WarState
fetch_current_war_answered (found war) s = record s {
  current_war = some war;
  management_loading = false;
}
fetch_current_war_answered (refused status) s =
    if is_no_war status
    then record s { current_war = none; management_loading = false }
    else show (error load_error) (record s { management_loading = false })

-- The effect that runs when another alliance is selected.
unfoldable pub alliance_changed : WarState → WarState
alliance_changed s = fetch_current_war_started (record s { current_war = none })

-- The effect that runs when another war or battlegroup is selected.
unfoldable war_changed : WarState → WarState
war_changed s = record s {
  war_summary = none;
  war_loading = if is_empty (active_war_id s) then s.war_loading else true;
}

-- The error is thrown again after the toast.
unfoldable create_war_answered : Text → Answer War → WarState → WarState × Option Text
create_war_answered opponent_name (resolved war) s =
    (show (success (create_success opponent_name)) (record s { current_war = some war }), none)
create_war_answered opponent_name (rejected message) s =
    (show (error_toast message create_error) s, some message)

unfoldable edit_war_answered : Answer War → WarState → WarState × Option Text
edit_war_answered (resolved war) s =
    (show (success edit_war_success) (record s { current_war = some war }), none)
edit_war_answered (rejected message) s = (show (error_toast message edit_war_error) s, some message)

-- The answers of `endWar` and of the two requests of `refresh` after it.
unfoldable end_war_answered :
    Answer (Unit {0}) → Answer (List Alliance × List Alliance) → WarState → WarState
end_war_answered (resolved _) (resolved alliances) s =
    show (success end_war_success)
      (record s { selector = refresh_answered (some alliances) s.selector; current_war = none })
end_war_answered (resolved _) (rejected message) s =
    show (error_toast message end_war_error)
      (record s { selector = refresh_answered none s.selector })
end_war_answered (rejected message) alliances s = show (error_toast message end_war_error) s
