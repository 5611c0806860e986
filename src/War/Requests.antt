-- ===== src/War/Requests.antt =====
-- What the handlers of the war page send. Each names the alliance, the war and the battlegroup that
-- are selected.
use mawster.Base.{ℕ, Num, Text, List, Option, none, some, Bool, if◌then◌else◌}
use mawster.War.{WarState, active_war_id, is_ready}

-- `selectedAllianceId, activeWarId, selectedBg`
pub record Target : Type 0 where
  pub alliance_id : Text
  pub war_id : Text
  pub bg : ℕ

pub data Request : Type 0 where
  get_war_defense clear_war_bg : Target → Request
  place_war_defender :
      Target → (node : ℕ) → (champion_id : Text) → (stars rank ascension : ℕ) → Request
  remove_war_defender remove_war_attacker toggle_combat_completed toggle_fight_not_done :
      Target → ℕ → Request
  toggle_planning_error remove_war_assist delete_war_fight_note : Target → ℕ → Request
  assign_war_attacker assign_war_assist upsert_war_fight_note : Target → ℕ → Text → Request
  update_war_ko : Target → (node new_ko : ℕ) → Request
  add_war_synergy : Target → (champion_user_id target_champion_user_id : Text) → Request
  remove_war_synergy remove_war_prefight : Target → Text → Request
  add_war_prefight : Target → (champion_user_id : Text) → (node : ℕ) → Request
  create_war : (alliance_id opponent_name : Text) → (banned_champion_ids : List Text) → Request
  update_war :
      (alliance_id war_id opponent_name : Text) → (banned_champion_ids : List Text) → Request
  end_war : (alliance_id war_id : Text) → (win : Bool) → (elo_change : Option Num) → Request

abbrev target : WarState → Target
target s = record {
  alliance_id = s.selector.selected_alliance_id;
  war_id = active_war_id s;
  bg = s.selector.selected_bg;
}

-- `if (!selectedAllianceId || !activeWarId) return`, and then the request.
abbrev send : (Target → Request) → WarState → Option Request
send request s = if is_ready s then some (request (target s)) else none

-- The request for the node of an open selector.
abbrev send_at : Option ℕ → (Target → ℕ → Request) → WarState → Option Request
send_at none request s = none
send_at (some node) request s = send (λ t. request t node) s

abbrev fetch_war_defense : WarState → Option Request
fetch_war_defense s = send Request.get_war_defense s

abbrev handle_place_defender : Text → ℕ → ℕ → ℕ → WarState → Option Request
handle_place_defender champion_id stars rank ascension s =
    send_at s.selector_node
      (λ t node. Request.place_war_defender t node champion_id stars rank ascension) s

abbrev pub do_remove_defender : ℕ → WarState → Option Request
do_remove_defender node s = send (λ t. Request.remove_war_defender t node) s

abbrev handle_clear_bg : WarState → Option Request
handle_clear_bg s = send Request.clear_war_bg s

abbrev handle_assign_attacker : Text → WarState → Option Request
handle_assign_attacker champion_user_id s =
    send_at s.attacker_selector_node (λ t node. Request.assign_war_attacker t node champion_user_id)
      s

abbrev handle_remove_attacker : ℕ → WarState → Option Request
handle_remove_attacker node s = send (λ t. Request.remove_war_attacker t node) s

abbrev handle_update_ko : ℕ → ℕ → WarState → Option Request
handle_update_ko node new_ko s = send (λ t. Request.update_war_ko t node new_ko) s

abbrev handle_toggle_combat_completed : ℕ → WarState → Option Request
handle_toggle_combat_completed node s = send (λ t. Request.toggle_combat_completed t node) s

abbrev handle_toggle_fight_not_done : ℕ → WarState → Option Request
handle_toggle_fight_not_done node s = send (λ t. Request.toggle_fight_not_done t node) s

abbrev handle_toggle_planning_error : ℕ → WarState → Option Request
handle_toggle_planning_error node s = send (λ t. Request.toggle_planning_error t node) s

abbrev handle_assign_assist : ℕ → Text → WarState → Option Request
handle_assign_assist node champion_user_id s =
    send (λ t. Request.assign_war_assist t node champion_user_id) s

abbrev handle_remove_assist : ℕ → WarState → Option Request
handle_remove_assist node s = send (λ t. Request.remove_war_assist t node) s

abbrev handle_save_note : ℕ → Text → WarState → Option Request
handle_save_note node content s = send (λ t. Request.upsert_war_fight_note t node content) s

abbrev handle_delete_note : ℕ → WarState → Option Request
handle_delete_note node s = send (λ t. Request.delete_war_fight_note t node) s

abbrev handle_add_synergy : Text → Text → WarState → Option Request
handle_add_synergy champion_user_id target_champion_user_id s =
    send (λ t. Request.add_war_synergy t champion_user_id target_champion_user_id) s

abbrev handle_remove_synergy : Text → WarState → Option Request
handle_remove_synergy champion_user_id s =
    send (λ t. Request.remove_war_synergy t champion_user_id) s

abbrev handle_add_prefight : Text → ℕ → WarState → Option Request
handle_add_prefight champion_user_id node s =
    send (λ t. Request.add_war_prefight t champion_user_id node) s

abbrev handle_remove_prefight : Text → WarState → Option Request
handle_remove_prefight champion_user_id s =
    send (λ t. Request.remove_war_prefight t champion_user_id) s

-- Creating a war does not ask for one that is selected.
abbrev handle_create_war : Text → List Text → WarState → Option Request
handle_create_war opponent_name banned_champion_ids s =
    some (Request.create_war s.selector.selected_alliance_id opponent_name banned_champion_ids)

abbrev handle_edit_war : Text → List Text → WarState → Option Request
handle_edit_war opponent_name banned_champion_ids s = elim s.current_war [
  | none ↦ none
  | some war ↦
      some (
        Request.update_war s.selector.selected_alliance_id war.id opponent_name banned_champion_ids)
]

abbrev handle_end_war : Bool → Option Num → WarState → Option Request
handle_end_war win elo_change s = elim s.current_war [
  | none ↦ none
  | some war ↦ some (Request.end_war s.selector.selected_alliance_id war.id win elo_change)
]
