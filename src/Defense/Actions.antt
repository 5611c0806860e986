-- ===== src/Defense/Actions.antt =====
-- Placing and removing defenders, and the choice of the alliance, the battlegroup and the node.
-- After an action the defense is loaded again without a message, and the interval starts anew.
use mawster.Base.{
  Answer, resolved, rejected, ℕ, Text, [], ◌∷◌, Option, none, some, Bool, true, false, ◌||◌, find,
  ◌==◌, text_eq, if◌then◌else◌,
}
use mawster.Alliances.{Alliance}
use mawster.Defense.{
  DefensePage, Notice, show, is_ready, success, error, message_or, place_success, place_error,
  remove_success, remove_error, clear_success, clear_error,
}
use mawster.Defense.Polling.{DefenseAnswer, fetch_defense_answered, reset_poll_timer}

pub data Request : Type 0 where
  place_defender :
      (alliance_id : Text) → (bg node : ℕ) → (champion_user_id game_account_id : Text) → Request
  remove_defender : (alliance_id : Text) → (bg node : ℕ) → Request
  clear_defense : (alliance_id : Text) → (bg : ℕ) → Request

unfoldable pub handle_place_defender : Text → Text → DefensePage → Option Request
handle_place_defender champion_user_id game_account_id s = elim s.selector_node [
  | none ↦ none
  | some node ↦
      if is_ready s
      then some (
          place_defender s.selector.selected_alliance_id s.selector.selected_bg node
            champion_user_id game_account_id)
      else none
]

unfoldable pub handle_remove_defender : ℕ → DefensePage → Option Request
handle_remove_defender node s =
    if is_ready s
    then some (remove_defender s.selector.selected_alliance_id s.selector.selected_bg node)
    else none

unfoldable handle_clear_defense : DefensePage → Option Request
handle_clear_defense s =
    if is_ready s
    then some (clear_defense s.selector.selected_alliance_id s.selector.selected_bg)
    else none

-- What follows an action that went well.
abbrev acted : Notice → DefenseAnswer → DefensePage → DefensePage
acted notice reloaded s =
    reset_poll_timer (fetch_defense_answered true reloaded (show (success notice) s))

-- `node` is the node of the request.
unfoldable pub place_answered :
    Text → ℕ → Answer (Unit {0}) → DefenseAnswer → DefensePage → DefensePage
unfolding reset_poll_timer fetch_defense_answered
place_answered champion_name node (resolved _) reloaded s =
    acted (place_success champion_name node) reloaded s
place_answered champion_name node (rejected message) reloaded s =
    show (error (message_or message place_error)) s

unfoldable pub remove_answered : Answer (Unit {0}) → DefenseAnswer → DefensePage → DefensePage
unfolding reset_poll_timer fetch_defense_answered
remove_answered (resolved _) reloaded s = acted remove_success reloaded s
remove_answered (rejected message) reloaded s = show (error (message_or message remove_error)) s

unfoldable pub clear_answered : Answer (Unit {0}) → DefenseAnswer → DefensePage → DefensePage
unfolding reset_poll_timer fetch_defense_answered
clear_answered (resolved _) reloaded s = record (acted clear_success reloaded s) {
  clear_confirm_open = false;
}
clear_answered (rejected message) reloaded s =
    show (error (message_or message clear_error)) (record s { clear_confirm_open = false })

unfoldable set_clear_confirm_open : Bool → DefensePage → DefensePage
set_clear_confirm_open value s = record s { clear_confirm_open = value }

unfoldable pub set_selector_node : Option ℕ → DefensePage → DefensePage
set_selector_node node s = record s { selector_node = node }

-- `can_manage` and `is_owner` are those of the membership.
abbrev user_can_manage : (can_manage is_owner : Alliance → Bool) → DefensePage → Bool
user_can_manage can_manage is_owner s =
    elim (find (λ a. a.alliance.id == s.selector.selected_alliance_id) s.selector.alliances) [
      | none ↦ false
      | some a ↦ can_manage a.alliance || is_owner a.alliance
    ]

unfoldable pub handle_node_click :
    (can_manage is_owner : Alliance → Bool) → ℕ → DefensePage → DefensePage
handle_node_click can_manage is_owner node s =
    if user_can_manage can_manage is_owner s then record s { selector_node = some node } else s

abbrev pub set_selected : Text → ℕ → DefensePage → DefensePage
set_selected alliance_id bg s = record s {
  selector = record s.selector { selected_alliance_id = alliance_id; selected_bg = bg };
}

-- A call of `onStateChange`.
abbrev pub StateChange : Type 0
StateChange = Text × ℕ

-- The effect that selects the first alliance where none is selected.
unfoldable auto_select : DefensePage → DefensePage × Option StateChange
auto_select s = elim s.selector.alliances [
  | [] ↦ (s, none)
  | a ∷ alliances ↦ if is_ready s then (s, none) else (
    set_selected a.alliance.id s.selector.selected_bg s,
    some (a.alliance.id, s.selector.selected_bg),
  )
]

unfoldable handle_bg_change : ℕ → DefensePage → DefensePage × Option StateChange
handle_bg_change bg s = (
  set_selected s.selector.selected_alliance_id bg s,
  if is_ready s then some (s.selector.selected_alliance_id, bg) else none,
)

unfoldable handle_alliance_change : Text → DefensePage → DefensePage × Option StateChange
handle_alliance_change alliance_id s = (set_selected alliance_id 1 s, some (alliance_id, 1))
