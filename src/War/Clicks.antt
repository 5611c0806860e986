-- ===== src/War/Clicks.antt =====
-- Clicks on the map, and the removal of a defender behind its dialog.
pub mod Confirmed
pub mod Opened
use mawster.Base.{
  is_truthy, ℕ, List, [], ◌∷◌, Option, none, some, Bool, true, false, not, ◌&&◌, is_empty, any,
  find, ◌==◌, nat_eq, if◌then◌else◌,
}
use mawster.Alliances.{Alliance, AllianceWithVisitorFlag}
use mawster.War.{
  WarState, WarPlacement, WarMode, attackers, defenders, export, show, active_war_id, placements,
  selected_alliance, is_ready,
}
use mawster.War.Toasts.{warning, defender_required}
use mawster.War.Requests.{Request, do_remove_defender}

abbrev is_at : ℕ → WarPlacement → Bool
is_at node p = p.node_number == node

-- `!selectedAlliance || !canManage(selectedAlliance)`, negated.
abbrev can_manage_war : (Alliance → Bool) → WarState → Bool
can_manage_war can_manage s = elim (selected_alliance s) [
  | none ↦ false
  | some a ↦ can_manage a.alliance
]

abbrev open_attackers : ℕ → WarState → WarState
open_attackers node s =
    if any (is_at node) (placements s)
    then record s { attacker_selector_node = some node }
    else show (warning defender_required) s

abbrev open_defenders : (Alliance → Bool) → ℕ → WarState → WarState
open_defenders can_manage node s =
    if can_manage_war can_manage s then record s { selector_node = some node } else s

abbrev click_in : WarMode → (Alliance → Bool) → ℕ → WarState → WarState
click_in attackers can_manage node s = open_attackers node s
click_in defenders can_manage node s = open_defenders can_manage node s
click_in export can_manage node s = s

unfoldable pub handle_node_click : (Alliance → Bool) → ℕ → WarState → WarState
handle_node_click can_manage node s =
    if is_empty (active_war_id s) then s else click_in s.war_mode can_manage node s

-- Whether the defender on a node has an attacker.
abbrev has_attacker : Option WarPlacement → Bool
has_attacker none = false
has_attacker (some p) = is_truthy p.attacker_champion_user_id

unfoldable pub handle_remove_defender : ℕ → WarState → WarState × Option Request
handle_remove_defender node s =
    if not (is_ready s)
    then (s, none)
    else if has_attacker (find (is_at node) (placements s))
    then (record s { pending_remove_node = some node }, none)
    else (s, do_remove_defender node s)

unfoldable set_pending_remove_node : Option ℕ → WarState → WarState
set_pending_remove_node node s = record s { pending_remove_node = node }

unfoldable confirm_removal : Option ℕ → WarState → WarState × Option Request
confirm_removal none s = (s, none)
confirm_removal (some node) s = (record s { pending_remove_node = none }, do_remove_defender node s)

unfoldable handle_confirm_remove_defender : WarState → WarState × Option Request
handle_confirm_remove_defender s = confirm_removal s.pending_remove_node s
