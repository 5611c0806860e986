-- ===== src/War/Defense.antt =====
-- The handlers that change the placements of the summary.
use mawster.Base.{
  Answer, resolved, rejected, ℕ, Text, List, [], ◌∷◌, ◌++◌, Option, none, some, Bool, true, false,
  nat_eq, remove_key, modify_key, if◌then◌else◌,
}
use mawster.War.{WarState, WarPlacement, WarDefenseSummary, WarSynergy, WarPrefight, show}
use mawster.War.Toasts.{
  success, error, error_toast, load_error, place_success, place_error, remove_success, remove_error,
  clear_success, assign_success, assign_error, remove_attacker_success, remove_attacker_error,
  mark_combat_error, assist_add_success, assist_add_error, assist_remove_success,
  assist_remove_error, note_saved, note_deleted, note_delete_error,
}

-- `setWarSummary((prev) => (prev ? { ...prev, placements: f(prev.placements) } : prev))`
abbrev pub change :
    (List WarPlacement → List WarPlacement) → Option WarDefenseSummary → Option WarDefenseSummary
change f none = none
change f (some prev) = some (record prev { placements = f prev.placements })

abbrev pub set_placements : (List WarPlacement → List WarPlacement) → WarState → WarState
set_placements f s = record s { war_summary = change f s.war_summary }

abbrev pub node_of : WarPlacement → ℕ
node_of p = p.node_number

-- The answers of the three requests of `fetchWarDefense`, `none` where one of them throws.
abbrev pub DefenseAnswer : Type 0
DefenseAnswer = Option (WarDefenseSummary × List WarSynergy × List WarPrefight)

unfoldable fetch_war_defense_started : Bool → WarState → WarState
fetch_war_defense_started silent s = record s {
  war_loading = if silent then s.war_loading else true;
}

unfoldable pub fetch_war_defense_answered : Bool → DefenseAnswer → WarState → WarState
fetch_war_defense_answered silent (some (summary, synergies, prefights)) s = record s {
  war_summary = some summary;
  synergies = synergies;
  prefights = prefights;
  war_loading = if silent then s.war_loading else false;
}
fetch_war_defense_answered true none s = s
fetch_war_defense_answered false none s = show (error load_error) (record s { war_loading = false })

unfoldable pub place_defender_answered : ℕ → Text → Answer WarPlacement → WarState → WarState
place_defender_answered node champion_name (resolved placement) s =
    show (success (place_success champion_name node))
      (set_placements (λ ps. remove_key node_of node ps ++ (placement ∷ [])) s)
place_defender_answered node champion_name (rejected message) s =
    show (error_toast message place_error) s

unfoldable pub remove_defender_answered : ℕ → Answer (Unit {0}) → WarState → WarState
remove_defender_answered node (resolved _) s =
    show (success remove_success) (set_placements (λ ps. remove_key node_of node ps) s)
remove_defender_answered node (rejected message) s = show (error_toast message remove_error) s

unfoldable pub clear_bg_answered : Answer (Unit {0}) → WarState → WarState
clear_bg_answered (resolved _) s = show (success clear_success) (set_placements (λ ps. []) s)
clear_bg_answered (rejected message) s = show (error load_error) s

-- The attacker that is assigned, with all that the page shows of it.
pub record Attacker : Type 0 where
  pub champion_user_id : Text
  pub game_account_id : Text
  pub game_pseudo : Text
  pub champion_name : Text
  pub champion_class : Text
  pub image_url : Option Text
  pub rarity : Text
  pub ascension : ℕ
  pub is_preferred_attacker : Bool
  pub is_saga_attacker : Bool
  pub is_saga_defender : Bool

abbrev pub with_attacker : Attacker → WarPlacement → WarPlacement
with_attacker attacker p = record p {
  attacker_champion_user_id = some attacker.champion_user_id;
  attacker_pseudo = some attacker.game_pseudo;
  attacker_champion_name = some attacker.champion_name;
  attacker_champion_class = some attacker.champion_class;
  attacker_image_url = attacker.image_url;
  attacker_rarity = some attacker.rarity;
  attacker_is_preferred_attacker = some attacker.is_preferred_attacker;
  attacker_ascension = some attacker.ascension;
  attacker_is_saga_attacker = some attacker.is_saga_attacker;
  attacker_is_saga_defender = some attacker.is_saga_defender;
}

unfoldable pub assign_attacker_answered : ℕ → Attacker → Answer (Unit {0}) → WarState → WarState
assign_attacker_answered node attacker (resolved _) s =
    show (success (assign_success attacker.champion_name node))
      (set_placements (λ ps. modify_key node_of node (with_attacker attacker) ps) s)
assign_attacker_answered node attacker (rejected message) s =
    show (error_toast message assign_error) s

-- `placements.map((p) => (p.node_number === updated.node_number ? updated : p))`
abbrev pub replace : WarPlacement → WarState → WarState
replace updated s =
    set_placements (λ ps. modify_key node_of updated.node_number (λ p. updated) ps) s

-- The synergies are read again; `rejected` where that request throws.
unfoldable pub remove_attacker_answered :
    Answer WarPlacement → Answer (List WarSynergy) → WarState → WarState
remove_attacker_answered (resolved updated) (resolved synergies) s =
    record (show (success remove_attacker_success) (replace updated s)) { synergies = synergies }
remove_attacker_answered (resolved updated) (rejected message) s =
    show (error_toast message remove_attacker_error)
      (show (success remove_attacker_success) (replace updated s))
remove_attacker_answered (rejected message) synergies s =
    show (error_toast message remove_attacker_error) s

unfoldable pub update_ko_answered : Answer WarPlacement → WarState → WarState
update_ko_answered (resolved updated) s = replace updated s
update_ko_answered (rejected message) s = show (error_toast message load_error) s

-- The answers of `handleToggleCombatCompleted`, `handleToggleFightNotDone` and
-- `handleTogglePlanningError`, which differ in the request.
unfoldable pub toggle_answered : Answer WarPlacement → WarState → WarState
toggle_answered (resolved updated) s = replace updated s
toggle_answered (rejected message) s = show (error_toast message mark_combat_error) s

unfoldable pub assign_assist_answered : Answer WarPlacement → WarState → WarState
assign_assist_answered (resolved updated) s = show (success assist_add_success) (replace updated s)
assign_assist_answered (rejected message) s = show (error_toast message assist_add_error) s

unfoldable pub remove_assist_answered : Answer WarPlacement → WarState → WarState
remove_assist_answered (resolved updated) s =
    show (success assist_remove_success) (replace updated s)
remove_assist_answered (rejected message) s = show (error_toast message assist_remove_error) s

abbrev pub with_note : Option Text → WarPlacement → WarPlacement
with_note content p = record p { note = content }

-- The content of the note that the server answers.
unfoldable pub save_note_answered : ℕ → Answer Text → WarState → WarState
save_note_answered node (resolved content) s =
    show (success note_saved)
      (set_placements (λ ps. modify_key node_of node (with_note (some content)) ps) s)
save_note_answered node (rejected message) s = show (error_toast message load_error) s

unfoldable pub delete_note_answered : ℕ → Answer (Unit {0}) → WarState → WarState
delete_note_answered node (resolved _) s =
    show (success note_deleted)
      (set_placements (λ ps. modify_key node_of node (with_note none) ps) s)
delete_note_answered node (rejected message) s = show (error_toast message note_delete_error) s
