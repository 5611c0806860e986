-- ===== src/War/Tests.antt =====
-- The war page at concrete inputs.
use mawster.Base.{
  resolved, rejected, ℕ, ℤ, ◌↔◌, ◌≤◌, Text, List, [], ◌∷◌, Option, none, some, true, false, ◌≡◌,
  refl, codes, text_beq, arith, nat_eq,
}
use mawster.Alliances.{AllianceWithVisitorFlag}
use mawster.War.{WarState, WarPlacement, attackers}
use mawster.War.Board.{
  Event, happen_all, play_all, board_of, IsValid, placed, removed, ko_updated, note_saved,
}
use mawster.War.Board.Refines.{happen_all_refines}
use mawster.War.Clicks.Confirmed.{removals, removals_lem, removes, confirms}
use mawster.War.Current.{
  auto_select, is_chosen, alliance_changed, fetch_current_war_answered, refused,
}
use mawster.War.Requests.{Request}
use mawster.War.Service.{call}
use mawster.War.Service.Routes.{call_injective}
use mawster.War.Current.Chosen.{auto_select-is_chosen}

abbrev placement : ℕ → Option Text → WarPlacement
placement node attacker = record {
  id = codes "p";
  war_id = codes "w";
  battlegroup = 1;
  node_number = node;
  champion_id = codes "c";
  champion_name = codes "Hulk";
  champion_class = codes "Science";
  image_url = none;
  rarity = codes "7r3";
  ascension = 0;
  placed_by_pseudo = none;
  created_at = codes "2026";
  ko_count = 0;
  is_combat_completed = false;
  is_fight_not_done = false;
  is_planning_error = false;
  attacker_champion_user_id = attacker;
  attacker_game_account_id = attacker;
  attacker_pseudo = none;
  attacker_champion_name = none;
  attacker_champion_class = none;
  attacker_image_url = none;
  attacker_rarity = none;
  attacker_is_preferred_attacker = none;
  is_saga_attacker = false;
  is_saga_defender = false;
  attacker_ascension = none;
  attacker_is_saga_attacker = none;
  attacker_is_saga_defender = none;
  is_assisted = false;
  assistor_champion_user_id = none;
  assistor_game_account_id = none;
  assistor_pseudo = none;
  assistor_champion_name = none;
  assistor_champion_class = none;
  assistor_image_url = none;
  assistor_rarity = none;
  assistor_ascension = none;
  note = none;
  note_id = none;
  note_blocked = none;
}

abbrev alliance : AllianceWithVisitorFlag
alliance = record { alliance = record { id = codes "a"; name = codes "A" }; is_visitor = false }

-- Nodes 1 and 3 have a defender, and that of node 3 has an attacker.
abbrev at_war : Text → WarState
at_war selected = record {
  selector = record {
    alliances = alliance ∷ [];
    selected_alliance_id = selected;
    selected_bg = 1;
    loading = false;
  };
  current_war =
      some (record { id = codes "w"; alliance_id = codes "a"; opponent_name = codes "B" });
  management_loading = false;
  war_mode = attackers;
  war_summary = some (record {
    war_id = codes "w";
    battlegroup = 1;
    placements = placement 1 none ∷ placement 3 (some (codes "u")) ∷ [];
  });
  synergies = [];
  prefights = [];
  war_loading = false;
  selector_node = none;
  attacker_selector_node = none;
  pending_remove_node = none;
  show_create_dialog = false;
  show_end_confirm = false;
  show_clear_confirm = false;
  toasts = [];
}

abbrev a_state : WarState
a_state = at_war (codes "a")

a_state-IsValid : IsValid a_state
a_state-IsValid = record { loaded = refl; keyed = λ n. ground arith }

abbrev answers : List Event
answers =
    placed 1 (codes "Hulk") (resolved (placement 1 (some (codes "v"))))
    ∷ removed 3 (resolved tt)
    ∷ ko_updated (rejected (codes "late"))
    ∷ note_saved 1 (resolved (codes "watch out"))
    ∷ []

happen_all_refines_example :
    IsValid (happen_all answers a_state)
    × (board_of (happen_all answers a_state) ≡ play_all answers (board_of a_state))
happen_all_refines_example =
    happen_all_refines answers a_state a_state-IsValid (refl, (tt, (tt, (tt, tt))))

removals_lem_example :
    (removals 3 (removes 3 ∷ confirms ∷ confirms ∷ []) a_state ≤ 2)
    × (removals 3 (removes 3 ∷ confirms ∷ confirms ∷ []) a_state ≤ 1)
unfolding text_beq
removals_lem_example = removals_lem 3 (removes 3 ∷ confirms ∷ confirms ∷ []) a_state refl

-- The link of another alliance.
abbrev linked : WarState
linked = at_war (codes "b")

auto_select-is_chosen_example :
    (is_chosen (auto_select linked).0 ≡ true)
    × (auto_select (auto_select linked).0 ≡ ((auto_select linked).0, none))
auto_select-is_chosen_example = auto_select-is_chosen alliance [] linked refl refl

abbrev after_link : WarState
after_link =
    alliance_changed (auto_select (fetch_current_war_answered (refused (some 403)) linked)).0

-- A lost war: the rating goes down by 12, or up.
abbrev lost : ℤ → Request
lost elo_change =
    Request.end_war (codes "a") (codes "w") false (some (record { floor = elo_change; part = 0 }))

call_injective_example :
    (call (lost (ℤ.negsuc 11)) ≡ call (lost (ℤ.pos 12))) ↔ (lost (ℤ.negsuc 11) ≡ lost (ℤ.pos 12))
call_injective_example = call_injective (lost (ℤ.negsuc 11)) (lost (ℤ.pos 12))
