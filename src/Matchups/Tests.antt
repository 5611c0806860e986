-- ===== src/Matchups/Tests.antt =====
-- The matchups at concrete inputs; a row and a grid are numbers.
use mawster.Base.{ℕ, ◌+◌, ◌≤◌, [], ◌∷◌, none, some, false, not, ◌≡◌, refl, codes, is_empty, is_some}
use mawster.Matchups.{Matchups, empty_filters, evaluate_request, reload_active, reload_grid}
use mawster.Matchups.Views.{to_ℕ, reload_active_one_view}

-- An attacker was picked alone; then a node is picked as well.
abbrev with_grid : Matchups ℕ ℕ ℕ
with_grid = record {
  alliance_id = codes "a";
  filters = record empty_filters { champion_id = some (codes "hulk"); node_number = codes "12" };
  rows = record { value = []; loading = false; error = none };
  grid = record { value = some 3; loading = false; error = none };
  defender_grid = record { value = none; loading = false; error = none };
}

asks_for_node :
    evaluate_request {N = ℕ} (λ n. 12) with_grid
    ≡ some (
      codes "a",
      record {
        champion_id = some (codes "hulk");
        defender_champion_id = none;
        node_number = some 12;
        game_account_id = none;
      },
    )
unfolding evaluate_request
asks_for_node = refl

grid_dropped : (reload_active (some (7 ∷ [])) (some 4) none with_grid).grid.value ≡ none
unfolding reload_active reload_grid
grid_dropped = refl

reload_active_one_view_example :
    to_ℕ (not (is_empty (reload_active (some (7 ∷ [])) (some 4) none with_grid).rows.value))
      + to_ℕ (is_some (reload_active (some (7 ∷ [])) (some 4) none with_grid).grid.value)
      + to_ℕ (is_some (reload_active (some (7 ∷ [])) (some 4) none with_grid).defender_grid.value)
    ≤ 1
reload_active_one_view_example = reload_active_one_view with_grid (some (7 ∷ [])) (some 4) none
