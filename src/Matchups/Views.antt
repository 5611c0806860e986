-- ===== src/Matchups/Views.antt =====
-- The three views exclude each other.
use mawster.Base.{
  ℕ, ◌+◌, ◌≤◌, List, Option, none, some, Bool, true, false, not, ◌&&◌, ◌||◌, is_empty, is_some,
  arith,
}
use mawster.Matchups.{
  Matchups, Loaded, evaluates, loads_grid, loads_defender_grid, reload_active, reload_rows,
  reload_grid,
}

abbrev pub to_ℕ : Bool → ℕ
to_ℕ true = 1
to_ℕ false = 0

is_some-reload_grid :
    {G : Type 0} (enabled : Bool) (answer : Option G) (v : Loaded (Option G))
    → to_ℕ (is_some (reload_grid enabled answer v).value) ≤ to_ℕ enabled
unfolding reload_grid
is_some-reload_grid false answer v = omega arith
is_some-reload_grid true none v = omega arith
is_some-reload_grid true (some g) v = omega arith

bounded_to_ℕ : (b : Bool) → to_ℕ b ≤ 1
bounded_to_ℕ true = omega arith
bounded_to_ℕ false = omega arith

is_empty-reload_rows :
    {R : Type 0} (enabled : Bool) (answer : Option (List R)) (v : Loaded (List R))
    → to_ℕ (not (is_empty (reload_rows enabled answer v).value)) ≤ to_ℕ enabled
unfolding reload_rows
is_empty-reload_rows false answer v = omega arith
is_empty-reload_rows true none v = bounded_to_ℕ (not (is_empty v.value))
is_empty-reload_rows true (some rows) v = bounded_to_ℕ (not (is_empty rows))

exclusive :
    (alliance champion defender node champion_set defender_set : Bool)
    → to_ℕ (alliance && ((defender || not node) && not (defender && not champion && node)))
        + to_ℕ (alliance && (champion && not defender && node) && champion_set)
        + to_ℕ (alliance && (defender && not champion && node) && defender_set)
      ≤ 1
exclusive alliance champion defender node champion_set defender_set = ground arith

module _ {R G D : Type 0} (s : Matchups R G D) where
  enabled_one : to_ℕ (evaluates s) + to_ℕ (loads_grid s) + to_ℕ (loads_defender_grid s) ≤ 1
  enabled_one =
      exclusive (not (is_empty s.alliance_id)) (is_some s.filters.champion_id)
        (is_some s.filters.defender_champion_id) (is_empty s.filters.node_number) _ _

  -- Whatever was loaded before and whatever the answers are: after all three were loaded again, at
  -- most one of the evaluation, the grid and the grid of the defender holds anything.
  pub reload_active_one_view :
      (rows : Option (List R)) (grid : Option G) (defender_grid : Option D)
      → to_ℕ (not (is_empty (reload_active rows grid defender_grid s).rows.value))
          + to_ℕ (is_some (reload_active rows grid defender_grid s).grid.value)
          + to_ℕ (is_some (reload_active rows grid defender_grid s).defender_grid.value)
        ≤ 1
  unfolding reload_active
  reload_active_one_view rows grid defender_grid = omega (
    arith,
    enabled_one,
    is_empty-reload_rows (evaluates s) rows s.rows,
    is_some-reload_grid (loads_grid s) grid s.grid,
    is_some-reload_grid (loads_defender_grid s) defender_grid s.defender_grid,
  )
