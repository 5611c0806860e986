-- ===== src/War/Dialogs.antt =====
-- The setters that the war page hands to its dialogs.
use mawster.Base.{ℕ, Option, Bool}
use mawster.War.{WarState, WarMode}

unfoldable set_war_mode : WarMode → WarState → WarState
set_war_mode mode s = record s { war_mode = mode }

unfoldable set_selector_node : Option ℕ → WarState → WarState
set_selector_node node s = record s { selector_node = node }

unfoldable set_attacker_selector_node : Option ℕ → WarState → WarState
set_attacker_selector_node node s = record s { attacker_selector_node = node }

unfoldable set_show_create_dialog : Bool → WarState → WarState
set_show_create_dialog show s = record s { show_create_dialog = show }

unfoldable set_show_end_confirm : Bool → WarState → WarState
set_show_end_confirm show s = record s { show_end_confirm = show }

unfoldable set_show_clear_confirm : Bool → WarState → WarState
set_show_clear_confirm show s = record s { show_clear_confirm = show }
