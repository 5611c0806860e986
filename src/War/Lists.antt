-- ===== src/War/Lists.antt =====
-- The synergies and the prefights of the battlegroup.
use mawster.Base.{Answer, resolved, rejected, Text, [], ◌∷◌, ◌++◌, ◌==◌, text_eq, not, filter}
use mawster.War.{WarState, WarSynergy, WarPrefight, show}
use mawster.War.Toasts.{
  success, error_toast, synergy_add_success, synergy_add_error, synergy_remove_success,
  synergy_remove_error, prefight_add_success, prefight_add_error, prefight_remove_success,
  prefight_remove_error,
}

unfoldable add_synergy_answered : Answer WarSynergy → WarState → WarState
add_synergy_answered (resolved synergy) s =
    show (success (synergy_add_success synergy.target_champion_name))
      (record s { synergies = s.synergies ++ (synergy ∷ []) })
add_synergy_answered (rejected message) s = show (error_toast message synergy_add_error) s

unfoldable remove_synergy_answered : Text → Answer (Unit {0}) → WarState → WarState
remove_synergy_answered id (resolved _) s =
    show (success synergy_remove_success)
      (record s { synergies = filter (λ x. not (x.champion_user_id == id)) s.synergies })
remove_synergy_answered id (rejected message) s = show (error_toast message synergy_remove_error) s

unfoldable add_prefight_answered : Answer WarPrefight → WarState → WarState
add_prefight_answered (resolved prefight) s =
    show (success (prefight_add_success prefight.target_node_number))
      (record s { prefights = s.prefights ++ (prefight ∷ []) })
add_prefight_answered (rejected message) s = show (error_toast message prefight_add_error) s

unfoldable remove_prefight_answered : Text → Answer (Unit {0}) → WarState → WarState
remove_prefight_answered id (resolved _) s =
    show (success prefight_remove_success)
      (record s { prefights = filter (λ x. not (x.champion_user_id == id)) s.prefights })
remove_prefight_answered id (rejected message) s =
    show (error_toast message prefight_remove_error) s
