-- ===== src/Attackers.antt =====
-- front/app/game/war/_components/use-available-attackers.ts: the attackers that can be assigned,
-- searched and grouped by player. `toLowerCase` is an argument.
pub mod Groups
mod Tests
use mawster.Base.{
  map_set, map_get, map_values, Text, List, [], ◌∷◌, ◌++◌, Option, none, some, Bool, true, false,
  not, ◌&&◌, ◌||◌, is_empty, includes, filter, or_else, ◌==◌, text_eq, if◌then◌else◌,
}

-- The fields of an attacker that are read here, and the id that tells them apart.
pub record AvailableAttacker : Type 0 where
  pub champion_user_id : Text
  pub game_account_id : Text
  pub game_pseudo : Text
  pub champion_name : Text
  pub champion_alias : Option Text

pub record AttackerGroup : Type 0 where
  pub pseudo : Text
  pub game_account_id : Text
  pub attackers : List AvailableAttacker

pub record Attackers : Type 0 where
  pub available : List AvailableAttacker
  pub player_search : Text
  pub champion_search : Text
  pub loading : Bool
  pub error : Bool

-- What `fetchAvailable` sets before its request; nothing without `fetchFn`.
abbrev fetch_started : Bool → Attackers → Attackers
fetch_started false s = s
fetch_started true s = record s { loading = true; error = false }

-- The answer, `none` where `fetchFn` throws, with the `finally` block.
abbrev fetch_answered : Option (List AvailableAttacker) → Attackers → Attackers
fetch_answered none s = record s { loading = false; error = true }
fetch_answered (some attackers) s = record s { available = attackers; loading = false }

-- The effect, for whether the dialog is open and there is a `fetchFn`.
abbrev opened : Bool → Bool → Attackers → Attackers
opened false has_fetch s = s
opened true has_fetch s = record (fetch_started has_fetch s) {
  player_search = [];
  champion_search = [];
}

module _ (lower : Text → Text) where
  abbrev match_player : Text → AvailableAttacker → Bool
  match_player player_search a =
      is_empty player_search || includes (lower a.game_pseudo) (lower player_search)

  abbrev match_champion : Text → AvailableAttacker → Bool
  match_champion champion_search a =
      is_empty champion_search
      || includes (lower a.champion_name) (lower champion_search)
      || includes (lower (or_else a.champion_alias [])) (lower champion_search)

  unfoldable filter_by_search : Attackers → List AvailableAttacker → List AvailableAttacker
  filter_by_search s items =
      filter (λ a. match_player s.player_search a && match_champion s.champion_search a) items

-- A group that has nobody yet, and a group with one more.
abbrev new_group : AvailableAttacker → AttackerGroup
new_group a = record { pseudo = a.game_pseudo; game_account_id = a.game_account_id; attackers = [] }

abbrev push : AvailableAttacker → AttackerGroup → AttackerGroup
push a g = record g { attackers = g.attackers ++ (a ∷ []) }

-- One round of the loop. The group is shared by reference with the `Map`, so that pushing to it
-- changes the value of its key, in its place.
unfoldable add_attacker :
    AvailableAttacker → List (Text × AttackerGroup) → List (Text × AttackerGroup)
add_attacker a group_map =
    map_set a.game_account_id (push a (or_else (map_get a.game_account_id group_map) (new_group a)))
      group_map

unfoldable add_attackers :
    List AvailableAttacker → List (Text × AttackerGroup) → List (Text × AttackerGroup)
add_attackers [] group_map = group_map
add_attackers (a ∷ filtered) group_map = add_attackers filtered (add_attacker a group_map)

unfoldable build_groups : List AvailableAttacker → List AttackerGroup
build_groups filtered = map_values (add_attackers filtered [])
