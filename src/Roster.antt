-- ===== src/Roster.antt =====
-- The data of front/app/services/roster.ts and front/app/services/champions.ts that the roster
-- screens pass around. A number is `Num`; `null` and `undefined` are `none`.
use mawster.Base.{Bool, Num, Option, Text}

pub record RosterEntry : Type 0 where
  pub id : Text
  pub game_account_id : Text
  pub champion_id : Text
  pub rarity : Text
  pub signature : Num
  pub champion_name : Text
  pub champion_class : Text
  pub alias : Option Text
  pub image_url : Option Text
  pub is_preferred_attacker : Bool
  -- typed `number`; every reader still writes `ascension ?? 0`
  pub ascension : Option Num
  pub is_ascendable : Bool
  pub has_prefight : Bool
  pub is_saga_attacker : Bool
  pub is_saga_defender : Bool

pub record BulkChampionEntry : Type 0 where
  pub champion_name : Text
  pub rarity : Text
  pub signature : Num
  pub is_preferred_attacker : Bool
  pub ascension : Num

pub record UpgradeRequest : Type 0 where
  pub id : Text
  pub champion_user_id : Text
  pub requester_game_account_id : Text
  pub requester_pseudo : Text
  pub requested_rarity : Text
  pub current_rarity : Text
  pub champion_name : Text
  pub champion_class : Text
  pub image_url : Option Text
  pub created_at : Text
  pub done_at : Option Text

-- The fields of a searched champion that the import reads.
pub record Champion : Type 0 where
  pub name : Text
  pub champion_class : Text
  pub image_url : Option Text
