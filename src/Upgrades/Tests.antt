-- ===== src/Upgrades/Tests.antt =====
-- Upgrade requests at concrete inputs.
use mawster.Base.{none, some, true, false, ◌≡◌, refl, codes, text_eq, text_lt, In, inl, inr, whole}
use mawster.Roster.{RosterEntry, UpgradeRequest}
use mawster.Rarity.{get_upgrade_options, rarities}
use mawster.Upgrades.{
  Upgrades, initial, initiate_upgrade, handle_request_upgrade, set_selected_rarity,
}
use mawster.Upgrades.Reachable.{
  Reachable, starts, initiates, selects, handle_request_upgrade-Reachable,
}

abbrev hulk : RosterEntry
hulk = record {
  id = codes "e1";
  game_account_id = codes "a";
  champion_id = codes "c";
  rarity = codes "7r3";
  signature = whole 0;
  champion_name = codes "Hulk";
  champion_class = codes "Science";
  alias = none;
  image_url = none;
  is_preferred_attacker = false;
  ascension = none;
  is_ascendable = false;
  has_prefight = false;
  is_saga_attacker = false;
  is_saga_defender = false;
}

abbrev hulk_request : UpgradeRequest
hulk_request = record {
  id = codes "r1";
  champion_user_id = codes "e1";
  requester_game_account_id = codes "a";
  requester_pseudo = codes "me";
  requested_rarity = codes "7r5";
  current_rarity = codes "7r3";
  champion_name = codes "Hulk";
  champion_class = codes "Science";
  image_url = none;
  created_at = codes "now";
  done_at = none;
}

-- The dialog is opened for the entry, and its second option is chosen.
abbrev chosen : Upgrades
chosen = set_selected_rarity (codes "7r5") (initiate_upgrade hulk initial)

chosen-Reachable : Reachable chosen
unfolding initiate_upgrade get_upgrade_options text_lt
chosen-Reachable =
    selects (initiate_upgrade hulk initial) (codes "7r5") (inr (inl refl))
      (initiates initial hulk starts)

chosen_sent : handle_request_upgrade chosen ≡ some (codes "e1", codes "7r5")
unfolding handle_request_upgrade initiate_upgrade get_upgrade_options text_lt
chosen_sent = refl

handle_request_upgrade-Reachable_example :
    (entry : RosterEntry) × (chosen.upgrade_target ≡ some entry)
    × (codes "e1" ≡ entry.id)
    × In (codes "7r5") rarities
    × (text_lt entry.rarity (codes "7r5") ≡ true)
handle_request_upgrade-Reachable_example =
    handle_request_upgrade-Reachable chosen (codes "e1") (codes "7r5") chosen-Reachable chosen_sent
