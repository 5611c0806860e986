-- ===== src/RosterFilters/Tests.antt =====
-- The filters at concrete inputs.
use mawster.Base.{
  Text, whole, List, [], ◌∷◌, none, some, false, ◌≡◌, refl, codes, starts_with, includes,
}
use mawster.Roster.{RosterEntry}
use mawster.RosterFilters.{empty_filters, is_filter_active, apply_roster_filters, trim}

abbrev entry : Text → RosterEntry
entry name = record {
  id = name;
  game_account_id = codes "a";
  champion_id = name;
  rarity = codes "7r3";
  signature = whole 20;
  champion_name = name;
  champion_class = codes "Science";
  alias = none;
  image_url = none;
  is_preferred_attacker = false;
  ascension = some (whole 1);
  is_ascendable = false;
  has_prefight = false;
  is_saga_attacker = false;
  is_saga_defender = false;
}

abbrev two : List RosterEntry
two = entry (codes "hulk") ∷ entry (codes "thor") ∷ []

abbrev lower : Text → Text
lower s = s

search_by_name :
    apply_roster_filters lower two (record empty_filters { name = codes " ho " })
    ≡ entry (codes "thor") ∷ []
unfolding apply_roster_filters trim includes starts_with
search_by_name = refl

-- A name of spaces only is no filter.
spaces_inactive : is_filter_active (record empty_filters { name = codes "  " }) ≡ false
unfolding is_filter_active trim
spaces_inactive = refl
