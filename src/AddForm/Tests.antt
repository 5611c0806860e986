-- ===== src/AddForm/Tests.antt =====
-- The form at concrete inputs.
use mawster.Base.{◌≤◌, length, whole, List, [], ◌∷◌, none, some, true, false, ◌≡◌, refl, codes, All}
use mawster.Roster.{RosterEntry}
use mawster.RosterFilters.{trim}
use mawster.AddForm.{AddForm, handle_submit, open_changed}
use mawster.AddForm.Prefilled.{update_of, handle_submit-prefill_from_entry}
use mawster.AddForm.Searches.{typed, due, searches, IsSearch, Event, searches_lem}

abbrev empty_form : AddForm
empty_form = record {
  champion_search = [];
  search_results = [];
  selected_champion = none;
  selected_rarity = codes "6r4";
  signature_value = whole 0;
  is_preferred_attacker = false;
  ascension = whole 0;
  adding = false;
  search_timer = none;
  notices = [];
}

abbrev preferred : RosterEntry
preferred = record {
  id = codes "e";
  game_account_id = codes "g";
  champion_id = codes "c";
  rarity = codes "7r3";
  signature = whole 20;
  champion_name = codes "Hulk";
  champion_class = codes "Science";
  alias = none;
  image_url = none;
  is_preferred_attacker = true;
  ascension = none;
  is_ascendable = false;
  has_prefight = false;
  is_saga_attacker = false;
  is_saga_defender = false;
}

-- The form is open, and its box is checked.
abbrev checked_form : AddForm
checked_form = record empty_form { is_preferred_attacker = true }

handle_submit-prefill_from_entry_example :
    ((handle_submit
        (some (codes "g"))
        (open_changed true (some preferred) (open_changed false none checked_form))).1
      ≡ some (update_of (codes "g") preferred false))
    × ((handle_submit (some (codes "g")) (open_changed true (some preferred) checked_form)).1
        ≡ some (update_of (codes "g") preferred true))
handle_submit-prefill_from_entry_example =
    handle_submit-prefill_from_entry (codes "g") preferred none checked_form refl

abbrev typing : List Event
typing = typed (codes "H") ∷ typed (codes "Hulk") ∷ due ∷ typed (codes " ") ∷ due ∷ []

searches_lem_example :
    (length (searches typing empty_form) ≤ 2) × All IsSearch (searches typing empty_form)
unfolding trim
searches_lem_example = searches_lem typing empty_form tt
