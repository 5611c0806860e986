-- ===== src/AddForm.antt =====
-- front/hooks/use-add-champion-form.ts: the form that adds a champion to the roster or edits an
-- entry, the timer that delays its search, and the effect of
-- front/app/game/account/_components/add-champion-form.tsx that prefills or resets it.
pub mod Prefilled
pub mod Searches
mod Tests
use mawster.Base.{
  Answer, resolved, rejected, after, Text, Num, whole, List, [], ◌∷◌, Option, none, some, Bool,
  true, false, codes, is_empty, is_truthy, starts_with, or_else, if◌then◌else◌,
}
use mawster.Roster.{RosterEntry}
use mawster.RosterFilters.{trim}

-- `Champion` of champions.ts with all its fields.
pub record FormChampion : Type 0 where
  pub id : Text
  pub name : Text
  pub champion_class : Text
  pub image_url : Option Text
  pub is_7_star : Bool
  pub is_ascendable : Bool
  pub has_prefight : Bool
  pub alias : Option Text

pub data Notice : Type 0 where
  add_success : (champion_name : Text) → Notice
  add_error : Notice
  -- the text of an error
  text : Text → Notice

pub record AddForm : Type 0 where
  pub champion_search : Text
  pub search_results : List FormChampion
  pub selected_champion : Option FormChampion
  pub selected_rarity : Text
  pub signature_value : Num
  pub is_preferred_attacker : Bool
  pub ascension : Num
  pub adding : Bool
  -- what the timer will search for
  pub search_timer : Option Text
  pub notices : List Notice

unfoldable handle_champion_search_change : Text → AddForm → AddForm
handle_champion_search_change val s =
    if is_empty (trim val)
    then record s {
      champion_search = val;
      selected_champion = none;
      search_timer = none;
      search_results = [];
    }
    else record s { champion_search = val; selected_champion = none; search_timer = some val }

-- The timer runs out: what it asks the server for.
unfoldable search_due : AddForm → AddForm × Option Text
search_due s = (record s { search_timer = none }, s.search_timer)

unfoldable search_answered : Answer (List FormChampion) → AddForm → AddForm
search_answered (rejected message) s = s
search_answered (resolved (c ∷ [])) s = record s {
  selected_champion = some c;
  champion_search = c.name;
  search_results = [];
}
search_answered (resolved champions) s = record s { search_results = champions }

unfoldable handle_select_champion : FormChampion → AddForm → AddForm
handle_select_champion c s = record s {
  selected_champion = some c;
  champion_search = c.name;
  search_results = [];
}

unfoldable reset : AddForm → AddForm
reset s = record s {
  selected_champion = none;
  champion_search = [];
  search_results = [];
  is_preferred_attacker = false;
  ascension = whole 0;
}

abbrev champion_of : RosterEntry → FormChampion
champion_of entry = record {
  id = entry.champion_id;
  name = entry.champion_name;
  champion_class = entry.champion_class;
  image_url = entry.image_url;
  is_7_star = starts_with entry.rarity (codes "7");
  is_ascendable = entry.is_ascendable;
  has_prefight = entry.has_prefight;
  alias = none;
}

unfoldable prefill_from_entry : RosterEntry → AddForm → AddForm
prefill_from_entry entry s = record s {
  selected_champion = some (champion_of entry);
  champion_search = entry.champion_name;
  selected_rarity = entry.rarity;
  signature_value = entry.signature;
  ascension = or_else entry.ascension (whole 0);
}

-- The effect of add-champion-form.tsx: it runs when the form is opened or closed, or another entry
-- is to be edited.
unfoldable open_changed : Bool → Option RosterEntry → AddForm → AddForm
unfolding prefill_from_entry reset
open_changed true (some initial_entry) s = prefill_from_entry initial_entry s
open_changed true none s = s
open_changed false initial_entry s = reset s

-- The payload of `updateChampionInRoster`.
pub record UpdateRequest : Type 0 where
  pub game_account_id : Text
  pub champion_id : Text
  pub rarity : Text
  pub signature : Num
  pub is_preferred_attacker : Bool
  pub ascension : Num

abbrev request_for : Text → FormChampion → AddForm → UpdateRequest
request_for account_id c s = record {
  game_account_id = account_id;
  champion_id = c.id;
  rarity = s.selected_rarity;
  signature = s.signature_value;
  is_preferred_attacker = s.is_preferred_attacker;
  ascension = s.ascension;
}

abbrev submit_for : Text → Option FormChampion → AddForm → AddForm × Option UpdateRequest
submit_for account_id none s = (s, none)
submit_for account_id (some c) s = (record s { adding = true }, some (request_for account_id c s))

unfoldable handle_submit : Option Text → AddForm → AddForm × Option UpdateRequest
handle_submit none s = (s, none)
handle_submit (some account_id) s =
    if is_empty account_id then (s, none) else submit_for account_id s.selected_champion s

-- The roster that the caller gets, where both requests went well.
unfoldable submit_answered :
    FormChampion
    → Answer (Unit {0})
    → Answer (List RosterEntry)
    → AddForm
    → AddForm × Option (List RosterEntry)
unfolding reset
submit_answered c updated reloaded s = elim (after updated reloaded) [
  | resolved roster ↦
      let done = reset s in
      (record done { adding = false; notices = add_success c.name ∷ done.notices }, some roster)
  | rejected message ↦
      let notice = if is_empty message then add_error else text message in
      (record s { adding = false; notices = notice ∷ s.notices }, none)
]

unfoldable set_selected_rarity : Text → AddForm → AddForm
set_selected_rarity rarity s = record s { selected_rarity = rarity }

unfoldable set_signature_value : Num → AddForm → AddForm
set_signature_value value s = record s { signature_value = value }

unfoldable set_is_preferred_attacker : Bool → AddForm → AddForm
set_is_preferred_attacker value s = record s { is_preferred_attacker = value }

unfoldable set_ascension : Num → AddForm → AddForm
set_ascension value s = record s { ascension = value }
