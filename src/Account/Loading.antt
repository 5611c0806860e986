-- ===== src/Account/Loading.antt =====
-- Loading the accounts, the roster and the masteries, and the choice of the account.
pub mod Selected
use mawster.Base.{
  Answer, resolved, rejected, ℕ, Text, List, [], ◌∷◌, Option, none, some, Bool, true, false, not,
  ◌&&◌, is_empty, is_truthy, is_some, any, find, map, or_opt, opt_map, ◌==◌, text_eq, if◌then◌else◌,
}
use mawster.Roster.{RosterEntry}
use mawster.RosterFilters.{empty_filters}
use mawster.Account.{
  GameAccount, MasteryEntry, MasteryUpsertItem, RosterPage, RosterTab, accounts_tab, roster_tab,
  mastery_tab, set_active_tab, active_tab, show, success, error, load_accounts, load_roster,
  mastery_save_error, mastery_save_success, text,
}

unfoldable fetch_accounts_started : RosterPage → RosterPage
fetch_accounts_started s = record s { loading_accounts = true }

abbrev is_account : Text → GameAccount → Bool
is_account id a = a.id == id

-- Whether an account of the list is selected.
unfoldable pub is_listed : List GameAccount → Option Text → Bool
is_listed accounts none = false
is_listed accounts (some id) = not (is_empty id) && any (is_account id) accounts

abbrev first_id : List GameAccount → Option Text
first_id [] = none
first_id (a ∷ accounts) = some a.id

-- `accs.find((a) => a.is_primary)?.id ?? accs[0]?.id ?? null`
abbrev default_id : List GameAccount → Option Text
default_id accounts =
    or_opt (opt_map (λ a. a.id) (find (λ a. a.is_primary) accounts)) (first_id accounts)

unfoldable select_account : List GameAccount → Option Text → Option Text
unfolding is_listed
select_account accounts current =
    if is_listed accounts current then current else default_id accounts

unfoldable pub fetch_accounts_answered : Answer (List GameAccount) → RosterPage → RosterPage
unfolding select_account
fetch_accounts_answered (resolved accounts) s =
    let loaded = record s {
      accounts = accounts;
      selected_account_id = select_account accounts s.selected_account_id;
      loading_accounts = false;
    } in
    if is_empty accounts then set_active_tab accounts_tab loaded else loaded
fetch_accounts_answered (rejected message) s = record s {
  failure = some load_accounts;
  loading_accounts = false;
}

-- The effect that runs when another account is selected.
unfoldable account_changed : RosterPage → RosterPage
account_changed s =
    if is_truthy s.selected_account_id
    then record s { filters = empty_filters; loading_roster = true }
    else record s { filters = empty_filters; roster = [] }

unfoldable get_roster_answered : Answer (List RosterEntry) → RosterPage → RosterPage
get_roster_answered (resolved roster) s = record s { roster = roster; loading_roster = false }
get_roster_answered (rejected message) s = record s {
  failure = some load_roster;
  loading_roster = false;
}

-- The effect that loads the masteries, with the account that it asks for.
unfoldable masteries_request : RosterPage → Option Text
masteries_request s = elim (active_tab s) [
  | mastery_tab ↦ if is_truthy s.selected_account_id then s.selected_account_id else none
  | _ ↦ none
]

unfoldable fetch_masteries_started : RosterPage → RosterPage
fetch_masteries_started s = record s { loading_masteries = true }

abbrev to_item : MasteryEntry → MasteryUpsertItem
to_item m = record {
  mastery_id = m.mastery_id;
  unlocked = m.unlocked;
  attack = m.attack;
  defense = m.defense;
}

unfoldable fetch_masteries_answered : Answer (List MasteryEntry) → RosterPage → RosterPage
fetch_masteries_answered (resolved masteries) s = record s {
  masteries = masteries;
  mastery_form = map to_item masteries;
  loading_masteries = false;
}
fetch_masteries_answered (rejected message) s =
    show (error mastery_save_error) (record s { loading_masteries = false })

-- What is saved, and for which account.
unfoldable handle_save_masteries : RosterPage → RosterPage × Option (Text × List MasteryUpsertItem)
handle_save_masteries s = elim s.selected_account_id [
  | none ↦ (s, none)
  | some id ↦
      if is_empty id
      then (s, none)
      else (record s { saving_masteries = true }, some (id, s.mastery_form))
]

-- The message of an error is shown even where it is empty.
unfoldable save_masteries_answered : Answer (List MasteryEntry) → RosterPage → RosterPage
save_masteries_answered (resolved updated) s =
    show (success mastery_save_success) (record s { masteries = updated; saving_masteries = false })
save_masteries_answered (rejected message) s =
    show (error (text message)) (record s { saving_masteries = false })
