-- ===== src/Account/Confirms.antt =====
-- The handlers behind the dialogs of the roster page, and the other changes of its state. A
-- confirmed change is one request, after which the roster is read again.
use mawster.Base.{
  Answer, resolved, rejected, after, suc, Text, List, Option, none, some, Bool, true, is_empty,
  is_truthy, if◌then◌else◌,
}
use mawster.Roster.{RosterEntry}
use mawster.RosterFilters.{RosterFilters, empty_filters}
use mawster.Rarity.{get_next_rarity}
use mawster.Account.{
  RosterPage, show, success, error, message_or, delete_error, upgrade_error, ascend_error,
  remove_success, upgrade_success, ascend_success, preferred_attacker_toggle,
}

unfoldable handle_form_success : List RosterEntry → RosterPage → RosterPage
handle_form_success updated s = record s {
  roster = updated;
  upgrade_refresh_key = suc s.upgrade_refresh_key;
}

-- The entry of a dialog, where an account is selected.
abbrev target_in : Option RosterEntry → RosterPage → Option RosterEntry
target_in target s = if is_truthy s.selected_account_id then target else none

abbrev confirm_delete : RosterPage → Option RosterEntry
confirm_delete s = target_in s.delete_target s

unfoldable confirm_delete_answered :
    RosterEntry → Answer (Unit {0}) → Answer (List RosterEntry) → RosterPage → RosterPage
confirm_delete_answered target deleted reloaded s = elim (after deleted reloaded) [
  | resolved roster ↦
      show (success (remove_success target.champion_name))
        (record s { roster = roster; delete_target = none })
  | rejected message ↦
      let notice = message_or message delete_error in
      show (error notice) (record s { failure = some notice; delete_target = none })
]

unfoldable start_edit_entry : RosterEntry → RosterPage → RosterPage
start_edit_entry entry s = record s { edit_entry = some entry; show_add_form = true }

-- The entry to upgrade and its next rarity.
unfoldable confirm_upgrade : RosterPage → Option (RosterEntry × Text)
confirm_upgrade s = elim (target_in s.upgrade_target s) [
  | none ↦ none
  | some target ↦ elim (get_next_rarity target.rarity) [
    | none ↦ none
    | some next_rarity ↦ if is_empty next_rarity then none else some (target, next_rarity)
  ]
]

-- `label` is the look-up in `RARITY_LABELS`, with the rarity itself where it has none.
unfoldable confirm_upgrade_answered :
    (label : Text → Text)
    → RosterEntry × Text
    → Answer (Unit {0})
    → Answer (List RosterEntry)
    → RosterPage
    → RosterPage
confirm_upgrade_answered label (target, next_rarity) upgraded reloaded s =
    elim (after upgraded reloaded) [
      | resolved roster ↦
          show (success (upgrade_success target.champion_name (label next_rarity))) (record s {
            roster = roster;
            upgrade_refresh_key = suc s.upgrade_refresh_key;
            upgrade_target = none;
          })
      | rejected message ↦
          show (error (message_or message upgrade_error)) (record s { upgrade_target = none })
    ]

-- The roster is read again where an account is selected.
unfoldable toggle_preferred_attacker_answered :
    Answer (Unit {0}) → Answer (List RosterEntry) → RosterPage → RosterPage
toggle_preferred_attacker_answered (rejected message) reloaded s =
    show (error (message_or message preferred_attacker_toggle)) s
toggle_preferred_attacker_answered (resolved _) (resolved roster) s =
    if is_truthy s.selected_account_id then record s { roster = roster } else s
toggle_preferred_attacker_answered (resolved _) (rejected message) s =
    if is_truthy s.selected_account_id
    then show (error (message_or message preferred_attacker_toggle)) s
    else s

abbrev confirm_ascend : RosterPage → Option RosterEntry
confirm_ascend s = target_in s.ascend_target s

unfoldable confirm_ascend_answered :
    RosterEntry → Answer (Unit {0}) → Answer (List RosterEntry) → RosterPage → RosterPage
confirm_ascend_answered target ascended reloaded s = elim (after ascended reloaded) [
  | resolved roster ↦
      show (success (ascend_success target.champion_name))
        (record s { roster = roster; ascend_target = none })
  | rejected message ↦
      show (error (message_or message ascend_error)) (record s { ascend_target = none })
]

unfoldable set_filters : (RosterFilters → RosterFilters) → RosterPage → RosterPage
set_filters patch s = record s { filters = patch s.filters }

unfoldable reset_filters : RosterPage → RosterPage
reset_filters s = record s { filters = empty_filters }

unfoldable clear_error : RosterPage → RosterPage
clear_error s = record s { failure = none }

unfoldable set_selected_account_id : Option Text → RosterPage → RosterPage
set_selected_account_id id s = record s { selected_account_id = id }

unfoldable set_delete_target : Option RosterEntry → RosterPage → RosterPage
set_delete_target target s = record s { delete_target = target }

unfoldable set_upgrade_target : Option RosterEntry → RosterPage → RosterPage
set_upgrade_target target s = record s { upgrade_target = target }

unfoldable set_ascend_target : Option RosterEntry → RosterPage → RosterPage
set_ascend_target target s = record s { ascend_target = target }

unfoldable set_show_add_form : Bool → RosterPage → RosterPage
set_show_add_form show s = record s { show_add_form = show }
