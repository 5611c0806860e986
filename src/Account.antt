-- ===== src/Account.antt =====
-- The roster page: front/app/game/account/_viewmodels/use-roster-viewmodel.ts, with the data of
-- front/app/services/masteries.ts. A handler that waits for the server is two functions: what it
-- sends, and what its answers do to the state that they find.
pub mod Loading
pub mod Confirms
pub mod Masteries
pub mod Groups
mod Tests
use mawster.Base.{
  ℕ, Text, Num, List, [], ◌∷◌, Option, none, some, Bool, true, false, codes, is_empty, ◌==◌,
  text_eq, if◌then◌else◌,
}
use mawster.Roster.{RosterEntry}
use mawster.RosterFilters.{RosterFilters}

-- The fields of a game account that the page reads.
pub record GameAccount : Type 0 where
  pub id : Text
  pub game_pseudo : Text
  pub is_primary : Bool

pub record MasteryEntry : Type 0 where
  pub id : Text
  pub mastery_id : Text
  pub mastery_name : Text
  pub mastery_max_value : Num
  pub mastery_order : Num
  pub unlocked : Num
  pub attack : Num
  pub defense : Num

pub record MasteryUpsertItem : Type 0 where
  pub mastery_id : Text
  pub unlocked : Num
  pub attack : Num
  pub defense : Num

pub data RosterTab : Type 0 where
  roster_tab mastery_tab accounts_tab : RosterTab

abbrev tab_text : RosterTab → Text
tab_text roster_tab = codes "roster"
tab_text mastery_tab = codes "mastery"
tab_text accounts_tab = codes "manage"

-- The messages of the page, by the names of their translations.
pub data Notice : Type 0 where
  load_accounts load_roster mastery_save_error mastery_save_success delete_error : Notice
  upgrade_error ascend_error preferred_attacker_toggle : Notice
  remove_success ascend_success : (champion_name : Text) → Notice
  upgrade_success : (champion_name next_rarity : Text) → Notice
  -- the text of an error
  text : Text → Notice

pub data Toast : Type 0 where
  success error : Notice → Toast

-- `err.message || fallback`
abbrev pub message_or : Text → Notice → Notice
message_or message fallback = if is_empty message then fallback else text message

pub record RosterPage : Type 0 where
  pub accounts : List GameAccount
  pub selected_account_id : Option Text
  pub loading_accounts : Bool
  -- the parameter `tab` of the address
  pub tab : Option Text
  pub masteries : List MasteryEntry
  pub mastery_form : List MasteryUpsertItem
  pub loading_masteries : Bool
  pub saving_masteries : Bool
  pub roster : List RosterEntry
  pub loading_roster : Bool
  pub show_add_form : Bool
  pub edit_entry : Option RosterEntry
  pub delete_target : Option RosterEntry
  pub upgrade_target : Option RosterEntry
  pub ascend_target : Option RosterEntry
  pub upgrade_refresh_key : ℕ
  pub failure : Option Notice
  pub filters : RosterFilters
  pub toasts : List Toast

abbrev pub show : Toast → RosterPage → RosterPage
show toast s = record s { toasts = toast ∷ s.toasts }

abbrev tab_of : Text → RosterTab
tab_of t =
    if t == codes "mastery"
    then mastery_tab
    else if t == codes "manage"
    then accounts_tab
    else roster_tab

abbrev pub active_tab : RosterPage → RosterTab
active_tab s = elim s.tab [ none ↦ roster_tab | some t ↦ tab_of t ]

abbrev pub set_active_tab : RosterTab → RosterPage → RosterPage
set_active_tab tab s = record s { tab = some (tab_text tab) }
