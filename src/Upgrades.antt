-- ===== src/Upgrades.antt =====
-- front/hooks/use-upgrade-requests.ts: the upgrade requests of an account and their dialogs. A
-- handler that waits for the server is two functions: what it sends, and what it does to the state
-- that it finds when the answer is there.
pub mod Requests
pub mod Reachable
mod Tests
use mawster.Base.{
  ℕ, Text, List, [], ◌∷◌, ◌++◌, Option, none, some, Bool, true, false, not, ◌==◌, text_eq, is_empty,
  any, find, filter, if◌then◌else◌,
}
use mawster.Roster.{RosterEntry, UpgradeRequest}
use mawster.Rarity.{get_upgrade_options}

pub data Toast : Type 0 where
  request_success request_error cancel_success cancel_error : Toast

pub record CancelTarget : Type 0 where
  pub id : Text
  pub name : Text

pub record Upgrades : Type 0 where
  pub upgrade_requests : List UpgradeRequest
  pub upgrade_target : Option RosterEntry
  pub selected_rarity : Text
  pub cancel_target : Option CancelTarget
  pub toasts : List Toast

abbrev pub initial : Upgrades
initial = record {
  upgrade_requests = [];
  upgrade_target = none;
  selected_rarity = [];
  cancel_target = none;
  toasts = [];
}

-- The answer of `getUpgradeRequests`, `none` where it throws.
abbrev fetch_upgrade_requests : Option (List UpgradeRequest) → Upgrades → Upgrades
fetch_upgrade_requests none s = s
fetch_upgrade_requests (some requests) s = record s { upgrade_requests = requests }

abbrev has_pending_request : RosterEntry → Upgrades → Bool
has_pending_request entry s = any (λ r. r.champion_user_id == entry.id) s.upgrade_requests

abbrev open_upgrade : RosterEntry → List Text → Upgrades → Upgrades
open_upgrade entry [] s = s
open_upgrade entry (first ∷ options) s = record s {
  upgrade_target = some entry;
  selected_rarity = first;
}

unfoldable initiate_upgrade : RosterEntry → Upgrades → Upgrades
initiate_upgrade entry s =
    if has_pending_request entry s
    then s
    else open_upgrade entry (get_upgrade_options entry.rarity) s

abbrev set_selected_rarity : Text → Upgrades → Upgrades
set_selected_rarity rarity s = record s { selected_rarity = rarity }

abbrev close_upgrade_dialog : Upgrades → Upgrades
close_upgrade_dialog s = record s { upgrade_target = none; selected_rarity = [] }

-- What `handleRequestUpgrade` sends: the id of the entry and the rarity.
unfoldable handle_request_upgrade : Upgrades → Option (Text × Text)
handle_request_upgrade s = elim s.upgrade_target [
  | none ↦ none
  | some target ↦ if is_empty s.selected_rarity then none else some (target.id, s.selected_rarity)
]

-- The new request, or `none` where `createUpgradeRequest` throws.
unfoldable request_answered : Option UpgradeRequest → Upgrades → Upgrades
request_answered none s = record s { toasts = request_error ∷ s.toasts }
request_answered (some new_req) s = close_upgrade_dialog (record s {
  upgrade_requests = s.upgrade_requests ++ (new_req ∷ []);
  toasts = request_success ∷ s.toasts;
})

abbrev name_of : Option UpgradeRequest → Text
name_of none = []
name_of (some r) = r.champion_name

unfoldable initiate_cancel_request : Text → Upgrades → Upgrades
initiate_cancel_request request_id s = record s {
  cancel_target = some (record {
    id = request_id;
    name = name_of (find (λ r. r.id == request_id) s.upgrade_requests);
  });
}

abbrev close_cancel_dialog : Upgrades → Upgrades
close_cancel_dialog s = record s { cancel_target = none }

-- The id that `confirmCancelRequest` sends.
abbrev confirm_cancel_request : Upgrades → Option Text
confirm_cancel_request s = elim s.cancel_target [ none ↦ none | some target ↦ some target.id ]

-- Its answer, for the id that was sent: whether `cancelUpgradeRequest` succeeded.
unfoldable cancel_answered : Text → Bool → Upgrades → Upgrades
cancel_answered id true s = close_cancel_dialog (record s {
  upgrade_requests = filter (λ r. not (r.id == id)) s.upgrade_requests;
  toasts = cancel_success ∷ s.toasts;
})
cancel_answered id false s = close_cancel_dialog (record s { toasts = cancel_error ∷ s.toasts })
