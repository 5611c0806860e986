-- ===== src/AlliancesPage/Create.antt =====
-- Creating an alliance.
pub mod Allowed
pub mod Owner
use mawster.Base.{
  Answer, resolved, rejected, ℕ, length, Text, List, [], ◌∷◌, Option, none, some, Bool, true, false,
  not, ◌&&◌, ◌||◌, all, leb, ◌==◌, nat_eq, is_digit, is_empty, if◌then◌else◌,
}
use mawster.RosterFilters.{trim}
use mawster.AlliancesPage.{
  AlliancesPage, AllianceTab, alliances_tab, show, success, error, message_or, name_invalid,
  tag_invalid, create_success, create_error,
}

abbrev is_alphanumeric : ℕ → Bool
is_alphanumeric c = (leb b'a' c && leb c b'z') || (leb b'A' c && leb c b'Z') || is_digit c

abbrev pub is_name_char : ℕ → Bool
is_name_char c = is_alphanumeric c || c == 32

-- `/^[a-zA-Z0-9 ]{3,50}$/`
abbrev is_alliance_name : Text → Bool
is_alliance_name s = all is_name_char s && leb 3 (length s) && leb (length s) 50

-- `/^[a-zA-Z0-9]{1,5}$/`
abbrev is_alliance_tag : Text → Bool
is_alliance_tag s = all is_alphanumeric s && leb 1 (length s) && leb (length s) 5

pub record CreateRequest : Type 0 where
  pub name : Text
  pub tag : Text
  pub owner_id : Text

unfoldable pub handle_create : AlliancesPage → AlliancesPage × Option CreateRequest
handle_create s =
    let name = trim s.name in
    let tag = trim s.tag in
    if is_empty name || is_empty tag || is_empty s.owner_id
    then (s, none)
    else if not (is_alliance_name name)
    then (show (error name_invalid) s, none)
    else if not (is_alliance_tag tag)
    then (show (error tag_invalid) s, none)
    else (
      record s { creating = true },
      some (record { name = name; tag = tag; owner_id = s.owner_id }),
    )

-- The lists are loaded again where the alliance was created, before the button is enabled again.
unfoldable pub create_answered : Answer (Unit {0}) → AlliancesPage → AlliancesPage
create_answered (resolved _) s =
    show (success create_success)
      (record s { name = []; tag = []; owner_id = []; active_tab = alliances_tab })
create_answered (rejected message) s = show (error (message_or message create_error)) s

unfoldable create_finished : AlliancesPage → AlliancesPage
create_finished s = record s { creating = false }

unfoldable set_active_tab : AllianceTab → AlliancesPage → AlliancesPage
set_active_tab tab s = record s { active_tab = tab }

unfoldable set_name : Text → AlliancesPage → AlliancesPage
set_name name s = record s { name = name }

unfoldable set_tag : Text → AlliancesPage → AlliancesPage
set_tag tag s = record s { tag = tag }

unfoldable set_owner_id : Text → AlliancesPage → AlliancesPage
set_owner_id id s = record s { owner_id = id }
