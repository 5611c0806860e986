-- ===== src/AlliancesPage/Tests.antt =====
-- The alliances page at concrete inputs.
use mawster.Base.{resolved, [], ◌∷◌, none, true, false, ◌≡◌, refl, codes}
use mawster.Account.{GameAccount}
use mawster.Alliances.{AllianceWithVisitorFlag}
use mawster.Membership.{member}
use mawster.RosterFilters.{trim}
use mawster.AlliancesPage.{AlliancesPage, statistics_tab}
use mawster.AlliancesPage.Loading.{stats_effect, fetch_eligible_owners_answered}
use mawster.AlliancesPage.Create.{CreateRequest, handle_create, create_answered}
use mawster.AlliancesPage.Create.Allowed.{IsAllowed, handle_create-IsAllowed}
use mawster.AlliancesPage.Create.Owner.{create_answered-owner_id}

abbrev alliance : AllianceWithVisitorFlag
alliance = record { alliance = record { id = codes "a"; name = codes "A" }; is_visitor = false }

abbrev owner : GameAccount
owner = record { id = codes "g"; game_pseudo = codes "G"; is_primary = true }

abbrev page : AlliancesPage
page = record {
  eligible_owners = owner ∷ [];
  eligible_members = [];
  eligible_visitors = [];
  has_any_accounts = true;
  creating = false;
  stats_alliance_id = codes "old";
  season_stats = [];
  stats_loading = false;
  stats_error = none;
  active_tab = statistics_tab;
  name = codes " The Best ";
  tag = codes "BEST";
  owner_id = codes "g";
  member_alliance_id = none;
  member_account_id = [];
  invite_type = member;
  roster_target = none;
  toasts = [];
}

abbrev chosen : AlliancesPage
chosen = (stats_effect (alliance ∷ []) page).0

abbrev create_request : CreateRequest
create_request = record { name = codes "The Best"; tag = codes "BEST"; owner_id = codes "g" }

handle_create-IsAllowed_example : IsAllowed create_request
unfolding handle_create trim
handle_create-IsAllowed_example =
    handle_create-IsAllowed page (record page { creating = true }) create_request refl

abbrev created : AlliancesPage
created =
    fetch_eligible_owners_answered (codes "g") (resolved (owner ∷ []))
      (create_answered (resolved tt) page)

create_answered-owner_id_example : created.owner_id ≡ []
unfolding handle_create trim
create_answered-owner_id_example =
    create_answered-owner_id page (record page { creating = true }) create_request refl
      (resolved (owner ∷ [])) page created refl
