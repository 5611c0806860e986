-- ===== src/AlliancesPage/Loading.antt =====
-- What the page loads: the accounts that may own, join or visit an alliance, and the statistics of
-- the season.
pub mod Settled
use mawster.Base.{
  Answer, resolved, rejected, Text, List, [], ◌∷◌, Option, none, some, Bool, true, false, not, ◌&&◌,
  is_empty, any, ◌==◌, text_eq, if◌then◌else◌,
}
use mawster.Account.{GameAccount}
use mawster.Alliances.{AllianceWithVisitorFlag}
use mawster.AlliancesPage.{
  AlliancesPage, PlayerSeasonStats, AllianceTab, create_tab, statistics_tab, champion_search_tab,
  message_or, statistics_load_error,
}

-- The owner that is preselected; `owner_id` is that of the render whose handler asked.
abbrev pub first_owner : (owner_id : Text) → List GameAccount → Text → Text
first_owner owner_id [] current = current
first_owner owner_id (a ∷ owners) current = if is_empty owner_id then a.id else current

unfoldable pub fetch_eligible_owners_answered :
    (owner_id : Text) → Answer (List GameAccount) → AlliancesPage → AlliancesPage
fetch_eligible_owners_answered owner_id (resolved owners) s = record s {
  eligible_owners = owners;
  owner_id = first_owner owner_id owners s.owner_id;
}
fetch_eligible_owners_answered owner_id (rejected message) s = s

unfoldable fetch_eligible_members_answered :
    Answer (List GameAccount) → AlliancesPage → AlliancesPage
fetch_eligible_members_answered (resolved members) s = record s { eligible_members = members }
fetch_eligible_members_answered (rejected message) s = s

unfoldable fetch_eligible_visitors_answered :
    Answer (List GameAccount) → AlliancesPage → AlliancesPage
fetch_eligible_visitors_answered (resolved visitors) s = record s { eligible_visitors = visitors }
fetch_eligible_visitors_answered (rejected message) s = s

unfoldable fetch_my_accounts_answered : Answer (List GameAccount) → AlliancesPage → AlliancesPage
fetch_my_accounts_answered (resolved accounts) s = record s {
  has_any_accounts = not (is_empty accounts);
}
fetch_my_accounts_answered (rejected message) s = s

-- Whether the tab that creates an alliance is left: there is nobody who could own one.
unfoldable leaves_create : (loading : Bool) → AlliancesPage → Bool
leaves_create loading s = elim s.active_tab [
  | create_tab ↦ not loading && is_empty s.eligible_owners
  | _ ↦ false
]

unfoldable load_season_stats_started : AlliancesPage → AlliancesPage
load_season_stats_started s = record s { stats_loading = true; stats_error = none }

unfoldable load_season_stats_answered :
    Answer (List PlayerSeasonStats) → AlliancesPage → AlliancesPage
load_season_stats_answered (resolved stats) s = record s {
  season_stats = stats;
  stats_loading = false;
}
load_season_stats_answered (rejected message) s = record s {
  season_stats = [];
  stats_error = some (message_or message statistics_load_error);
  stats_loading = false;
}

abbrev pub is_alliance : Text → AllianceWithVisitorFlag → Bool
is_alliance id a = a.alliance.id == id

abbrev shows_stats : AllianceTab → Bool
shows_stats statistics_tab = true
shows_stats champion_search_tab = true
shows_stats _ = false

-- The statistics that are asked for once the alliance stands.
abbrev stats_request : AllianceTab → Text → Option Text
stats_request statistics_tab id = some id
stats_request _ id = none

abbrev choose_stats : List AllianceWithVisitorFlag → AlliancesPage → AlliancesPage × Option Text
choose_stats [] s = (record s { stats_alliance_id = []; season_stats = [] }, none)
choose_stats (a ∷ alliances) s =
    if any (is_alliance s.stats_alliance_id) (a ∷ alliances)
    then (s, stats_request s.active_tab s.stats_alliance_id)
    else if s.stats_alliance_id == a.alliance.id
    then (s, stats_request s.active_tab a.alliance.id)
    else (record s { stats_alliance_id = a.alliance.id }, none)

-- The effect that chooses the alliance of the statistics, with the alliance whose statistics it
-- loads.
unfoldable pub stats_effect :
    List AllianceWithVisitorFlag → AlliancesPage → AlliancesPage × Option Text
stats_effect alliances s = if shows_stats s.active_tab then choose_stats alliances s else (s, none)

unfoldable handle_stats_alliance_change : Text → AlliancesPage → AlliancesPage
handle_stats_alliance_change alliance_id s = record s { stats_alliance_id = alliance_id }

unfoldable handle_refresh_statistics : AlliancesPage → Option Text
handle_refresh_statistics s =
    if is_empty s.stats_alliance_id then none else some s.stats_alliance_id
