-- ===== src/AlliancesPage.antt =====
-- The alliances page: front/app/game/alliances/_viewmodels/use-alliances-viewmodel.ts, with the
-- statistics of front/app/services/statistics.ts. The alliances are those of Membership.
pub mod Loading
pub mod Invites
pub mod Create
pub mod Tabs
mod Tests
use mawster.Base.{
  Text, Num, List, [], ◌∷◌, Option, none, some, Bool, true, false, codes, is_empty, ◌==◌, text_eq,
  if◌then◌else◌, map_get,
}
use mawster.Account.{GameAccount}
use mawster.Membership.{InvitationType}

pub data AllianceTab : Type 0 where
  create_tab alliances_tab defense_tab statistics_tab champion_search_tab : AllianceTab

unfoldable pub tab_text : AllianceTab → Text
tab_text create_tab = codes "create"
tab_text alliances_tab = codes "alliances"
tab_text defense_tab = codes "defense"
tab_text statistics_tab = codes "statistics"
tab_text champion_search_tab = codes "champion-search"

pub record PlayerSeasonStats : Type 0 where
  pub id : Text
  pub game_pseudo : Text
  pub alliance_group : Option Num
  pub total_kos : Num
  pub total_fights : Num
  pub total_fights_weighted : Num
  pub total_assists : Num
  pub total_times_helped : Num
  pub total_miniboss : Num
  pub total_boss : Num
  pub total_not_fought : Num
  pub ratio : Num
  pub score : Num
  pub wars_participated : Num
  pub avg_fights_per_war : Num
  pub avg_boss_miniboss_per_war : Num
  pub is_current_member : Bool

-- The messages of the page, by the names of their translations.
pub data Notice : Type 0 where
  name_invalid tag_invalid create_success create_error statistics_load_error : Notice
  invite_success invite_error accept_invitation_success accept_invitation_error : Notice
  decline_invitation_success decline_invitation_error : Notice
  cancel_invitation_success cancel_invitation_error : Notice
  -- the text of an error
  text : Text → Notice

pub data Toast : Type 0 where
  success error : Notice → Toast

-- `err.message || fallback`
abbrev pub message_or : Text → Notice → Notice
message_or message fallback = if is_empty message then fallback else text message

pub record RosterTarget : Type 0 where
  pub game_account_id : Text
  pub pseudo : Text
  pub can_request_upgrade : Bool

pub record AlliancesPage : Type 0 where
  pub eligible_owners : List GameAccount
  pub eligible_members : List GameAccount
  pub eligible_visitors : List GameAccount
  pub has_any_accounts : Bool
  pub creating : Bool
  pub stats_alliance_id : Text
  pub season_stats : List PlayerSeasonStats
  pub stats_loading : Bool
  pub stats_error : Option Notice
  pub active_tab : AllianceTab
  pub name : Text
  pub tag : Text
  pub owner_id : Text
  pub member_alliance_id : Option Text
  pub member_account_id : Text
  pub invite_type : InvitationType
  pub roster_target : Option RosterTarget
  pub toasts : List Toast

abbrev pub show : Toast → AlliancesPage → AlliancesPage
show toast s = record s { toasts = toast ∷ s.toasts }
