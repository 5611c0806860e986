-- ===== src/AlliancesPage/Invites.antt =====
-- Inviting to an alliance, and answering and withdrawing invitations.
use mawster.Base.{Answer, resolved, rejected, Text, [], Option, none, some, is_empty, if◌then◌else◌}
use mawster.Membership.{InvitationType, member, visitor}
use mawster.AlliancesPage.{
  AlliancesPage, RosterTarget, Notice, show, success, error, message_or, invite_success,
  invite_error, accept_invitation_success, accept_invitation_error, decline_invitation_success,
  decline_invitation_error, cancel_invitation_success, cancel_invitation_error,
}

unfoldable handle_open_invite_member : Text → AlliancesPage → AlliancesPage
handle_open_invite_member alliance_id s = record s {
  member_alliance_id = some alliance_id;
  member_account_id = [];
  invite_type = member;
}

unfoldable handle_invite_type_change : InvitationType → AlliancesPage → AlliancesPage
handle_invite_type_change type s = record s { invite_type = type; member_account_id = [] }

unfoldable handle_close_invite_member : AlliancesPage → AlliancesPage
handle_close_invite_member s = record s {
  member_alliance_id = none;
  member_account_id = [];
  invite_type = member;
}

pub data InviteRequest : Type 0 where
  invite_member invite_visitor : (alliance_id account_id : Text) → InviteRequest

abbrev invite_as : InvitationType → Text → Text → InviteRequest
invite_as member alliance_id account_id = invite_member alliance_id account_id
invite_as visitor alliance_id account_id = invite_visitor alliance_id account_id

unfoldable handle_invite_member : Text → AlliancesPage → Option InviteRequest
handle_invite_member alliance_id s =
    if is_empty s.member_account_id
    then none
    else some (invite_as s.invite_type alliance_id s.member_account_id)

unfoldable invite_answered : Answer (Unit {0}) → AlliancesPage → AlliancesPage
invite_answered (resolved _) s =
    show (success invite_success) (record s { member_alliance_id = none; member_account_id = [] })
invite_answered (rejected message) s = show (error (message_or message invite_error)) s

-- The toast of a request after which the lists are only loaded again.
abbrev told : Answer (Unit {0}) → Notice → Notice → AlliancesPage → AlliancesPage
told (resolved _) done failed s = show (success done) s
told (rejected message) done failed s = show (error (message_or message failed)) s

unfoldable accept_invitation_answered : Answer (Unit {0}) → AlliancesPage → AlliancesPage
accept_invitation_answered answer s =
    told answer accept_invitation_success accept_invitation_error s

unfoldable decline_invitation_answered : Answer (Unit {0}) → AlliancesPage → AlliancesPage
decline_invitation_answered answer s =
    told answer decline_invitation_success decline_invitation_error s

unfoldable cancel_invitation_answered : Answer (Unit {0}) → AlliancesPage → AlliancesPage
cancel_invitation_answered answer s =
    told answer cancel_invitation_success cancel_invitation_error s

unfoldable set_member_account_id : Text → AlliancesPage → AlliancesPage
set_member_account_id id s = record s { member_account_id = id }

unfoldable set_invite_type : InvitationType → AlliancesPage → AlliancesPage
set_invite_type type s = record s { invite_type = type }

unfoldable set_roster_target : Option RosterTarget → AlliancesPage → AlliancesPage
set_roster_target target s = record s { roster_target = target }
