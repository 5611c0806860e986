-- ===== src/Membership/Tests.antt =====
-- A refresh at concrete inputs.
use mawster.Base.{
  Answer, resolved, Text, List, [], ◌∷◌, none, some, true, false, ◌≡◌, refl, codes, text_beq,
  map_get,
}
use mawster.Alliances.{Alliance, merge}
use mawster.Membership.{
  AllianceInvitation, Membership, Loaded, member, pending, missing, alliance_provider,
  refresh_started, refresh_loaded, refresh_pending, read_cache,
}
use mawster.Membership.Pending.{refresh_lem}

abbrev alliance : Alliance
alliance = record { id = codes "a"; name = codes "A" }

abbrev invitation : AllianceInvitation
invitation = record {
  id = codes "i";
  alliance_id = codes "a";
  alliance_name = codes "A";
  alliance_tag = codes "TAG";
  game_account_id = codes "g";
  game_account_pseudo = codes "G";
  invited_by_game_account_id = codes "h";
  invited_by_pseudo = codes "H";
  type = member;
  status = pending;
  created_at = codes "2026";
  responded_at = none;
}

abbrev loaded : Loaded
loaded = record {
  member_result = alliance ∷ [];
  visited_result = [];
  roles_result = record {
    roles = (codes "a", record { is_owner = true; is_officer = false; can_manage = true }) ∷ [];
    my_account_ids = codes "h" ∷ [];
  };
  invitations_result = [];
}

abbrev answers : Text → Answer (List AllianceInvitation)
answers id = resolved (invitation ∷ [])

abbrev refreshed : Membership
refreshed =
    refresh_pending answers loaded
      (refresh_loaded (some loaded) (refresh_started true (alliance_provider true missing)))

refresh_lem_example :
    (map_get (codes "a") refreshed.pending_invitations ≡ some (invitation ∷ []))
    × ((refreshed.loading ≡ false) × (refreshed.roles_loading ≡ false))
    × (read_cache refreshed.cache ≡ refreshed.alliances)
unfolding refresh_started refresh_loaded refresh_pending map_get text_beq merge
refresh_lem_example =
    refresh_lem answers (codes "a") loaded (refresh_started true (alliance_provider true missing))
      refreshed refl
