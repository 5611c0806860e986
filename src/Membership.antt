-- ===== src/Membership.antt =====
-- front/app/contexts/alliance-context.tsx, with front/hooks/use-alliance-role.ts: the alliances of
-- the user, the roles in them and their invitations. A refresh has two waits, one for the first four
-- answers and one for the pending invitations.
pub mod Pending
mod Tests
use mawster.Base.{
  Answer, resolved, rejected, Text, List, [], ◌∷◌, Option, none, some, Bool, true, false, not,
  is_empty, any, filter, map, map_get, map_set, or_else, opt_map, ◌==◌, text_eq, if◌then◌else◌,
}
use mawster.Alliances.{Alliance, AllianceWithVisitorFlag, merge}

pub record AllianceRoleEntry : Type 0 where
  pub is_owner : Bool
  pub is_officer : Bool
  pub can_manage : Bool

pub data InvitationType : Type 0 where
  member visitor : InvitationType

pub data InvitationStatus : Type 0 where
  pending accepted declined : InvitationStatus

pub record AllianceInvitation : Type 0 where
  pub id : Text
  pub alliance_id : Text
  pub alliance_name : Text
  pub alliance_tag : Text
  pub game_account_id : Text
  pub game_account_pseudo : Text
  pub invited_by_game_account_id : Text
  pub invited_by_pseudo : Text
  pub type : InvitationType
  pub status : InvitationStatus
  pub created_at : Text
  pub responded_at : Option Text

-- An entry of the cache; one that an older version wrote has no flag.
pub record CachedAlliance : Type 0 where
  pub alliance : Alliance
  pub is_visitor : Option Bool

-- The item of the local storage: the storage cannot be used, has none, or has a text that is no
-- JSON or the JSON of a list.
pub data Cache : Type 0 where
  unavailable missing garbled : Cache
  stored : List CachedAlliance → Cache

abbrev is_available : Cache → Bool
is_available unavailable = false
is_available _ = true

abbrev with_default_flag : CachedAlliance → AllianceWithVisitorFlag
with_default_flag c = record { alliance = c.alliance; is_visitor = or_else c.is_visitor false }

unfoldable read_cache : Cache → List AllianceWithVisitorFlag
read_cache (stored alliances) = map with_default_flag alliances
read_cache _ = []

abbrev to_cached : AllianceWithVisitorFlag → CachedAlliance
to_cached a = record { alliance = a.alliance; is_visitor = some a.is_visitor }

unfoldable pub write_cache : List AllianceWithVisitorFlag → Cache → Cache
write_cache alliances unavailable = unavailable
write_cache alliances _ = stored (map to_cached alliances)

abbrev pub Roles : Type 0
Roles = List (Text × AllianceRoleEntry)

abbrev Invitations : Type 0
Invitations = List (Text × List AllianceInvitation)

pub record Membership : Type 0 where
  pub alliances : List AllianceWithVisitorFlag
  pub loading : Bool
  pub roles : Roles
  pub my_account_ids : List Text
  pub roles_loading : Bool
  pub my_invitations : List AllianceInvitation
  pub pending_invitations : Invitations
  pub has_loaded : Bool
  pub cache : Cache

-- `status` is that of the session.
abbrev alliance_provider : (is_status_loading : Bool) → Cache → Membership
alliance_provider is_status_loading cache = record {
  alliances = read_cache cache;
  loading = is_status_loading;
  roles = [];
  my_account_ids = [];
  roles_loading = true;
  my_invitations = [];
  pending_invitations = [];
  has_loaded = false;
  cache = cache;
}

-- The answer of `getMyAllianceRoles`.
pub record AllianceMyRoles : Type 0 where
  pub roles : Roles
  pub my_account_ids : List Text

unfoldable refresh_roles_started : (is_authenticated : Bool) → Membership → Membership
refresh_roles_started is_authenticated s =
    if is_authenticated then record s { roles_loading = true } else s

unfoldable refresh_roles_answered : Answer AllianceMyRoles → Membership → Membership
refresh_roles_answered (resolved result) s = record s {
  roles = result.roles;
  my_account_ids = result.my_account_ids;
  roles_loading = false;
}
refresh_roles_answered (rejected message) s = record s { roles_loading = false }

unfoldable pub refresh_started : (is_authenticated : Bool) → Membership → Membership
refresh_started false s = record {
  alliances = [];
  loading = false;
  roles = [];
  my_account_ids = [];
  roles_loading = false;
  my_invitations = [];
  pending_invitations = [];
  has_loaded = false;
  cache = write_cache [] s.cache;
}
refresh_started true s =
    if s.has_loaded then s else record s { loading = true; roles_loading = true }

-- The answers of the first four requests of a refresh.
pub record Loaded : Type 0 where
  pub member_result : List Alliance
  pub visited_result : List Alliance
  pub roles_result : AllianceMyRoles
  pub invitations_result : List AllianceInvitation

abbrev merged : Loaded → List AllianceWithVisitorFlag
merged l = merge l.member_result l.visited_result

-- `none` where one of them throws.
unfoldable refresh_loaded : Option Loaded → Membership → Membership
refresh_loaded none s = record s { alliances = []; loading = false; roles_loading = false }
refresh_loaded (some l) s = record s {
  alliances = merged l;
  cache = write_cache (merged l) s.cache;
  roles = l.roles_result.roles;
  my_account_ids = l.roles_result.my_account_ids;
  my_invitations = l.invitations_result;
}

abbrev pub role_can_manage : Roles → Text → Bool
role_can_manage roles id = or_else (opt_map (λ r. r.can_manage) (map_get id roles)) false

-- The alliances whose pending invitations are asked for.
abbrev manageable : Loaded → List AllianceWithVisitorFlag
manageable l = filter (λ a. role_can_manage l.roles_result.roles a.alliance.id) (merged l)

-- The answer for one alliance: a failure and an empty list leave no entry.
abbrev add_pending : Text → Answer (List AllianceInvitation) → Invitations → Invitations
add_pending id (resolved []) collected = collected
add_pending id (resolved (i ∷ items)) collected = map_set id (i ∷ items) collected
add_pending id (rejected message) collected = collected

unfoldable collect_pending :
    (Text → Answer (List AllianceInvitation))
    → List AllianceWithVisitorFlag
    → Invitations
    → Invitations
collect_pending answers [] collected = collected
collect_pending answers (a ∷ alliances) collected =
    collect_pending answers alliances (add_pending a.alliance.id (answers a.alliance.id) collected)

unfoldable refresh_pending :
    (Text → Answer (List AllianceInvitation)) → Loaded → Membership → Membership
unfolding collect_pending
refresh_pending answers l s = record s {
  pending_invitations = collect_pending answers (manageable l) [];
  has_loaded = true;
  loading = false;
  roles_loading = false;
}

abbrev has_alliance : Membership → Bool
has_alliance s = not (is_empty s.alliances)

abbrev is_mine : Membership → Text → Bool
is_mine s game_account_id = any (λ id. id == game_account_id) s.my_account_ids

abbrev is_owner : Membership → Alliance → Bool
is_owner s alliance = or_else (opt_map (λ r. r.is_owner) (map_get alliance.id s.roles)) false

abbrev pub can_manage : Membership → Alliance → Bool
can_manage s alliance = role_can_manage s.roles alliance.id

abbrev get_role_for : Membership → Text → Option AllianceRoleEntry
get_role_for s id = map_get id s.roles
