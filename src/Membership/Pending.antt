-- ===== src/Membership/Pending.antt =====
-- The pending invitations after a refresh.
use mawster.Base.{
  Answer, resolved, rejected, Text, List, [], ◌∷◌, Option, none, some, Bool, true, false, ◌&&◌, ◌≡◌,
  refl, ◌∙◌, ap, any, filter, map, map_get, map_get-map_set, or_opt, or_opt-none, if_true, sym,
  ◌==◌, text_eq, text_beq_iff, if◌then◌else◌, Bool-cases, inl, inr, arith,
}
use mawster.Alliances.{AllianceWithVisitorFlag}
use mawster.Membership.{
  AllianceInvitation, Invitations, add_pending, collect_pending, Membership, Loaded, merged,
  manageable, role_can_manage, refresh_loaded, refresh_pending, read_cache, write_cache, Cache,
  unavailable, missing, garbled, stored, is_available, with_default_flag, to_cached,
}

-- The invitations that an answer brings.
abbrev items_of : Answer (List AllianceInvitation) → Option (List AllianceInvitation)
items_of (resolved []) = none
items_of (resolved (i ∷ items)) = some (i ∷ items)
items_of (rejected message) = none

abbrev pub is_alliance : Text → AllianceWithVisitorFlag → Bool
is_alliance id a = a.alliance.id == id

map_get-add_pending :
    (id key : Text) (answer : Answer (List AllianceInvitation)) (collected : Invitations)
    → map_get id (add_pending key answer collected) ≡ (
        if key == id then or_opt (items_of answer) (map_get id collected) else map_get id collected)
map_get-add_pending id key (resolved []) collected = ground arith
map_get-add_pending id key (resolved (i ∷ items)) collected =
    map_get-map_set key id (i ∷ items) collected
map_get-add_pending id key (rejected message) collected = ground arith

or_opt_absorbs :
    {A : Type 0} (b : Bool) (o g : Option A)
    → (if b then or_opt o (or_opt o g) else or_opt o g) ≡ or_opt o g
or_opt_absorbs true none g = refl
or_opt_absorbs true (some a) g = refl
or_opt_absorbs false o g = refl

module _ (answers : Text → Answer (List AllianceInvitation)) (id : Text) where
  map_get-collect_pending :
      (alliances : List AllianceWithVisitorFlag) (collected : Invitations)
      → map_get id (collect_pending answers alliances collected) ≡ (
          if any (is_alliance id) alliances
          then or_opt (items_of (answers id)) (map_get id collected)
          else map_get id collected)
  unfolding collect_pending
  map_get-collect_pending [] collected = refl
  map_get-collect_pending (a ∷ alliances) collected =
      let key = a.alliance.id in
      let rest = map_get-collect_pending alliances (add_pending key (answers key) collected) in
      let added = map_get-add_pending id key (answers key) collected in
      elim (Bool-cases (key == id)) [
        | inr elsewhere ↦ rest ∙ rw (added, elsewhere) refl
        | inl here ↦
            let same = (text_beq_iff key id).0 here in
            let kept =
              added
              ∙ if_true _ _ here
              ∙ ap (λ k. or_opt (items_of (answers k)) (map_get id collected)) same in
            rest
            ∙ rw (kept, here)
                (or_opt_absorbs (any (is_alliance id) alliances) (items_of (answers id))
                  (map_get id collected))
      ]

any-filter :
    (id : Text) (p : Text → Bool) (alliances : List AllianceWithVisitorFlag)
    → any (is_alliance id) (filter (λ a. p a.alliance.id) alliances)
      ≡ any (is_alliance id) alliances && p id
any-filter id p [] = refl
any-filter id p (a ∷ alliances) = elim (Bool-cases (a.alliance.id == id)) [
  | inl here ↦
      let same = ap p ((text_beq_iff a.alliance.id id).0 here) in
      ground (arith, here, same, any-filter id p alliances)
  | inr elsewhere ↦ ground (arith, elsewhere, any-filter id p alliances)
]

map_get-empty : (id : Text) → map_get {V = List AllianceInvitation} id [] ≡ none
unfolding map_get
map_get-empty id = refl

map-cached :
    (alliances : List AllianceWithVisitorFlag)
    → map with_default_flag (map to_cached alliances) ≡ alliances
map-cached [] = refl
map-cached (a ∷ alliances) = ap (λ rest. a ∷ rest) (map-cached alliances)

read_cache-write_cache :
    (alliances : List AllianceWithVisitorFlag) (cache : Cache)
    → read_cache (write_cache alliances cache) ≡ (if is_available cache then alliances else [])
unfolding read_cache write_cache
read_cache-write_cache alliances unavailable = refl
read_cache-write_cache alliances missing = map-cached alliances
read_cache-write_cache alliances garbled = map-cached alliances
read_cache-write_cache alliances (stored old) = map-cached alliances

-- After a refresh whose first four answers came, the pending invitations of an alliance are those
-- of its answer, where the alliance is listed, the roles let the user manage it and the answer
-- brings some, and else there are none; nothing is loading; and a start of the page with the cache
-- shows the same alliances, where the storage can be used.
pub refresh_lem :
    (answers : Text → Answer (List AllianceInvitation)) (id : Text) (l : Loaded) (s s' : Membership)
    → refresh_pending answers l (refresh_loaded (some l) s) ≡ s'
    → (map_get id s'.pending_invitations ≡ (
        if any (is_alliance id) s'.alliances && role_can_manage s'.roles id
        then items_of (answers id)
        else none))
      × ((s'.loading ≡ false) × (s'.roles_loading ≡ false))
      × (read_cache s'.cache ≡ (if is_available s.cache then s'.alliances else []))
unfolding refresh_pending refresh_loaded
refresh_lem answers id l s s' run = rw (sym run) (
  map_get-collect_pending answers id (manageable l) []
      ∙ rw (any-filter id (role_can_manage l.roles_result.roles) (merged l), map_get-empty id)
          (ap
            (λ o.
              if any (is_alliance id) (merged l) && role_can_manage l.roles_result.roles id
              then o
              else none)
            (or_opt-none (items_of (answers id)))),
  (refl, refl),
  read_cache-write_cache (merged l) s.cache,
)
