-- ===== src/Upgrades/Requests.antt =====
-- The list of pending requests under creation and cancellation.
use mawster.Base.{
  List, [], ◌∷◌, ◌++◌, some, Bool, true, false, not, ◌≡◌, refl, ◌==◌, text_eq, beq_refl, any,
  filter, arith,
}
use mawster.Roster.{RosterEntry, UpgradeRequest}
use mawster.Upgrades.{
  Upgrades, initiate_upgrade, request_answered, cancel_answered, confirm_cancel_request,
  initiate_cancel_request,
}

module _ (new_req : UpgradeRequest) where
  filter_new :
      (requests : List UpgradeRequest)
      → any (λ r. r.id == new_req.id) requests ≡ false
      → filter (λ r. not (r.id == new_req.id)) (requests ++ (new_req ∷ [])) ≡ requests
  filter_new [] fresh = let same = beq_refl new_req.id in rw same refl
  filter_new (r ∷ requests) fresh = ground (arith, filter_new requests)

  any_new :
      (p : UpgradeRequest → Bool) (requests : List UpgradeRequest)
      → p new_req ≡ true
      → any p (requests ++ (new_req ∷ [])) ≡ true
  any_new p [] h = ground arith
  any_new p (r ∷ requests) h = ground (arith, any_new p requests h)

  -- Once a request for an entry is created, no dialog opens for the entry; cancelling the request,
  -- if its id is new, brings back the list of before and closes the dialogs.
  cancel_answered-request_answered :
      (entry : RosterEntry) (s : Upgrades)
      → new_req.champion_user_id ≡ entry.id
      → any (λ r. r.id == new_req.id) s.upgrade_requests ≡ false
      → (initiate_upgrade entry (request_answered (some new_req) s)
          ≡ request_answered (some new_req) s)
        × (confirm_cancel_request
              (initiate_cancel_request new_req.id (request_answered (some new_req) s))
            ≡ some new_req.id)
        × ((cancel_answered new_req.id true (request_answered (some new_req) s)).upgrade_requests
            ≡ s.upgrade_requests)
  unfolding initiate_upgrade request_answered cancel_answered initiate_cancel_request
  cancel_answered-request_answered entry s own fresh = (
    rw
        (any_new (λ r. r.champion_user_id == entry.id) s.upgrade_requests
          (rw own (beq_refl entry.id)))
        refl,
    refl,
    filter_new s.upgrade_requests fresh,
  )
