-- ===== src/Upgrades/Reachable.antt =====
-- The states that the screen can be in, and what it asks for in them.
use mawster.Base.{
  Text, List, [], ◌∷◌, Option, none, some, Bool, true, false, ◌≡◌, refl, sym, ◌⊎◌, inl, inr, In,
  In-filter, is_empty, text_lt, Bool-cases, Option-cases,
}
use mawster.Roster.{RosterEntry, UpgradeRequest}
use mawster.Rarity.{get_upgrade_options, rarities}
use mawster.Upgrades.{
  Upgrades, initial, fetch_upgrade_requests, initiate_upgrade, open_upgrade, has_pending_request,
  set_selected_rarity, close_upgrade_dialog, handle_request_upgrade, request_answered,
  initiate_cancel_request, close_cancel_dialog, cancel_answered,
}

-- The choices of the open dialog.
abbrev options_of : Upgrades → List Text
options_of s = elim s.upgrade_target [ none ↦ [] | some target ↦ get_upgrade_options target.rarity ]

-- Everything that can happen to the hook's state, in any order: the dialog only offers its options.
pub data Reachable : Upgrades → Type 0 where
  starts : Reachable initial
  fetches :
      (s : Upgrades) (answer : Option (List UpgradeRequest))
      → Reachable s
      → Reachable (fetch_upgrade_requests answer s)
  initiates :
      (s : Upgrades) (entry : RosterEntry) → Reachable s → Reachable (initiate_upgrade entry s)
  selects :
      (s : Upgrades) (rarity : Text)
      → In rarity (options_of s)
      → Reachable s
      → Reachable (set_selected_rarity rarity s)
  closes : (s : Upgrades) → Reachable s → Reachable (close_upgrade_dialog s)
  answers :
      (s : Upgrades) (answer : Option UpgradeRequest)
      → Reachable s
      → Reachable (request_answered answer s)
  initiates_cancel :
      (s : Upgrades) (id : Text) → Reachable s → Reachable (initiate_cancel_request id s)
  closes_cancel : (s : Upgrades) → Reachable s → Reachable (close_cancel_dialog s)
  answers_cancel :
      (s : Upgrades) (id : Text) (succeeded : Bool)
      → Reachable s
      → Reachable (cancel_answered id succeeded s)

-- The dialog is closed, or the rarity selected is one of its options.
abbrev IsOffered : Upgrades → Type 0
IsOffered s = (s.upgrade_target ≡ none) ⊎ In s.selected_rarity (options_of s)

open_upgrade-IsOffered :
    (entry : RosterEntry) (options : List Text) (s : Upgrades)
    → get_upgrade_options entry.rarity ≡ options
    → IsOffered s
    → IsOffered (open_upgrade entry options s)
open_upgrade-IsOffered entry [] s e h = h
open_upgrade-IsOffered entry (first ∷ options) s e h = inr (rw e (inl refl))

initiate_upgrade-IsOffered :
    (entry : RosterEntry) (s : Upgrades) → IsOffered s → IsOffered (initiate_upgrade entry s)
unfolding initiate_upgrade
initiate_upgrade-IsOffered entry s h = elim (Bool-cases (has_pending_request entry s)) [
  | inl pending ↦ rw pending h
  | inr free ↦ rw free (open_upgrade-IsOffered entry (get_upgrade_options entry.rarity) s refl h)
]

Reachable-IsOffered : (s : Upgrades) → Reachable s → IsOffered s
unfolding request_answered cancel_answered initiate_cancel_request
Reachable-IsOffered s starts = inl refl
Reachable-IsOffered s (fetches s' none r) = Reachable-IsOffered s' r
Reachable-IsOffered s (fetches s' (some a) r) = Reachable-IsOffered s' r
Reachable-IsOffered s (initiates s' entry r) =
    initiate_upgrade-IsOffered entry s' (Reachable-IsOffered s' r)
Reachable-IsOffered s (selects s' rarity offered r) = inr offered
Reachable-IsOffered s (closes s' r) = inl refl
Reachable-IsOffered s (answers s' none r) = Reachable-IsOffered s' r
Reachable-IsOffered s (answers s' (some a) r) = inl refl
Reachable-IsOffered s (initiates_cancel s' id r) = Reachable-IsOffered s' r
Reachable-IsOffered s (closes_cancel s' r) = Reachable-IsOffered s' r
Reachable-IsOffered s (answers_cancel s' id true r) = Reachable-IsOffered s' r
Reachable-IsOffered s (answers_cancel s' id false r) = Reachable-IsOffered s' r

-- What a request holds.
sent_of :
    (s : Upgrades) (id rarity : Text)
    → handle_request_upgrade s ≡ some (id, rarity)
    → (entry : RosterEntry) × (s.upgrade_target ≡ some entry)
      × (id ≡ entry.id)
      × (rarity ≡ s.selected_rarity)
unfolding handle_request_upgrade
sent_of s id rarity sent = elim (Option-cases s.upgrade_target) [
  | inl e ↦ let nothing : handle_request_upgrade s ≡ none = rw e refl in absurd cc
  | inr (target, e) ↦ elim (Bool-cases (is_empty s.selected_rarity)) [
    | inl f ↦
        let nothing : handle_request_upgrade s ≡ none = rw (e, handle_request_upgrade, f) refl in
        absurd cc
    | inr f ↦
        let both : handle_request_upgrade s ≡ some (target.id, s.selected_rarity) =
          rw (e, handle_request_upgrade, f) refl in
        (target, e, cc, cc)
  ]
]

offered_above :
    (held rarity : Text)
    → In rarity (get_upgrade_options held)
    → In rarity rarities × (text_lt held rarity ≡ true)
unfolding get_upgrade_options
offered_above held rarity m = In-filter (λ r. text_lt held r) rarity rarities m

offered_to :
    (s : Upgrades) (entry : RosterEntry)
    → s.upgrade_target ≡ some entry
    → In s.selected_rarity (options_of s)
    → In s.selected_rarity (get_upgrade_options entry.rarity)
offered_to s entry is_target offered =
    let options : options_of s ≡ get_upgrade_options entry.rarity = rw is_target refl in
    rw (sym options) offered

-- Whatever happens before: a request that the screen sends is for the entry of the open dialog, and
-- asks for a rarity of the game that is above the entry's.
pub handle_request_upgrade-Reachable :
    (s : Upgrades) (id rarity : Text)
    → Reachable s
    → handle_request_upgrade s ≡ some (id, rarity)
    → (entry : RosterEntry) × (s.upgrade_target ≡ some entry)
      × (id ≡ entry.id)
      × In rarity rarities
      × (text_lt entry.rarity rarity ≡ true)
handle_request_upgrade-Reachable s id rarity r sent =
    let (entry, is_target, is_id, is_rarity) = sent_of s id rarity sent in
    elim (Reachable-IsOffered s r) [
      | inl no_target ↦ absurd cc
      | inr offered ↦
          let (known, above) =
            offered_above entry.rarity s.selected_rarity (offered_to s entry is_target offered) in
          (entry, is_target, is_id, rw is_rarity known, rw is_rarity above)
    ]
