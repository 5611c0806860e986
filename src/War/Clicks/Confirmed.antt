-- ===== src/War/Clicks/Confirmed.antt =====
-- A defender that has an attacker is removed only behind the dialog.
use mawster.Base.{
  ℕ, ◌+◌, ◌≤◌, List, [], ◌∷◌, Option, none, some, Bool, true, false, ◌≡◌, refl, ◌∙◌, ap, find,
  count, ◌==◌, nat_eq, nat_beq_iff, if◌then◌else◌, Bool-cases, inl, inr, arith,
}
use mawster.War.{WarState, placements, is_ready}
use mawster.War.Requests.{Request, remove_war_defender, do_remove_defender}
use mawster.War.Clicks.{
  is_at, has_attacker, handle_remove_defender, handle_confirm_remove_defender, confirm_removal,
  set_pending_remove_node,
}

pub data Click : Type 0 where
  removes : ℕ → Click
  confirms : Click
  dismisses : Click

unfoldable pub click : Click → WarState → WarState × Option Request
click (removes node) s = handle_remove_defender node s
click confirms s = handle_confirm_remove_defender s
click dismisses s = (set_pending_remove_node none s, none)

abbrev asks : ℕ → Option Request → ℕ
asks n (some (remove_war_defender t node)) = if node == n then 1 else 0
asks n _ = 0

-- How often a run of clicks asks the server to remove the defender of a node.
unfoldable pub removals : ℕ → List Click → WarState → ℕ
removals n [] s = 0
removals n (e ∷ clicks) s = asks n (click e s).1 + removals n clicks (click e s).0

abbrev is_confirm : Click → Bool
is_confirm confirms = true
is_confirm _ = false

abbrev is_remove : ℕ → Click → Bool
is_remove n (removes node) = node == n
is_remove n _ = false

abbrev waiting : ℕ → Option ℕ → ℕ
waiting n none = 0
waiting n (some node) = if node == n then 1 else 0

abbrev to_ℕ : Bool → ℕ
to_ℕ b = if b then 1 else 0

placements-confirm_removal :
    (o : Option ℕ) (s : WarState) → placements (confirm_removal o s).0 ≡ placements s
unfolding confirm_removal
placements-confirm_removal none s = refl
placements-confirm_removal (some node) s = refl

placements-click : (e : Click) (s : WarState) → placements (click e s).0 ≡ placements s
unfolding click handle_remove_defender handle_confirm_remove_defender set_pending_remove_node
placements-click (removes node) s = ground arith
placements-click confirms s = placements-confirm_removal s.pending_remove_node s
placements-click dismisses s = refl

asks-do_remove_defender :
    (n node : ℕ) (s : WarState) → asks n (do_remove_defender node s) ≤ to_ℕ (node == n)
asks-do_remove_defender n node s = elim (Bool-cases (is_ready s)) [
  | inl ready ↦ rw ready (omega arith)
  | inr idle ↦ rw idle (omega arith)
]

module _ (n : ℕ) where
  asks-confirm_removal :
      (o : Option ℕ) (s : WarState)
      → s.pending_remove_node ≡ o
      → asks n (confirm_removal o s).1 + waiting n (confirm_removal o s).0.pending_remove_node
        ≤ waiting n o
  unfolding confirm_removal
  asks-confirm_removal none s e = rw e (omega arith)
  asks-confirm_removal (some node) s e = omega (arith, asks-do_remove_defender n node s)

  asks-handle_remove_defender :
      (node : ℕ) (s : WarState)
      → asks n (handle_remove_defender node s).1
          + waiting n (handle_remove_defender node s).0.pending_remove_node
        ≤ waiting n s.pending_remove_node + to_ℕ (node == n)
  unfolding handle_remove_defender
  asks-handle_remove_defender node s = elim (Bool-cases (is_ready s)) [
    | inr idle ↦ rw idle (omega arith)
    | inl ready ↦ elim (Bool-cases (has_attacker (find (is_at node) (placements s)))) [
      | inl attacked ↦ rw (ready, attacked) (omega arith)
      | inr free ↦ rw (ready, free) (omega arith)
    ]
  ]

  -- What is asked for was clicked before.
  click-waiting :
      (e : Click) (s : WarState)
      → asks n (click e s).1 + waiting n (click e s).0.pending_remove_node
        ≤ waiting n s.pending_remove_node + to_ℕ (is_remove n e)
  unfolding click set_pending_remove_node handle_confirm_remove_defender
  click-waiting (removes node) s = asks-handle_remove_defender node s
  click-waiting confirms s = omega (arith, asks-confirm_removal s.pending_remove_node s refl)
  click-waiting dismisses s = omega arith

  asks_le_one : (r : Option Request) → asks n r ≤ 1
  asks_le_one r = ground arith

  asks-attacked :
      (node : ℕ) (s : WarState)
      → has_attacker (find (is_at node) (placements s)) ≡ true
      → asks n (handle_remove_defender node s).1 ≡ 0
  unfolding handle_remove_defender
  asks-attacked node s attacked = elim (Bool-cases (is_ready s)) [
    | inr idle ↦ rw idle refl
    | inl ready ↦ rw (ready, attacked) refl
  ]

  asks-missed :
      (node : ℕ) (s : WarState) → (node == n) ≡ false → asks n (handle_remove_defender node s).1 ≡ 0
  unfolding handle_remove_defender
  asks-missed node s e = elim (Bool-cases (is_ready s)) [
    | inr idle ↦ rw idle refl
    | inl ready ↦ elim (Bool-cases (has_attacker (find (is_at node) (placements s)))) [
      | inl attacked ↦ rw (ready, attacked) refl
      | inr free ↦ rw (ready, free, e) refl
    ]
  ]

  -- A defender with an attacker is asked for by a confirmation only.
  click-confirms :
      (e : Click) (s : WarState)
      → has_attacker (find (is_at n) (placements s)) ≡ true
      → asks n (click e s).1 ≤ to_ℕ (is_confirm e)
  unfolding click
  click-confirms (removes node) s attacked = elim (Bool-cases (node == n)) [
    | inl e ↦ omega (
      arith,
      asks-attacked node s (
          ap (λ m. has_attacker (find (is_at m) (placements s))) ((nat_beq_iff node n).0 e)
          ∙ attacked),
    )
    | inr e ↦ omega (arith, asks-missed node s e)
  ]
  click-confirms confirms s attacked = asks_le_one (handle_confirm_remove_defender s).1
  click-confirms dismisses s attacked = omega arith

  -- The server is asked to remove a defender that has an attacker at most as often as a removal is
  -- confirmed, and at most once for each click that asked for the dialog, the one that is open
  -- included.
  pub removals_lem :
      (clicks : List Click) (s : WarState)
      → has_attacker (find (is_at n) (placements s)) ≡ true
      → (removals n clicks s ≤ count is_confirm clicks)
        × (removals n clicks s ≤ waiting n s.pending_remove_node + count (is_remove n) clicks)
  unfolding removals
  removals_lem [] s attacked = (omega arith, omega arith)
  removals_lem (e ∷ clicks) s attacked =
      let rest =
        removals_lem clicks (click e s).0
          (ap (λ ps. has_attacker (find (is_at n) ps)) (placements-click e s) ∙ attacked) in
      (
        ground (arith, rest.0, click-confirms e s attacked),
        ground (arith, rest.1, click-waiting e s),
      )
