-- ===== src/War/Clicks/Opened.antt =====
-- When a click on a node opens a selector.
use mawster.Base.{
  ℕ, some, Bool, true, false, not, ◌&&◌, ◌≡◌, refl, is_empty, any, if◌then◌else◌, Bool-cases, inl,
  inr,
}
use mawster.Alliances.{Alliance}
use mawster.War.{WarState, WarMode, attackers, defenders, export, active_war_id, placements}
use mawster.War.Clicks.{is_at, can_manage_war, handle_node_click, click_in}

-- Whether the mode lets a click open the selector of attackers, and that of defenders.
unfoldable opens_attackers : WarMode → ℕ → WarState → Bool
opens_attackers attackers node s =
    not (is_empty (active_war_id s)) && any (is_at node) (placements s)
opens_attackers _ node s = false

unfoldable opens_defenders : WarMode → (Alliance → Bool) → WarState → Bool
opens_defenders defenders can_manage s =
    not (is_empty (active_war_id s)) && can_manage_war can_manage s
opens_defenders _ can_manage s = false

opens_attackers-idle :
    (mode : WarMode) (node : ℕ) (s : WarState)
    → is_empty (active_war_id s) ≡ true
    → opens_attackers mode node s ≡ false
unfolding opens_attackers
opens_attackers-idle attackers node s idle = rw idle refl
opens_attackers-idle defenders node s idle = refl
opens_attackers-idle export node s idle = refl

opens_defenders-idle :
    (mode : WarMode) (can_manage : Alliance → Bool) (s : WarState)
    → is_empty (active_war_id s) ≡ true
    → opens_defenders mode can_manage s ≡ false
unfolding opens_defenders
opens_defenders-idle attackers can_manage s idle = refl
opens_defenders-idle defenders can_manage s idle = rw idle refl
opens_defenders-idle export can_manage s idle = refl

module _ (can_manage : Alliance → Bool) (node : ℕ) where
  click_in-opened :
      (mode : WarMode) (s : WarState)
      → is_empty (active_war_id s) ≡ false
      → ((click_in mode can_manage node s).attacker_selector_node
          ≡ (if opens_attackers mode node s then some node else s.attacker_selector_node))
        × ((click_in mode can_manage node s).selector_node
            ≡ (if opens_defenders mode can_manage s then some node else s.selector_node))
  unfolding opens_attackers opens_defenders
  click_in-opened attackers s active = elim (Bool-cases (any (is_at node) (placements s))) [
    | inl found ↦ rw (active, found) (refl, refl)
    | inr missing ↦ rw (active, missing) (refl, refl)
  ]
  click_in-opened defenders s active = elim (Bool-cases (can_manage_war can_manage s)) [
    | inl allowed ↦ rw (active, allowed) (refl, refl)
    | inr refused ↦ rw (active, refused) (refl, refl)
  ]
  click_in-opened export s active = (refl, refl)

  -- A click on a node opens the selector of attackers in that mode only, for a defender of a war,
  -- and the selector of defenders in that mode only, for somebody who manages the alliance at war;
  -- it closes no selector.
  handle_node_click-opens :
      (s : WarState)
      → ((handle_node_click can_manage node s).attacker_selector_node
          ≡ (if opens_attackers s.war_mode node s then some node else s.attacker_selector_node))
        × ((handle_node_click can_manage node s).selector_node
            ≡ (if opens_defenders s.war_mode can_manage s then some node else s.selector_node))
  unfolding handle_node_click
  handle_node_click-opens s = elim (Bool-cases (is_empty (active_war_id s))) [
    | inl idle ↦
        rw
          (
            idle,
            opens_attackers-idle s.war_mode node s idle,
            opens_defenders-idle s.war_mode can_manage s idle,
          )
          (refl, refl)
    | inr active ↦ rw active (click_in-opened s.war_mode s active)
  ]
