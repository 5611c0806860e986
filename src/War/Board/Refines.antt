-- ===== src/War/Board/Refines.antt =====
-- The list of placements behaves as the board.
use mathlib.Core.Path.{fun_ext}
use mawster.Base.{
  resolved, rejected, ℕ, List, [], ◌∷◌, ◌++◌, Option, none, some, Bool, true, false, ◌≡◌, refl, sym,
  ap, ◌∙◌, nat_eq, find, is_some, opt_map, remove_key, modify_key, IsKeyed, at, find-remove_key,
  find-put_key, find-modify_key, remove_key-IsKeyed, put_key-IsKeyed, modify_key-IsKeyed, All,
  arith,
}
use mawster.War.{WarState, WarPlacement, WarDefenseSummary, placements, placements_of}
use mawster.War.Defense
use mawster.War.Defense.{change, set_placements, node_of}
use mawster.War.Board.{
  Event, happen, happen_all, Board, change_at, play, play_all, IsFitting, board_of, IsValid,
}

placements-change :
    (f : List WarPlacement → List WarPlacement) (o : Option WarDefenseSummary)
    → is_some o ≡ true
    → placements_of (change f o) ≡ f (placements_of o)
placements-change f none h = absurd cc
placements-change f (some summary) h = refl

is_some-change :
    (f : List WarPlacement → List WarPlacement) (o : Option WarDefenseSummary)
    → is_some (change f o) ≡ is_some o
is_some-change f none = refl
is_some-change f (some summary) = refl

-- A valid state with the board that it is to have.
pub record Shows (s : WarState) (board : Board) : Type 0 where
  pub valid : IsValid s
  pub shown : board_of s ≡ board

module _ (s : WarState) (h : IsValid s) where
  same : Shows s (board_of s)
  same = record { valid = h; shown = refl }

  changed :
      (f : List WarPlacement → List WarPlacement) (board : Board)
      → IsKeyed node_of (f (placements s))
      → ((m : ℕ) → find (at node_of m) (f (placements s)) ≡ board m)
      → Shows (set_placements f s) board
  changed f board keyed reads =
      let e = placements-change f s.war_summary h.loaded in
      record {
        valid = record { loaded = is_some-change f s.war_summary ∙ h.loaded; keyed = rw e keyed };
        shown = fun_ext (λ m. rw e (reads m));
      }

  removes :
      (n : ℕ)
      → Shows (set_placements (remove_key node_of n) s) (change_at n (λ o. none) (board_of s))
  removes n =
      changed (remove_key node_of n) _ (remove_key-IsKeyed node_of n (placements s) h.keyed)
        (λ m. find-remove_key node_of m n (placements s))

  puts :
      (p : WarPlacement)
      → Shows
          (set_placements (λ ps. remove_key node_of p.node_number ps ++ (p ∷ [])) s)
          (change_at p.node_number (λ o. some p) (board_of s))
  puts p =
      changed (λ ps. remove_key node_of p.node_number ps ++ (p ∷ [])) _
        (put_key-IsKeyed node_of p (placements s) h.keyed)
        (λ m. find-put_key node_of m p (placements s))

  modifies :
      (n : ℕ) (f : WarPlacement → WarPlacement)
      → ((p : WarPlacement) → p.node_number ≡ n → (f p).node_number ≡ n)
      → Shows (set_placements (modify_key node_of n f) s) (change_at n (opt_map f) (board_of s))
  modifies n f keeps =
      changed (modify_key node_of n f) _
        (modify_key-IsKeyed node_of n f keeps (placements s) h.keyed)
        (λ m. find-modify_key node_of n f keeps m (placements s))

  replaces :
      (updated : WarPlacement)
      → Shows
          (Defense.replace updated s)
          (change_at updated.node_number (opt_map (λ p. updated)) (board_of s))
  replaces updated = modifies updated.node_number (λ p. updated) (λ p e. refl)

  clears : Shows (set_placements (λ ps. []) s) (λ n. none)
  clears = changed (λ ps. []) _ (λ n. omega arith) (λ m. refl)

-- Only the summary counts.
same_summary :
    (s s' : WarState) (board : Board)
    → s'.war_summary ≡ s.war_summary
    → Shows s board
    → Shows s' board
same_summary s s' board e h = record {
  valid = record { loaded = rw e h.valid.loaded; keyed = rw e h.valid.keyed };
  shown = rw e h.shown;
}

fetched-Shows :
    (silent : Bool) (answer : Defense.DefenseAnswer) (s : WarState)
    → IsValid s
    → IsFitting (Event.fetched silent answer)
    → Shows
        (Defense.fetch_war_defense_answered silent answer s)
        (play (Event.fetched silent answer) (board_of s))
unfolding Defense.fetch_war_defense_answered play
fetched-Shows true none s h fitting = same s h
fetched-Shows false none s h fitting = same_summary s _ (board_of s) refl (same s h)
fetched-Shows silent (some (summary, synergies, prefights)) s h fitting = record {
  valid = record { loaded = refl; keyed = fitting };
  shown = refl;
}

happen-Shows :
    (e : Event) (s : WarState) → IsValid s → IsFitting e → Shows (happen e s) (play e (board_of s))
unfolding happen play Defense.place_defender_answered Defense.remove_defender_answered
    Defense.clear_bg_answered Defense.assign_attacker_answered Defense.remove_attacker_answered
    Defense.update_ko_answered Defense.toggle_answered Defense.assign_assist_answered
    Defense.remove_assist_answered Defense.save_note_answered Defense.delete_note_answered
happen-Shows (Event.fetched silent answer) s h fitting = fetched-Shows silent answer s h fitting
happen-Shows (Event.placed node name (resolved p)) s h fitting =
    rw (sym fitting) (same_summary _ _ _ refl (puts s h p))
happen-Shows (Event.placed node name (rejected message)) s h fitting =
    same_summary s _ _ refl (same s h)
happen-Shows (Event.removed node (resolved _)) s h fitting =
    same_summary _ _ _ refl (removes s h node)
happen-Shows (Event.removed node (rejected message)) s h fitting =
    same_summary s _ _ refl (same s h)
happen-Shows (Event.cleared (resolved _)) s h fitting = same_summary _ _ _ refl (clears s h)
happen-Shows (Event.cleared (rejected message)) s h fitting = same_summary s _ _ refl (same s h)
happen-Shows (Event.assigned node attacker (resolved _)) s h fitting =
    same_summary _ _ _ refl (modifies s h node (Defense.with_attacker attacker) (λ p e. e))
happen-Shows (Event.assigned node attacker (rejected message)) s h fitting =
    same_summary s _ _ refl (same s h)
happen-Shows (Event.attacker_removed (resolved updated) (resolved synergies)) s h fitting =
    same_summary _ _ _ refl (replaces s h updated)
happen-Shows (Event.attacker_removed (resolved updated) (rejected message)) s h fitting =
    same_summary _ _ _ refl (replaces s h updated)
happen-Shows (Event.attacker_removed (rejected message) synergies) s h fitting =
    same_summary s _ _ refl (same s h)
happen-Shows (Event.ko_updated (resolved updated)) s h fitting =
    same_summary _ _ _ refl (replaces s h updated)
happen-Shows (Event.ko_updated (rejected message)) s h fitting = same_summary s _ _ refl (same s h)
happen-Shows (Event.toggled (resolved updated)) s h fitting =
    same_summary _ _ _ refl (replaces s h updated)
happen-Shows (Event.toggled (rejected message)) s h fitting = same_summary s _ _ refl (same s h)
happen-Shows (Event.assist_assigned (resolved updated)) s h fitting =
    same_summary _ _ _ refl (replaces s h updated)
happen-Shows (Event.assist_assigned (rejected message)) s h fitting =
    same_summary s _ _ refl (same s h)
happen-Shows (Event.assist_removed (resolved updated)) s h fitting =
    same_summary _ _ _ refl (replaces s h updated)
happen-Shows (Event.assist_removed (rejected message)) s h fitting =
    same_summary s _ _ refl (same s h)
happen-Shows (Event.note_saved node (resolved content)) s h fitting =
    same_summary _ _ _ refl (modifies s h node (Defense.with_note (some content)) (λ p e. e))
happen-Shows (Event.note_saved node (rejected message)) s h fitting =
    same_summary s _ _ refl (same s h)
happen-Shows (Event.note_deleted node (resolved _)) s h fitting =
    same_summary _ _ _ refl (modifies s h node (Defense.with_note none) (λ p e. e))
happen-Shows (Event.note_deleted node (rejected message)) s h fitting =
    same_summary s _ _ refl (same s h)

-- Whatever answers come, in whatever order: the list of placements keeps at most one placement for
-- each node, and shows on each node what the board shows to which the same was done. The summary is
-- loaded, and the server answers for the node that it was asked about.
pub happen_all_refines :
    (events : List Event) (s : WarState)
    → IsValid s
    → All IsFitting events
    → IsValid (happen_all events s)
      × (board_of (happen_all events s) ≡ play_all events (board_of s))
unfolding happen_all play_all
happen_all_refines [] s h fitting = (h, refl)
happen_all_refines (e ∷ events) s h fitting =
    let step = happen-Shows e s h fitting.0 in
    let (valid, shown) = happen_all_refines events (happen e s) step.valid fitting.1 in
    (valid, shown ∙ ap (play_all events) step.shown)
