-- ===== src/War/Board.antt =====
-- The placements as a board, a function from nodes: what the page does to its list is what is done
-- to the board.
pub mod Refines
use mathlib.Core.Path.{fun_ext}
use mawster.Base.{
  Answer, resolved, rejected, ℕ, Text, List, [], ◌∷◌, ◌++◌, Option, none, some, Bool, true, false,
  ◌≡◌, refl, sym, ap, ◌∙◌, ◌==◌, nat_eq, find, is_some, opt_map, remove_key, modify_key, IsKeyed,
  at, find-remove_key, find-put_key, find-modify_key, remove_key-IsKeyed, put_key-IsKeyed,
  modify_key-IsKeyed, All, if◌then◌else◌, arith, All, ◌≤◌, count,
}
use mawster.War.{WarState, WarPlacement, WarDefenseSummary, WarSynergy, placements, placements_of}
use mawster.War.Defense

-- Every answer that changes the summary.
pub data Event : Type 0 where
  fetched : Bool → Defense.DefenseAnswer → Event
  placed : ℕ → Text → Answer WarPlacement → Event
  removed : ℕ → Answer (Unit {0}) → Event
  cleared : Answer (Unit {0}) → Event
  assigned : ℕ → Defense.Attacker → Answer (Unit {0}) → Event
  attacker_removed : Answer WarPlacement → Answer (List WarSynergy) → Event
  ko_updated toggled assist_assigned assist_removed : Answer WarPlacement → Event
  note_saved : ℕ → Answer Text → Event
  note_deleted : ℕ → Answer (Unit {0}) → Event

unfoldable pub happen : Event → WarState → WarState
happen (fetched silent answer) s = Defense.fetch_war_defense_answered silent answer s
happen (placed node name answer) s = Defense.place_defender_answered node name answer s
happen (removed node answer) s = Defense.remove_defender_answered node answer s
happen (cleared answer) s = Defense.clear_bg_answered answer s
happen (assigned node attacker answer) s = Defense.assign_attacker_answered node attacker answer s
happen (attacker_removed answer synergies) s = Defense.remove_attacker_answered answer synergies s
happen (ko_updated answer) s = Defense.update_ko_answered answer s
happen (toggled answer) s = Defense.toggle_answered answer s
happen (assist_assigned answer) s = Defense.assign_assist_answered answer s
happen (assist_removed answer) s = Defense.remove_assist_answered answer s
happen (note_saved node answer) s = Defense.save_note_answered node answer s
happen (note_deleted node answer) s = Defense.delete_note_answered node answer s

unfoldable pub happen_all : List Event → WarState → WarState
happen_all [] s = s
happen_all (e ∷ events) s = happen_all events (happen e s)

abbrev pub Board : Type 0
Board = ℕ → Option WarPlacement

-- What is done to one node, and the other nodes stay as they are.
abbrev change_at : ℕ → (Option WarPlacement → Option WarPlacement) → Board → Board
change_at n f board m = if m == n then f (board m) else board m

abbrev replaced : Answer WarPlacement → Board → Board
replaced (resolved updated) board = change_at updated.node_number (opt_map (λ p. updated)) board
replaced (rejected message) board = board

-- The events on a board.
unfoldable pub play : Event → Board → Board
play (fetched silent none) board = board
play (fetched silent (some (summary, synergies, prefights))) board =
    λ n. find (at Defense.node_of n) summary.placements
play (placed node name (resolved p)) board = change_at node (λ o. some p) board
play (placed node name (rejected message)) board = board
play (removed node (resolved _)) board = change_at node (λ o. none) board
play (removed node (rejected message)) board = board
play (cleared (resolved _)) board = λ n. none
play (cleared (rejected message)) board = board
play (assigned node attacker (resolved _)) board =
    change_at node (opt_map (Defense.with_attacker attacker)) board
play (assigned node attacker (rejected message)) board = board
play (attacker_removed answer synergies) board = replaced answer board
play (ko_updated answer) board = replaced answer board
play (toggled answer) board = replaced answer board
play (assist_assigned answer) board = replaced answer board
play (assist_removed answer) board = replaced answer board
play (note_saved node (resolved content)) board =
    change_at node (opt_map (Defense.with_note (some content))) board
play (note_saved node (rejected message)) board = board
play (note_deleted node (resolved _)) board =
    change_at node (opt_map (Defense.with_note none)) board
play (note_deleted node (rejected message)) board = board

unfoldable pub play_all : List Event → Board → Board
play_all [] board = board
play_all (e ∷ events) board = play_all events (play e board)

-- What the server answers: the placement of the node that was asked for, and a summary with at
-- most one placement for each node.
abbrev pub IsFitting : Event → Type 0
IsFitting (fetched silent (some (summary, synergies, prefights))) =
    IsKeyed Defense.node_of summary.placements
IsFitting (placed node name (resolved p)) = p.node_number ≡ node
IsFitting _ = Unit

abbrev pub board_of : WarState → Board
board_of s n = find (at Defense.node_of n) (placements s)

-- The summary is loaded and has at most one placement for each node.
pub record IsValid (s : WarState) : Type 0 where
  pub loaded : is_some s.war_summary ≡ true
  pub keyed : IsKeyed Defense.node_of (placements s)
