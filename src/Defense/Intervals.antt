-- ===== src/Defense/Intervals.antt =====
-- How many intervals run.
use mathlib.Core.Path.{subst}
use mawster.Base.{
  Answer, resolved, rejected, ℕ, ◌≤◌, length, Text, List, [], ◌∷◌, Option, none, some, Bool, true,
  false, ◌≡◌, refl, nat_eq, All, Bool-cases, inl, inr, arith,
}
use mawster.Defense.{DefensePage, is_ready}
use mawster.Defense.Polling.{
  DefenseAnswer, fetch_defense_answered, stop, reset_poll_timer, poll_started, poll_stopped,
}
use mawster.Defense.Actions.{place_answered, remove_answered, clear_answered, set_selected}

pub data Event : Type 0 where
  starts stops : Event
  fetched : (silent : Bool) → DefenseAnswer → Event
  placed : Text → ℕ → Answer (Unit {0}) → DefenseAnswer → Event
  removed cleared : Answer (Unit {0}) → DefenseAnswer → Event
  chosen : (alliance_id : Text) → (bg : ℕ) → Event

unfoldable pub happen : Event → DefensePage → DefensePage
happen starts s = poll_started s
happen stops s = poll_stopped s
happen (fetched silent answer) s = fetch_defense_answered silent answer s
happen (placed name node answer reloaded) s = place_answered name node answer reloaded s
happen (removed answer reloaded) s = remove_answered answer reloaded s
happen (cleared answer reloaded) s = clear_answered answer reloaded s
happen (chosen alliance_id bg) s = set_selected alliance_id bg s

unfoldable pub happen_all : List Event → DefensePage → DefensePage
happen_all [] s = s
happen_all (e ∷ events) s = happen_all events (happen e s)

-- At most one interval runs, and the reference has it.
pub record IsPolling (s : DefensePage) : Type 0 where
  pub single : length s.intervals ≤ 1
  pub known : All (λ i. s.poll_interval ≡ some i) s.intervals

stop-All :
    (o : Option ℕ) (intervals : List ℕ) → All (λ i. o ≡ some i) intervals → stop o intervals ≡ []
stop-All none [] h = refl
stop-All (some j) [] h = refl
stop-All none (i ∷ intervals) h = absurd (ground (arith, h.0))
stop-All (some j) (i ∷ intervals) h = ground (arith, h.0, stop-All (some j) intervals h.1)

reset_poll_timer-IsPolling : (s : DefensePage) → IsPolling s → IsPolling (reset_poll_timer s)
unfolding reset_poll_timer
reset_poll_timer-IsPolling s h =
    rw (stop-All s.poll_interval s.intervals h.known)
      (record { single = omega arith; known = (refl, tt) })

-- The intervals count, and the reference.
same_intervals :
    (s s' : DefensePage)
    → s'.intervals ≡ s.intervals
    → s'.poll_interval ≡ s.poll_interval
    → IsPolling s
    → IsPolling s'
same_intervals s s' same known h = record {
  single = rw same h.single;
  known = rw (same, known) h.known;
}

fetch_defense_answered-IsPolling :
    (silent : Bool) (answer : DefenseAnswer) (s : DefensePage)
    → IsPolling s
    → IsPolling (fetch_defense_answered silent answer s)
unfolding fetch_defense_answered
fetch_defense_answered-IsPolling silent (some (defense, champions, members)) s h =
    same_intervals s _ refl refl h
fetch_defense_answered-IsPolling true none s h = h
fetch_defense_answered-IsPolling false none s h = same_intervals s _ refl refl h

-- An action that went well starts the interval anew.
acted-IsPolling :
    (reloaded : DefenseAnswer) (s : DefensePage)
    → IsPolling s
    → IsPolling (reset_poll_timer (fetch_defense_answered true reloaded s))
acted-IsPolling reloaded s h =
    reset_poll_timer-IsPolling _ (fetch_defense_answered-IsPolling true reloaded s h)

happen-IsPolling : (e : Event) (s : DefensePage) → IsPolling s → IsPolling (happen e s)
unfolding happen poll_started poll_stopped place_answered remove_answered clear_answered
happen-IsPolling starts s h = elim (Bool-cases (is_ready s)) [
  | inl ready ↦ rw ready (reset_poll_timer-IsPolling s h)
  | inr idle ↦ rw idle h
]
happen-IsPolling stops s h =
    rw (stop-All s.poll_interval s.intervals h.known) (record { single = omega arith; known = tt })
happen-IsPolling (fetched silent answer) s h = fetch_defense_answered-IsPolling silent answer s h
happen-IsPolling (placed name node (resolved _) reloaded) s h =
    acted-IsPolling reloaded _ (same_intervals s _ refl refl h)
happen-IsPolling (placed name node (rejected message) reloaded) s h = same_intervals s _ refl refl h
happen-IsPolling (removed (resolved _) reloaded) s h =
    acted-IsPolling reloaded _ (same_intervals s _ refl refl h)
happen-IsPolling (removed (rejected message) reloaded) s h = same_intervals s _ refl refl h
happen-IsPolling (cleared (resolved _) reloaded) s h =
    same_intervals _ _ refl refl (acted-IsPolling reloaded _ (same_intervals s _ refl refl h))
happen-IsPolling (cleared (rejected message) reloaded) s h = same_intervals s _ refl refl h
happen-IsPolling (chosen alliance_id bg) s h = same_intervals s _ refl refl h

happen_all-IsPolling :
    (events : List Event) (s : DefensePage) → IsPolling s → IsPolling (happen_all events s)
unfolding happen_all
happen_all-IsPolling [] s h = h
happen_all-IsPolling (e ∷ events) s h = happen_all-IsPolling events _ (happen-IsPolling e s h)

length-reset_poll_timer :
    (s : DefensePage) → IsPolling s → length (reset_poll_timer s).intervals ≡ 1
unfolding reset_poll_timer
length-reset_poll_timer s h = rw (stop-All s.poll_interval s.intervals h.known) refl

-- Whatever happens to the page, in whatever order: at most one interval runs, and cleaning up
-- stops it; but a placement whose answer comes after that starts an interval again.
pub happen_all_intervals :
    (events : List Event) (s s' : DefensePage)
    → IsPolling s
    → happen_all events s ≡ s'
    → (name : Text) (node : ℕ) (reloaded : DefenseAnswer)
    → (length s'.intervals ≤ 1)
      × ((poll_stopped s').intervals ≡ [])
      × (length (place_answered name node (resolved tt) reloaded (poll_stopped s')).intervals ≡ 1)
unfolding poll_stopped place_answered happen
happen_all_intervals events s s' h run name node reloaded =
    let polling = subst IsPolling run (happen_all-IsPolling events s h) in
    let stopped = stop-All s'.poll_interval s'.intervals polling.known in
    let quiet = happen-IsPolling stops s' polling in
    (
      polling.single,
      stopped,
      length-reset_poll_timer _
          (fetch_defense_answered-IsPolling true reloaded _ (same_intervals _ _ refl refl quiet)),
    )
