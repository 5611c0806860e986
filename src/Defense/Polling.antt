-- ===== src/Defense/Polling.antt =====
-- Loading the defense and the interval that loads it again.
use mawster.Base.{
  ℕ, ◌+◌, List, ◌∷◌, Option, none, some, Bool, true, false, not, ◌==◌, nat_eq, filter,
  if◌then◌else◌,
}
use mawster.Defense.{
  DefensePage, DefenseSummary, AvailableChampion, BgMember, show, is_ready, error, load_error,
}

-- The answers of the three requests of `fetchDefense`, `none` where one of them throws.
abbrev pub DefenseAnswer : Type 0
DefenseAnswer = Option (DefenseSummary × List AvailableChampion × List BgMember)

-- Whether the requests are sent, and the state meanwhile.
unfoldable fetch_defense_started : Bool → DefensePage → DefensePage × Bool
fetch_defense_started silent s =
    if is_ready s
    then (record s { defense_loading = if silent then s.defense_loading else true }, true)
    else (s, false)

unfoldable pub fetch_defense_answered : Bool → DefenseAnswer → DefensePage → DefensePage
fetch_defense_answered silent (some (defense, champions, members)) s = record s {
  defense_summary = some defense;
  available_champions = champions;
  bg_members = members;
  defense_loading = if silent then s.defense_loading else false;
}
fetch_defense_answered true none s = s
fetch_defense_answered false none s = show (error load_error) (record s { defense_loading = false })

abbrev pub stop : Option ℕ → List ℕ → List ℕ
stop none intervals = intervals
stop (some i) intervals = filter (λ j. not (j == i)) intervals

unfoldable pub reset_poll_timer : DefensePage → DefensePage
reset_poll_timer s = record s {
  intervals = s.next_interval ∷ stop s.poll_interval s.intervals;
  poll_interval = some s.next_interval;
  next_interval = s.next_interval + 1;
}

-- The effect that starts the polling.
unfoldable pub poll_started : DefensePage → DefensePage
unfolding reset_poll_timer
poll_started s = if is_ready s then reset_poll_timer s else s

-- What the effect leaves behind when it is cleaned up; the reference keeps its interval.
unfoldable pub poll_stopped : DefensePage → DefensePage
poll_stopped s = record s { intervals = stop s.poll_interval s.intervals }
