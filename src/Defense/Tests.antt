-- ===== src/Defense/Tests.antt =====
-- The defense page at concrete inputs.
use mawster.Base.{resolved, ◌≤◌, length, List, [], ◌∷◌, none, some, false, ◌≡◌, refl, codes, arith}
use mawster.Defense.{DefensePage}
use mawster.Defense.Polling.{poll_stopped}
use mawster.Defense.Actions.{place_answered}
use mawster.Defense.Intervals.{Event, starts, chosen, placed, happen_all, happen_all_intervals}

abbrev page : DefensePage
page = record {
  selector = record {
    alliances = [];
    selected_alliance_id = codes "a";
    selected_bg = 1;
    loading = false;
  };
  defense_loading = false;
  defense_summary = none;
  available_champions = [];
  bg_members = [];
  selector_node = some 7;
  clear_confirm_open = false;
  poll_interval = none;
  intervals = [];
  next_interval = 0;
  toasts = [];
}

abbrev events : List Event
events = starts ∷ placed (codes "Hulk") 7 (resolved tt) none ∷ chosen (codes "b") 2 ∷ starts ∷ []

abbrev polled : DefensePage
polled = happen_all events page

happen_all_intervals_example :
    (length polled.intervals ≤ 1)
    × ((poll_stopped polled).intervals ≡ [])
    × (length (place_answered (codes "Hulk") 7 (resolved tt) none (poll_stopped polled)).intervals
        ≡ 1)
happen_all_intervals_example =
    happen_all_intervals events page polled (record { single = omega arith; known = tt }) refl
      (codes "Hulk") 7 none
