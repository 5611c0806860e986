-- ===== src/AddForm/Searches.antt =====
-- How often the form searches.
use mawster.Base.{
  Answer, resolved, rejected, ℕ, ◌+◌, ◌≤◌, length, Text, List, [], ◌∷◌, Option, none, some, Bool,
  false, not, ◌≡◌, refl, is_empty, count, if◌then◌else◌, All, Bool-cases, inl, inr, arith,
}
use mawster.RosterFilters.{trim}
use mawster.AddForm.{
  AddForm, FormChampion, handle_champion_search_change, search_due, search_answered,
  handle_select_champion, reset,
}

pub data Event : Type 0 where
  typed : Text → Event
  due : Event
  results_in : Answer (List FormChampion) → Event
  selected : FormChampion → Event
  cleared : Event

-- The state after an event, and the search that it sends.
unfoldable pub happen : Event → AddForm → AddForm × Option Text
happen (typed val) s = (handle_champion_search_change val s, none)
happen due s = search_due s
happen (results_in answer) s = (search_answered answer s, none)
happen (selected c) s = (handle_select_champion c s, none)
happen cleared s = (reset s, none)

abbrev sent : Option Text → List Text → List Text
sent none searches = searches
sent (some val) searches = val ∷ searches

-- The searches of a run, in their order.
unfoldable pub searches : List Event → AddForm → List Text
searches [] s = []
searches (e ∷ events) s = let rest = searches events (happen e s).0 in sent (happen e s).1 rest

abbrev is_search : Event → Bool
is_search (typed val) = not (is_empty (trim val))
is_search _ = false

abbrev waits : Option Text → ℕ
waits none = 0
waits (some val) = 1

-- The text that waits for the timer is not blank.
abbrev IsWaiting : Option Text → Type 0
IsWaiting none = Unit {0}
IsWaiting (some val) = is_empty (trim val) ≡ false

abbrev pub IsSearch : Text → Type 0
IsSearch val = is_empty (trim val) ≡ false

search_timer-search_answered :
    (answer : Answer (List FormChampion)) (s : AddForm)
    → (search_answered answer s).search_timer ≡ s.search_timer
unfolding search_answered
search_timer-search_answered (resolved []) s = refl
search_timer-search_answered (resolved (c ∷ [])) s = refl
search_timer-search_answered (resolved (c ∷ d ∷ champions)) s = refl
search_timer-search_answered (rejected message) s = refl

-- What an event does to the timer.
record Fits (e : Event) (s : AddForm) : Type 0 where
  waiting : IsWaiting (happen e s).0.search_timer
  asked : IsWaiting (happen e s).1
  bound :
      waits (happen e s).1 + waits (happen e s).0.search_timer
      ≤ (if is_search e then 1 else 0) + waits s.search_timer

happen-Fits : (e : Event) (s : AddForm) → IsWaiting s.search_timer → Fits e s
unfolding happen handle_champion_search_change search_due handle_select_champion reset
happen-Fits (typed val) s w = elim (Bool-cases (is_empty (trim val))) [
  | inl blank ↦ record { waiting = rw blank tt; asked = tt; bound = rw blank (omega arith) }
  | inr text ↦ record { waiting = rw text text; asked = tt; bound = rw text (omega arith) }
]
happen-Fits due s w = record { waiting = tt; asked = w; bound = omega arith }
happen-Fits (results_in answer) s w = record {
  waiting = rw (search_timer-search_answered answer s) w;
  asked = tt;
  bound = rw (search_timer-search_answered answer s) (omega arith);
}
happen-Fits (selected c) s w = record { waiting = w; asked = tt; bound = omega arith }
happen-Fits cleared s w = record { waiting = w; asked = tt; bound = omega arith }

length-sent : (o : Option Text) (rest : List Text) → length (sent o rest) ≡ waits o + length rest
length-sent none rest = omega arith
length-sent (some val) rest = omega arith

All-sent :
    (o : Option Text) (rest : List Text)
    → IsWaiting o
    → All IsSearch rest
    → All IsSearch (sent o rest)
All-sent none rest w h = h
All-sent (some val) rest w h = (w, h)

-- Whatever happens to the form, in whatever order: it never searches for a blank text, and at most
-- once for each change of the text to one that is not blank, the one whose timer runs at the start
-- included.
pub searches_lem :
    (events : List Event) (s : AddForm)
    → IsWaiting s.search_timer
    → (length (searches events s) ≤ count is_search events + waits s.search_timer)
      × All IsSearch (searches events s)
unfolding searches
searches_lem [] s w = (omega arith, tt)
searches_lem (e ∷ events) s w =
    let fits = happen-Fits e s w in
    let rest = searches_lem events (happen e s).0 fits.waiting in
    (
      ground
          (arith, fits.bound, rest.0, length-sent (happen e s).1 (searches events (happen e s).0)),
      All-sent (happen e s).1 _ fits.asked rest.1,
    )
