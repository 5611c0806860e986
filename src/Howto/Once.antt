-- ===== src/Howto/Once.antt =====
-- When an action runs.
use mawster.Base.{
  ℕ, ◌+◌, ◌≤◌, List, [], ◌∷◌, Option, none, some, Bool, true, false, any, ◌||◌, ◌≡◌, refl, ◌∙◌,
  ◌==◌, nat_eq, count, if◌then◌else◌, arith,
}
use mawster.Howto.{
  Howto, initial, Event, requested, reopened, confirmed, mounts, sets_dont_show, sets_open, request,
  reopen, confirm, run_pending, happen, happen_all,
}

abbrev asks_for : ℕ → Event → Bool
asks_for action (requested a) = a == action
asks_for action _ = false

-- How often an action was asked for.
abbrev pub requests_of : ℕ → List Event → ℕ
requests_of action events = count (asks_for action) events

abbrev waiting : ℕ → Option ℕ → ℕ
waiting action none = 0
waiting action (some a) = if a == action then 1 else 0

-- How often an action ran or is about to.
abbrev weight : ℕ → Howto → ℕ
weight action s = count (λ a. a == action) s.ran + waiting action s.proceed

count-run_pending :
    (action : ℕ) (o : Option ℕ) (ran : List ℕ)
    → count (λ a. a == action) (run_pending o ran) ≤ count (λ a. a == action) ran + waiting action o
count-run_pending action none ran = omega arith
count-run_pending action (some a) ran = ground arith

weight-confirm : (action : ℕ) (s : Howto) → weight action (confirm s) ≤ weight action s
unfolding confirm
weight-confirm action s = omega (arith, count-run_pending action s.proceed s.ran)

weight-happen :
    (action : ℕ) (e : Event) (s : Howto)
    → weight action (happen e s) ≤ weight action s + (if asks_for action e then 1 else 0)
unfolding happen request reopen
weight-happen action (requested a) s = ground arith
weight-happen action reopened s = ground arith
weight-happen action confirmed s = omega (arith, weight-confirm action s)
weight-happen action (mounts storage) s = omega arith
weight-happen action (sets_dont_show value) s = omega arith
weight-happen action (sets_open value) s = omega arith

weight-happen_all :
    (action : ℕ) (events : List Event) (s : Howto)
    → weight action (happen_all events s) ≤ weight action s + requests_of action events
unfolding happen_all
weight-happen_all action [] s = omega arith
weight-happen_all action (e ∷ events) s =
    ground (arith, weight-happen_all action events (happen e s), weight-happen action e s)

abbrev pub asks : Event → Bool
asks (requested a) = true
asks _ = false

-- With nothing pending, nothing runs until an action is asked for again.
happen-idle :
    (e : Event) (s : Howto)
    → asks e ≡ false
    → s.proceed ≡ none
    → ((happen e s).ran ≡ s.ran) × ((happen e s).proceed ≡ none)
unfolding happen reopen confirm
happen-idle (requested a) s quiet idle = cc
happen-idle reopened s quiet idle = (refl, refl)
happen-idle confirmed s quiet idle = (rw idle refl, refl)
happen-idle (mounts storage) s quiet idle = (refl, idle)
happen-idle (sets_dont_show value) s quiet idle = (refl, idle)
happen-idle (sets_open value) s quiet idle = (refl, idle)

happen_all-idle :
    (events : List Event) (s : Howto)
    → any asks events ≡ false
    → s.proceed ≡ none
    → (happen_all events s).ran ≡ s.ran
unfolding happen_all
happen_all-idle [] s quiet idle = refl
happen_all-idle (e ∷ events) s quiet idle =
    let step = happen-idle e s (or_false quiet).0 idle in
    happen_all-idle events (happen e s) (or_false quiet).1 step.1 ∙ step.0
  where
    or_false : {a b : Bool} → (a || b) ≡ false → (a ≡ false) × (b ≡ false)
    or_false h = ground arith

-- Whatever the clicks are, an action ran at most as often as it was asked for; and once the help is
-- opened by its icon, nothing runs, however it is confirmed or closed, until an action is asked for
-- again.
pub happen_all_once :
    (action : ℕ) (events rest : List Event)
    → any asks rest ≡ false
    → (count (λ a. a == action) (happen_all events initial).ran ≤ requests_of action events)
      × ((happen_all (reopened ∷ rest) (happen_all events initial)).ran
          ≡ (happen_all events initial).ran)
unfolding happen_all happen reopen
happen_all_once action events rest quiet = (
  omega (arith, weight-happen_all action events initial),
  happen_all-idle rest (reopen (happen_all events initial)) quiet refl,
)
