-- ===== src/Banner.antt =====
-- front/app/game/account/_components/use-vision-import-banner.ts: the banner of the import that
-- awaits attention. A handler that waits for the server is a function of the answer and of the
-- state that it finds; refs are fields of the state.
pub mod Watching
mod Tests
use mawster.Base.{
  ℕ, ◌+◌, Text, List, [], ◌∷◌, Option, none, some, Bool, true, false, not, ◌&&◌, ◌||◌, leb, ◌==◌,
  text_eq, codes, if◌then◌else◌,
}

abbrev pub poll_max_iterations : ℕ
poll_max_iterations = 120

pub record CurrentVisionImport : Type 0 where
  pub id : Text
  pub status : Text

pub record Banner : Type 0 where
  pub current : Option CurrentVisionImport
  pub busy : Bool
  -- the interval is set
  pub polling : Bool
  pub poll_count : ℕ
  pub poll_busy : Bool

abbrev pub initial : Banner
initial = record {
  current = none;
  busy = false;
  polling = false;
  poll_count = 0;
  poll_busy = false;
}

-- `result != null && VISION_BANNER_ACTIVE_STATUSES.has(result.status)`
abbrev is_active : Option CurrentVisionImport → Bool
is_active none = false
is_active (some result) = result.status == codes "pending" || result.status == codes "running"

unfoldable pub clear_poll : Banner → Banner
clear_poll s = record s { polling = false }

unfoldable start_poll : Banner → Banner
unfolding clear_poll
start_poll s = record (clear_poll s) { poll_count = 0; poll_busy = false; polling = true }

-- A tick of the interval: the state, and whether `load` asks the server.
unfoldable pub poll_tick : Banner → Banner × Bool
poll_tick s =
    if s.polling && not s.poll_busy
    then (record s { poll_busy = true; poll_count = s.poll_count + 1 }, true)
    else (s, false)

-- What `getCurrentVisionImport` brings: it throws, or there is an import or none.
pub data Answer : Type 0 where
  threw : Answer
  found : Option CurrentVisionImport → Answer

-- The answer to a tick's request, with the `finally` block.
unfoldable poll_answered : Answer → Banner → Banner
unfolding clear_poll
poll_answered threw s = record (clear_poll s) { poll_busy = false }
poll_answered (found result) s =
    if not (is_active result) || leb poll_max_iterations s.poll_count
    then record (clear_poll s) { current = result; poll_busy = false }
    else record s { current = result; poll_busy = false }

unfoldable poll_if_active : Option CurrentVisionImport → Banner → Banner
unfolding start_poll
poll_if_active result s = let polled = start_poll s in if is_active result then polled else s

-- The effect, run on mount and for another account or signal, up to its request.
unfoldable effect_started : Banner → Banner
unfolding clear_poll
effect_started s = clear_poll s

-- Its answer, where no later run of the effect has cancelled it.
unfoldable effect_answered : Answer → Banner → Banner
unfolding poll_if_active
effect_answered threw s = s
effect_answered (found result) s = poll_if_active result (record s { current = result })

-- Its answer, where a later run has: `load` has set the import by then.
unfoldable effect_cancelled : Answer → Banner → Banner
effect_cancelled threw s = s
effect_cancelled (found result) s = record s { current = result }

-- `cancel` and `retry`, up to their requests; nothing without a current import.
unfoldable set_busy : Option CurrentVisionImport → Banner → Banner
set_busy none s = s
set_busy (some import) s = record s { busy = true }

unfoldable cancel : Banner → Banner
unfolding set_busy
cancel s = set_busy s.current s

-- Whether the server cancels.
unfoldable cancel_settled : Bool → Banner → Banner
unfolding clear_poll
cancel_settled true s = record (clear_poll s) { current = none; busy = false }
cancel_settled false s = record s { busy = false }

unfoldable retry : Banner → Banner
unfolding set_busy
retry s = set_busy s.current s

-- What `load` brings at the end of a retry: `threw` also where the import cannot be read or a job
-- cannot be retried.
unfoldable retry_settled : Answer → Banner → Banner
unfolding poll_if_active
retry_settled threw s = record s { busy = false }
retry_settled (found result) s = record (poll_if_active result (record s { current = result })) {
  busy = false;
}

pub data Event : Type 0 where
  ticked : Event
  polled : Answer → Event
  -- the effect runs, or its cleanup does when the page is left
  reloaded : Event
  loaded loaded_late : Answer → Event
  cancels : Event
  cancelled : Bool → Event
  retries : Event
  retried : Answer → Event

-- An answer may be that to a request of an earlier interval, import or account: no event is left
-- out, whatever the state is when it comes.
unfoldable pub happen : Event → Banner → Banner
unfolding poll_tick poll_answered effect_started effect_answered effect_cancelled cancel
    cancel_settled retry retry_settled
happen ticked s = (poll_tick s).0
happen (polled answer) s = poll_answered answer s
happen reloaded s = effect_started s
happen (loaded answer) s = effect_answered answer s
happen (loaded_late answer) s = effect_cancelled answer s
happen cancels s = cancel s
happen (cancelled succeeded) s = cancel_settled succeeded s
happen retries s = retry s
happen (retried answer) s = retry_settled answer s

unfoldable pub happen_all : List Event → Banner → Banner
happen_all [] s = s
happen_all (e ∷ events) s = happen_all events (happen e s)

-- The requests of the interval that a run sends, whatever poll they are of.
abbrev sent : Event → Banner → ℕ
sent ticked s = if (poll_tick s).1 then 1 else 0
sent _ s = 0

unfoldable pub requests : List Event → Banner → ℕ
requests [] s = 0
requests (e ∷ events) s = sent e s + requests events (happen e s)
