-- ===== src/Upload.antt =====
-- `createVisionImport` of front/app/services/vision.ts: up to four workers share the counters and
-- upload the screenshots. JavaScript runs a worker without interruption up to its next `await`, so
-- a run is a sequence of moves, each of one worker up to its next request or its end. Which worker
-- moves, and whether its request succeeds, is up to the schedule.
pub mod Invariant
pub mod Failure
pub mod Progress
mod Tests
use mawster.Base.{
  ℕ, zero, suc, ◌+◌, min, Text, List, [], ◌∷◌, Option, none, some, Bool, true, false, ltb, nat_beq,
  codes, get_elem?, update_at, replicate, or_else, or_opt, if◌then◌else◌, ◌==◌, nat_eq,
}

abbrev upload_concurrency : ℕ
upload_concurrency = 4

-- Where a worker stands: at the head of its loop, waiting for a PUT or for a commit of the file at
-- an index, or returned.
pub data Phase : Type 0 where
  idle returned : Phase
  putting committing : ℕ → Phase

pub record Upload : Type 0 where
  -- `uploads.length`
  pub total : ℕ
  pub next : ℕ
  pub done : ℕ
  pub queued : ℕ
  pub first_error : Option Text
  pub workers : List Phase
  -- the files for which a PUT was sent, the last one first
  pub puts : List ℕ

unfoldable start : ℕ → Upload
start total = record {
  total = total;
  next = 0;
  done = 0;
  queued = 0;
  first_error = none;
  workers = replicate (min upload_concurrency total) idle;
  puts = [];
}

-- How a request ends.
pub data Outcome : Type 0 where
  succeeded : Outcome
  rejected : Text → Outcome

abbrev set_phase : ℕ → Phase → List Phase → List Phase
set_phase w phase workers = update_at w (λ p. phase) workers

-- The `catch` block, and the count behind it.
unfoldable fail : ℕ → Text → Upload → Upload
fail w error s = record s {
  first_error = or_opt s.first_error (some error);
  done = s.done + 1;
  workers = set_phase w idle s.workers;
}

-- The head of the loop.
unfoldable claim : ℕ → Upload → Upload
claim w s =
    if ltb s.next s.total
    then record s {
      next = s.next + 1;
      workers = set_phase w (putting s.next) s.workers;
      puts = s.next ∷ s.puts;
    }
    else record s { workers = set_phase w returned s.workers }

-- A move of the worker `w`, which stands in the given phase.
unfoldable pub move : Phase → ℕ → Outcome → Upload → Upload
unfolding fail claim
move idle w outcome s = claim w s
move returned w outcome s = s
move (putting i) w succeeded s = record s { workers = set_phase w (committing i) s.workers }
move (putting i) w (rejected error) s = fail w error s
move (committing i) w succeeded s = record s {
  queued = s.queued + 1;
  done = s.done + 1;
  workers = set_phase w idle s.workers;
}
move (committing i) w (rejected error) s = fail w error s

abbrev phase_of : Upload → ℕ → Phase
phase_of s w = or_else (get_elem? s.workers w) returned

unfoldable pub advance : ℕ × Outcome → Upload → Upload
advance (w, outcome) s = move (phase_of s w) w outcome s

unfoldable pub run : List (ℕ × Outcome) → Upload → Upload
run [] s = s
run (m ∷ moves) s = run moves (advance m s)

-- What the function does once all workers returned.
pub data Uploaded : Type 0 where
  committed : Uploaded
  -- the import is cancelled and the error thrown
  cancelled : Text → Uploaded

abbrev nothing_sent : Text
nothing_sent = codes "Aucune capture n'a pu être envoyée"

unfoldable conclude : Upload → Uploaded
conclude s = if s.queued == 0 then cancelled (or_else s.first_error nothing_sent) else committed
