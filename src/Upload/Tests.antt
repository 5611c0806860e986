-- ===== src/Upload/Tests.antt =====
-- An upload of two screenshots, of which the second fails.
use mawster.Base.{
  ℕ, ◌+◌, ◌*◌, ◌≤◌, min, ◌≡◌, refl, List, [], ◌∷◌, some, true, all, count, length, ◌==◌, nat_eq,
  arith, codes,
}
use mawster.Upload.{
  start, Outcome, succeeded, rejected, move, advance, run, conclude, committed, upload_concurrency,
}
use mawster.Upload.Invariant.{has_returned, run-each_once}
use mawster.Upload.Failure.{first_failure, conclude-first_failure}
use mawster.Upload.Progress.{IsLive, start-terminates}

-- Two workers claim a file each; the PUT of the second fails.
abbrev schedule : List (ℕ × Outcome)
schedule =
    (0, succeeded)
    ∷ (1, succeeded)
    ∷ (1, rejected (codes "net"))
    ∷ (0, succeeded)
    ∷ (1, succeeded)
    ∷ (0, succeeded)
    ∷ (0, succeeded)
    ∷ []

ends_committed : conclude (run schedule (start 2)) ≡ committed
unfolding conclude run advance move start
ends_committed = refl

all_returned : all has_returned (run schedule (start 2)).workers ≡ true
unfolding run advance move start
all_returned = refl

run-each_once_example :
    (count (λ j. j == 1) (run schedule (start 2)).puts ≡ 1) × ((run schedule (start 2)).done ≡ 2)
run-each_once_example = run-each_once 2 schedule 1 all_returned

-- The one worker of a single screenshot, whose commit fails.
abbrev failing : List (ℕ × Outcome)
failing = (0, succeeded) ∷ (0, succeeded) ∷ (0, rejected (codes "net")) ∷ (0, succeeded) ∷ []

conclude-first_failure_example :
    ((run failing (start 1)).queued ≡ 0) × (first_failure failing (start 1) ≡ some (codes "net"))
unfolding conclude run advance move start
conclude-first_failure_example =
    conclude-first_failure 1 failing (codes "net") (omega arith) refl refl

failing-IsLive : IsLive failing (start 1)
unfolding advance move start
failing-IsLive = (λ e. cc, (λ e. cc, (λ e. cc, (λ e. cc, tt))))

start-terminates_example : length failing ≤ 3 * 1 + min upload_concurrency 1
start-terminates_example = start-terminates 1 failing failing-IsLive
