-- ===== src/Upload/Failure.antt =====
-- The error that a batch is given up with.
use mawster.Base.{
  ℕ, ◌<◌, Text, List, [], ◌∷◌, Option, none, some, true, ltb, ◌≡◌, refl, sym, all, or_opt,
  or_opt-none, Bool-cases, ◌∙◌, ap, inl, inr,
}
use mawster.Upload.{
  Phase, idle, returned, putting, committing, Upload, start, Outcome, succeeded, rejected, move,
  advance, run, phase_of, cancelled, conclude, claim, fail,
}
use mawster.Upload.Invariant.{has_returned, conclude_first_error}

-- The error that a move meets: a request of the worker that moves was rejected.
abbrev failure_of : Phase → Outcome → Option Text
failure_of (putting i) (rejected error) = some error
failure_of (committing i) (rejected error) = some error
failure_of _ _ = none

-- The first error that a worker meets in a run.
abbrev pub first_failure : List (ℕ × Outcome) → Upload → Option Text
first_failure [] s = none
first_failure ((w, outcome) ∷ moves) s =
    or_opt (failure_of (phase_of s w) outcome) (first_failure moves (advance (w, outcome) s))

first_error-claim : (w : ℕ) (s : Upload) → (claim w s).first_error ≡ s.first_error
unfolding claim
first_error-claim w s = elim (Bool-cases (ltb s.next s.total)) [
  | inl more ↦ rw more refl
  | inr no_more ↦ rw no_more refl
]

first_error-move :
    (p : Phase) (w : ℕ) (outcome : Outcome) (s : Upload)
    → (move p w outcome s).first_error ≡ or_opt s.first_error (failure_of p outcome)
unfolding move fail
first_error-move idle w outcome s = first_error-claim w s ∙ sym (or_opt-none s.first_error)
first_error-move returned w outcome s = sym (or_opt-none s.first_error)
first_error-move (putting i) w succeeded s = sym (or_opt-none s.first_error)
first_error-move (putting i) w (rejected error) s = refl
first_error-move (committing i) w succeeded s = sym (or_opt-none s.first_error)
first_error-move (committing i) w (rejected error) s = refl

or_opt_assoc : (a b c : Option Text) → or_opt (or_opt a b) c ≡ or_opt a (or_opt b c)
or_opt_assoc none b c = refl
or_opt_assoc (some x) b c = refl

first_error-run :
    (moves : List (ℕ × Outcome)) (s : Upload)
    → (run moves s).first_error ≡ or_opt s.first_error (first_failure moves s)
unfolding run advance
first_error-run [] s = sym (or_opt-none s.first_error)
first_error-run ((w, outcome) ∷ moves) s =
    first_error-run moves (advance (w, outcome) s)
    ∙ ap (λ o. or_opt o (first_failure moves (advance (w, outcome) s)))
        (first_error-move (phase_of s w) w outcome s)
    ∙ or_opt_assoc s.first_error (failure_of (phase_of s w) outcome)
        (first_failure moves (advance (w, outcome) s))

-- Where the upload of a batch that is not empty is given up after all workers returned, no
-- screenshot was queued, and the error thrown is the one of the first request that was rejected.
pub conclude-first_failure :
    (total : ℕ) (moves : List (ℕ × Outcome)) (error : Text)
    → 0 < total
    → all has_returned (run moves (start total)).workers ≡ true
    → conclude (run moves (start total)) ≡ cancelled error
    → ((run moves (start total)).queued ≡ 0) × (first_failure moves (start total) ≡ some error)
unfolding start
conclude-first_failure total moves error pos returned_all given_up =
    let (none_queued, recorded) =
      conclude_first_error total moves error pos returned_all given_up in
    (none_queued, sym (first_error-run moves (start total)) ∙ recorded)
