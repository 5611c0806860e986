-- ===== src/Upload/Progress.antt =====
-- The upload ends: each move of a worker that has not returned lowers a measure.
use mawster.Base.{
  ℕ, zero, suc, ◌+◌, ◌-◌, ◌*◌, ◌≤◌, ◌<◌, min, List, [], ◌∷◌, some, ltb, arith, ◌≡◌, ◌≢◌, refl,
  length, get_elem?, update_at, replicate, Bool-cases, Option-cases, inl, inr,
}
use mawster.Upload.{
  Phase, idle, returned, putting, committing, Upload, start, Outcome, succeeded, rejected, claim,
  move, advance, run, phase_of, upload_concurrency,
}

-- The moves a worker can still make for the file it holds, its return included.
abbrev weight : Phase → ℕ
weight returned = 0
weight idle = 1
weight (committing i) = 2
weight (putting i) = 3

abbrev weights : List Phase → ℕ
weights [] = 0
weights (p ∷ ps) = weight p + weights ps

weights-update_at :
    (ps : List Phase) (w : ℕ) (old new : Phase)
    → get_elem? ps w ≡ some old
    → weights (update_at w (λ p. new) ps) + weight old ≡ weights ps + weight new
weights-update_at [] w old new h = absurd (ground arith)
weights-update_at (p ∷ ps) zero old new h = ground arith
weights-update_at (p ∷ ps) (suc w) old new h = ground (arith, weights-update_at ps w old new h)

-- A file that no worker has claimed takes three moves at most.
abbrev measure : Upload → ℕ
measure s = 3 * (s.total - s.next) + weights s.workers

module _ (s : Upload) (w : ℕ) where
  claim-measure : get_elem? s.workers w ≡ some idle → measure (claim w s) < measure s
  unfolding claim
  claim-measure at_w = elim (Bool-cases (ltb s.next s.total)) [
    | inl room ↦ rw room (ground (arith, weights-update_at s.workers w idle (putting s.next) at_w))
    | inr full ↦ rw full (ground (arith, weights-update_at s.workers w idle returned at_w))
  ]

  move-measure :
      (phase : Phase) (outcome : Outcome)
      → get_elem? s.workers w ≡ some phase
      → phase ≢ returned
      → measure (move phase w outcome s) < measure s
  unfolding move
  move-measure idle outcome at_w n = claim-measure at_w
  move-measure returned outcome at_w n = absurd (n refl)
  move-measure (putting i) succeeded at_w n =
      omega (arith, weights-update_at s.workers w (putting i) (committing i) at_w)
  move-measure (putting i) (rejected e) at_w n =
      omega (arith, weights-update_at s.workers w (putting i) idle at_w)
  move-measure (committing i) succeeded at_w n =
      omega (arith, weights-update_at s.workers w (committing i) idle at_w)
  move-measure (committing i) (rejected e) at_w n =
      omega (arith, weights-update_at s.workers w (committing i) idle at_w)

advance-measure :
    (w : ℕ) (outcome : Outcome) (s : Upload)
    → phase_of s w ≢ returned
    → measure (advance (w, outcome) s) < measure s
unfolding advance
advance-measure w outcome s n = elim (Option-cases (get_elem? s.workers w)) [
  | inl nobody ↦ absurd (n (rw nobody))
  | inr (phase, at_w) ↦ rw at_w (move-measure s w phase outcome at_w (λ e. n (rw at_w e)))
]

-- A schedule moves only workers that have not returned.
abbrev pub IsLive : List (ℕ × Outcome) → Upload → Type 0
IsLive [] s = Unit
IsLive ((w, outcome) ∷ moves) s = (phase_of s w ≢ returned) × IsLive moves (advance (w, outcome) s)

length-run :
    (moves : List (ℕ × Outcome)) (s : Upload)
    → IsLive moves s
    → length moves + measure (run moves s) ≤ measure s
unfolding run
length-run [] s live = omega arith
length-run ((w, outcome) ∷ moves) s (n, live) =
    omega (arith, advance-measure w outcome s n, length-run moves (advance (w, outcome) s) live)

weights-replicate_idle : (n : ℕ) → weights (replicate n idle) ≡ n
weights-replicate_idle zero = refl
weights-replicate_idle (suc n) = omega (arith, weights-replicate_idle n)

start-measure : (total : ℕ) → measure (start total) ≡ 3 * total + min upload_concurrency total
unfolding start
start-measure total = omega (arith, weights-replicate_idle (min upload_concurrency total))

-- The upload of `total` screenshots ends: a schedule that only moves workers that have not
-- returned makes at most three moves for each screenshot and one for each worker, whatever the
-- requests bring.
pub start-terminates :
    (total : ℕ) (moves : List (ℕ × Outcome))
    → IsLive moves (start total)
    → length moves ≤ 3 * total + min upload_concurrency total
start-terminates total moves live =
    omega (arith, length-run moves (start total) live, start-measure total)
