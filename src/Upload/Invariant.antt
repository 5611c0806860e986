-- ===== src/Upload/Invariant.antt =====
-- Each screenshot is sent once, and what the counters say at the end.
use mawster.Base.{
  ℕ, zero, suc, ◌+◌, ◌≤◌, ◌<◌, min, Text, List, [], ◌∷◌, none, some, Bool, true, false, ltb, arith,
  ◌≡◌, refl, count, all, length, get_elem?, update_at, replicate, if◌then◌else◌, ◌==◌, nat_eq,
  Option-cases, Bool-cases, ap, ◌∙◌, inl, inr,
}
use mawster.Upload.{
  Phase, idle, returned, putting, committing, Upload, start, Outcome, succeeded, rejected, move,
  advance, run, phase_of, cancelled, conclude, upload_concurrency, claim, fail,
}

abbrev is_busy : Phase → Bool
is_busy idle = false
is_busy returned = false
is_busy (putting i) = true
is_busy (committing i) = true

abbrev pub has_returned : Phase → Bool
has_returned returned = true
has_returned _ = false

abbrev to_ℕ : Bool → ℕ
to_ℕ true = 1
to_ℕ false = 0

-- A count changes with one element as that element's test does.
count-update_at {ℓ} :
    {A : Type ℓ} (p : A → Bool) (xs : List A) (i : ℕ) (x y : A)
    → get_elem? xs i ≡ some x
    → count p (update_at i (λ z. y) xs) + to_ℕ (p x) ≡ count p xs + to_ℕ (p y)
count-update_at p [] i x y h = absurd (ground arith)
count-update_at p (z ∷ xs) zero x y h = ground arith
count-update_at p (z ∷ xs) (suc i) x y h = ground (arith, count-update_at p xs i x y h)

pub record Inv (s : Upload) : Type 0 where
  pub once : (i : ℕ) → count (λ j. j == i) s.puts ≡ (if ltb i s.next then 1 else 0)
  pub balance : s.done + count is_busy s.workers ≡ s.next
  pub bound : s.next ≤ s.total
  pub queued_le : s.queued ≤ s.done
  pub no_error : s.first_error ≡ none → s.queued ≡ s.done
  pub exhausted : 0 < count has_returned s.workers → s.next ≡ s.total

module _ (s : Upload) (w : ℕ) (h : Inv s) where
  claim-Inv : get_elem? s.workers w ≡ some idle → Inv (claim w s)
  unfolding claim
  claim-Inv at_w = elim (Bool-cases (ltb s.next s.total)) [
    | inl room ↦ rw room (record {
      once = λ i. ground (arith, h.once i);
      balance =
          ground (arith, count-update_at is_busy s.workers w idle (putting s.next) at_w, h.balance);
      bound = ground arith;
      queued_le = h.queued_le;
      no_error = h.no_error;
      exhausted =
          ground (
            arith,
            count-update_at has_returned s.workers w idle (putting s.next) at_w,
            h.exhausted,
          );
    })
    | inr full ↦ rw full (record {
      once = h.once;
      balance = ground (arith, count-update_at is_busy s.workers w idle returned at_w, h.balance);
      bound = h.bound;
      queued_le = h.queued_le;
      no_error = h.no_error;
      exhausted = λ some_returned. ground (arith, h.bound);
    })
  ]

  fail-Inv :
      (phase : Phase) (error : Text)
      → get_elem? s.workers w ≡ some phase
      → is_busy phase ≡ true
      → Inv (fail w error s)
  unfolding fail
  fail-Inv phase error at_w busy = record {
    once = h.once;
    balance = ground (arith, count-update_at is_busy s.workers w phase idle at_w, h.balance);
    bound = h.bound;
    queued_le = omega (arith, h.queued_le);
    no_error = ground arith;
    exhausted =
        ground (arith, count-update_at has_returned s.workers w phase idle at_w, h.exhausted);
  }

  move-Inv :
      (phase : Phase) (outcome : Outcome)
      → get_elem? s.workers w ≡ some phase
      → Inv (move phase w outcome s)
  unfolding move
  move-Inv idle outcome at_w = claim-Inv at_w
  move-Inv returned outcome at_w = h
  move-Inv (putting i) (rejected error) at_w = fail-Inv (putting i) error at_w refl
  move-Inv (committing i) (rejected error) at_w = fail-Inv (committing i) error at_w refl
  move-Inv (putting i) succeeded at_w = record {
    once = h.once;
    balance =
        ground
          (arith, count-update_at is_busy s.workers w (putting i) (committing i) at_w, h.balance);
    bound = h.bound;
    queued_le = h.queued_le;
    no_error = h.no_error;
    exhausted = ground (
      arith,
      count-update_at has_returned s.workers w (putting i) (committing i) at_w,
      h.exhausted,
    );
  }
  move-Inv (committing i) succeeded at_w = record {
    once = h.once;
    balance =
        ground (arith, count-update_at is_busy s.workers w (committing i) idle at_w, h.balance);
    bound = h.bound;
    queued_le = omega (arith, h.queued_le);
    no_error = ground (arith, h.no_error);
    exhausted =
        ground
          (arith, count-update_at has_returned s.workers w (committing i) idle at_w, h.exhausted);
  }

advance-Inv : (m : ℕ × Outcome) (s : Upload) → Inv s → Inv (advance m s)
unfolding advance
advance-Inv (w, outcome) s h = elim (Option-cases (get_elem? s.workers w)) [
  | inl nobody ↦ rw nobody (unfold move in h)
  | inr (phase, at_w) ↦ rw at_w (move-Inv s w h phase outcome at_w)
]

run-Inv : (moves : List (ℕ × Outcome)) (s : Upload) → Inv s → Inv (run moves s)
unfolding run
run-Inv [] s h = h
run-Inv (m ∷ moves) s h = run-Inv moves (advance m s) (advance-Inv m s h)

count-replicate_idle : (p : Phase → Bool) (n : ℕ) → p idle ≡ false → count p (replicate n idle) ≡ 0
count-replicate_idle p zero h = refl
count-replicate_idle p (suc n) h = ground (arith, count-replicate_idle p n h)

start-Inv : (total : ℕ) → Inv (start total)
unfolding start
start-Inv total = record {
  once = λ i. ground arith;
  balance = omega (arith, count-replicate_idle is_busy (min upload_concurrency total) refl);
  bound = omega arith;
  queued_le = omega arith;
  no_error = λ e. refl;
  exhausted = λ some_returned.
      absurd (omega (arith, count-replicate_idle has_returned (min upload_concurrency total) refl));
}

-- `total` is set once, and the number of workers never changes.
length-update_at {ℓ} :
    {A : Type ℓ} (i : ℕ) (f : A → A) (xs : List A) → length (update_at i f xs) ≡ length xs
length-update_at i f [] = refl
length-update_at zero f (x ∷ xs) = refl
length-update_at (suc i) f (x ∷ xs) = ap suc (length-update_at i f xs)

abbrev IsSized : ℕ → ℕ → Upload → Type 0
IsSized total n s = (s.total ≡ total) × (length s.workers ≡ n)

move-IsSized :
    (total n : ℕ) (phase : Phase) (w : ℕ) (outcome : Outcome) (s : Upload)
    → IsSized total n s
    → IsSized total n (move phase w outcome s)
unfolding move
move-IsSized total n idle w outcome s (t, l) = elim (Bool-cases (ltb s.next s.total)) [
  | inl room ↦ rw (claim, room) (t, length-update_at w _ s.workers ∙ l)
  | inr full ↦ rw (claim, full) (t, length-update_at w _ s.workers ∙ l)
]
move-IsSized total n returned w outcome s h = h
move-IsSized total n (putting i) w succeeded s (t, l) = (t, length-update_at w _ s.workers ∙ l)
move-IsSized total n (putting i) w (rejected e) s (t, l) = (t, length-update_at w _ s.workers ∙ l)
move-IsSized total n (committing i) w succeeded s (t, l) = (t, length-update_at w _ s.workers ∙ l)
move-IsSized total n (committing i) w (rejected e) s (t, l) =
    (t, length-update_at w _ s.workers ∙ l)

run-IsSized :
    (total n : ℕ) (moves : List (ℕ × Outcome)) (s : Upload)
    → IsSized total n s
    → IsSized total n (run moves s)
unfolding run advance
run-IsSized total n [] s h = h
run-IsSized total n ((w, o) ∷ moves) s h =
    run-IsSized total n moves (advance (w, o) s) (move-IsSized total n (phase_of s w) w o s h)

count-all {ℓ} : {A : Type ℓ} (p : A → Bool) (xs : List A) → all p xs ≡ true → count p xs ≡ length xs
count-all p [] h = refl
count-all p (x ∷ xs) h = ground (arith, count-all p xs)

count-is_busy-all : (ws : List Phase) → all has_returned ws ≡ true → count is_busy ws ≡ 0
count-is_busy-all [] h = refl
count-is_busy-all (returned ∷ ws) h = count-is_busy-all ws h
count-is_busy-all (idle ∷ ws) h = cc
count-is_busy-all (putting i ∷ ws) h = cc
count-is_busy-all (committing i ∷ ws) h = cc

length-replicate_idle : (n : ℕ) → length (replicate n idle) ≡ n
length-replicate_idle zero = refl
length-replicate_idle (suc n) = ap suc (length-replicate_idle n)

-- Once all workers returned, every file was dealt with.
next-eq-total :
    (s : Upload) (total : ℕ)
    → Inv s
    → IsSized total (min upload_concurrency total) s
    → all has_returned s.workers ≡ true
    → (s.next ≡ total) × (s.done ≡ total)
next-eq-total s zero h (t, l) returned_all =
    let b = count-is_busy-all s.workers returned_all in
    (omega (arith, h.bound), omega (arith, h.bound, h.balance))
next-eq-total s (suc k) h (t, l) returned_all =
    let b = count-is_busy-all s.workers returned_all in
    let some_returned : 0 < count has_returned s.workers =
      omega (arith, count-all has_returned s.workers returned_all) in
    let e = h.exhausted some_returned in (omega arith, omega (arith, h.balance))

conclude_cancelled :
    (s : Upload) (error : Text)
    → Inv s
    → 0 < s.done
    → conclude s ≡ cancelled error
    → (s.queued ≡ 0) × (s.first_error ≡ some error)
unfolding conclude
conclude_cancelled s error h pos given_up = elim (Option-cases s.first_error) [
  | inl nothing_failed ↦ absurd (ground (arith, h.no_error nothing_failed))
  | inr (e, failed) ↦ ground arith
]

module _ (total : ℕ) (moves : List (ℕ × Outcome)) where
  start-run-IsSized : IsSized total (min upload_concurrency total) (run moves (start total))
  start-run-IsSized =
      run-IsSized total (min upload_concurrency total) moves (start total)
        (unfold start in (refl, length-replicate_idle (min upload_concurrency total)))

  start-run-Inv : Inv (run moves (start total))
  start-run-Inv = run-Inv moves (start total) (start-Inv total)

  -- Whatever the schedule and the outcomes of the requests: once all workers returned, a PUT was
  -- sent exactly once for each screenshot and for nothing else, and all of them are done.
  pub run-each_once :
      (i : ℕ)
      → all has_returned (run moves (start total)).workers ≡ true
      → (count (λ j. j == i) (run moves (start total)).puts ≡ (if ltb i total then 1 else 0))
        × ((run moves (start total)).done ≡ total)
  run-each_once i returned_all =
      let (next, done) =
        next-eq-total (run moves (start total)) total start-run-Inv start-run-IsSized
          returned_all in
      (start-run-Inv.once i ∙ ap (λ n. if ltb i n then 1 else 0) next, done)

  -- Where the upload of a batch that is not empty is given up after all workers returned, no
  -- screenshot was queued, and the error thrown is the recorded one.
  pub conclude_first_error :
      (error : Text)
      → 0 < total
      → all has_returned (run moves (start total)).workers ≡ true
      → conclude (run moves (start total)) ≡ cancelled error
      → ((run moves (start total)).queued ≡ 0)
        × ((run moves (start total)).first_error ≡ some error)
  conclude_first_error error pos returned_all given_up =
      let (next, done) =
        next-eq-total (run moves (start total)) total start-run-Inv start-run-IsSized
          returned_all in
      conclude_cancelled (run moves (start total)) error start-run-Inv (omega arith) given_up
