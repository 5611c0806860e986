-- ===== src/Import/Vision/Poll/Bounds.antt =====
-- The poll asks at most 120 times, and it ends.
use mawster.Base.{
  ℕ, ◌+◌, ◌≤◌, ◌<◌, Text, List, [], ◌∷◌, none, some, Bool, true, false, not, ◌&&◌, ◌≡◌, refl, ◌⊎◌,
  inl, inr, ap, ◌∙◌, arith, length, if_false,
}
use mawster.Import.Vision.Poll.{
  Vision, poll_max_iterations, poll_import, tick, Answer, done, failed, threw, other_status,
  answered, Event, ticked, answer, react, react_all, sent, requests,
}

-- While the interval is set and no request is out, fewer than 120 requests went out.
pub record IsBounded (s : Vision) : Type 0 where
  pub count : s.poll_count ≤ poll_max_iterations
  pub idle : s.polling ≡ true → s.poll_busy ≡ false → s.poll_count < poll_max_iterations

tick-IsBounded : (s : Vision) → IsBounded s → IsBounded (tick s).0
unfolding tick
tick-IsBounded s h = ground arith

answered-IsBounded :
    (id : Text) (a : Answer) (s : Vision) → IsBounded s → IsBounded (answered id a s)
unfolding answered
answered-IsBounded id (done none) s h = ground arith
answered-IsBounded id (done (some rows)) s h = ground arith
answered-IsBounded id failed s h = ground arith
answered-IsBounded id threw s h = ground arith
answered-IsBounded id other_status s h = ground arith

react-IsBounded : (id : Text) (e : Event) (s : Vision) → IsBounded s → IsBounded (react id e s)
unfolding react
react-IsBounded id ticked s h = tick-IsBounded s h
react-IsBounded id (answer a) s h = ground (arith, answered-IsBounded id a s)

poll_count-answered :
    (id : Text) (a : Answer) (s : Vision) → (answered id a s).poll_count ≡ s.poll_count
unfolding answered
poll_count-answered id (done none) s = refl
poll_count-answered id (done (some rows)) s = ground arith
poll_count-answered id failed s = refl
poll_count-answered id threw s = refl
poll_count-answered id other_status s = ground arith

-- Every request is counted.
poll_count-react :
    (id : Text) (e : Event) (s : Vision) → (react id e s).poll_count ≡ s.poll_count + sent e s
unfolding react tick
poll_count-react id ticked s = ground arith
poll_count-react id (answer a) s = ground (arith, poll_count-answered id a s)

requests-IsBounded :
    (id : Text) (events : List Event) (s : Vision)
    → IsBounded s
    → requests id events s + s.poll_count ≤ poll_max_iterations
unfolding requests
requests-IsBounded id [] s h = omega (arith, h.count)
requests-IsBounded id (e ∷ events) s h =
    let rest = requests-IsBounded id events (react id e s) (react-IsBounded id e s h) in
    omega (arith, rest, poll_count-react id e s)

poll_import-IsBounded : (s : Vision) → IsBounded (poll_import s)
unfolding poll_import
poll_import-IsBounded s = ground arith

-- Whatever ticks and answers come, in whatever order, a poll that was started sends at most 120
-- requests for the status.
pub react_all-at_most_120 :
    (id : Text) (events : List Event) (s : Vision) → requests id events (poll_import s) ≤ 120
react_all-at_most_120 id events s =
    omega (arith, requests-IsBounded id events (poll_import s) (poll_import-IsBounded s))

-- A tick and the answer to it, for each answer.
abbrev pub rounds : List Answer → List Event
rounds [] = []
rounds (a ∷ answers) = ticked ∷ answer a ∷ rounds answers

-- A poll that has ended stays as it is.
round-ended :
    (id : Text) (a : Answer) (s : Vision)
    → s.polling ≡ false
    → s.poll_busy ≡ false
    → react id (answer a) (react id ticked s) ≡ s
unfolding react tick
round-ended id a s p b =
    let quiet : (tick s).0 ≡ s =
      ap (λ (r : Vision × Bool). r.0)
        (if_false {b = s.polling && not s.poll_busy} _ (s, false) (ground arith)) in
    ap (react id (answer a)) quiet ∙ if_false _ s b

react_all-ended :
    (id : Text) (answers : List Answer) (s : Vision)
    → s.polling ≡ false
    → s.poll_busy ≡ false
    → react_all id (rounds answers) s ≡ s
unfolding react_all
react_all-ended id [] s p b = refl
react_all-ended id (a ∷ answers) s p b =
    ap (react_all id (rounds answers)) (round-ended id a s p b) ∙ react_all-ended id answers s p b

-- One round of a running poll: it ends with the upload, or one more request is counted.
abbrev Advances : ℕ → Vision → Type 0
Advances n t =
    (t.poll_busy ≡ false)
    × (((t.polling ≡ false) × (t.uploading ≡ false))
        ⊎ ((t.polling ≡ true) × (t.poll_count ≡ n + 1) × (n + 1 < poll_max_iterations)))

round-Advances :
    (id : Text) (a : Answer) (s : Vision)
    → s.polling ≡ true
    → s.poll_busy ≡ false
    → Advances s.poll_count (react id (answer a) (react id ticked s))
unfolding react
round-Advances id (done none) s p b = ground arith
round-Advances id (done (some rows)) s p b = ground arith
round-Advances id failed s p b = ground arith
round-Advances id threw s p b = ground arith
round-Advances id other_status s p b = ground arith

react_all-ends :
    (id : Text) (answers : List Answer) (s : Vision)
    → s.polling ≡ true
    → s.poll_busy ≡ false
    → poll_max_iterations ≤ s.poll_count + length answers
    → s.poll_count < poll_max_iterations
    → ((react_all id (rounds answers) s).polling ≡ false)
      × ((react_all id (rounds answers) s).uploading ≡ false)
unfolding react_all
react_all-ends id [] s p b enough below = absurd (omega arith)
react_all-ends id (a ∷ answers) s p b enough below =
    go (round-Advances id a s p b)
      (react_all-ends id answers (react id (answer a) (react id ticked s)))
  where
    t : Vision
    t = react id (answer a) (react id ticked s)

    Ended : Type 0
    Ended =
        ((react_all id (rounds answers) t).polling ≡ false)
        × ((react_all id (rounds answers) t).uploading ≡ false)

    go :
        Advances s.poll_count t
        → (t.polling ≡ true
            → t.poll_busy ≡ false
            → poll_max_iterations ≤ t.poll_count + length answers
            → t.poll_count < poll_max_iterations
            → Ended)
        → Ended
    go (idle, inl (ended, quiet)) rest = rw (react_all-ended id answers t ended idle) (ended, quiet)
    go (idle, inr (running, counted, under)) rest = rest running idle (omega arith) (omega arith)

-- A poll whose requests are all answered ends: after 120 rounds of a tick and its answer, whatever
-- the answers are, the interval is cleared and the screen no longer says that it is uploading.
pub react_all-rounds_end :
    (id : Text) (answers : List Answer) (s : Vision)
    → 120 ≤ length answers
    → ((react_all id (rounds answers) (poll_import s)).polling ≡ false)
      × ((react_all id (rounds answers) (poll_import s)).uploading ≡ false)
unfolding poll_import
react_all-rounds_end id answers s enough =
    react_all-ends id answers (poll_import s) refl refl (omega arith) (omega arith)
