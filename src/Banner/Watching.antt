-- ===== src/Banner/Watching.antt =====
-- The banner does not ask for ever.
use mawster.Base.{
  ℕ, ◌+◌, ◌-◌, ◌*◌, ◌≤◌, ◌<◌, List, [], ◌∷◌, Option, none, some, Bool, true, false, not, ◌&&◌, ◌||◌,
  leb, ◌≡◌, refl, ◌⊎◌, inl, inr, count, if◌then◌else◌, Bool-cases, arith,
}
use mawster.Banner.{
  poll_max_iterations, CurrentVisionImport, Banner, initial, is_active, poll_tick, Answer, threw,
  found, poll_answered, start_poll, effect_started, effect_answered, effect_cancelled, cancel,
  cancel_settled, retry, retry_settled, set_busy, poll_if_active, Event, ticked, polled, reloaded,
  loaded, loaded_late, cancels, cancelled, retries, retried, happen, happen_all, sent, requests,
}

-- Whether an event finds an import under way, for which an interval is set.
abbrev pub starts : Event → Bool
starts (loaded (found result)) = is_active result
starts (retried (found result)) = is_active result
starts _ = false

-- While the interval is set and no request is out, fewer than 120 requests were counted.
pub record IsBounded (s : Banner) : Type 0 where
  pub idle : (s.polling ≡ false) ⊎ (s.poll_busy ≡ true) ⊎ (s.poll_count < poll_max_iterations)
  pub count : s.poll_count ≤ poll_max_iterations

-- How many requests the interval can still send.
abbrev budget : Banner → ℕ
budget s = if s.polling then poll_max_iterations - s.poll_count else 0

-- What one event does to a bounded banner: what it sends is taken from what is left, and 120
-- requests are added where it finds an import under way.
record Pays (e : Event) (s t : Banner) : Type 0 where
  bounded : IsBounded t
  pays : sent e s + budget t ≤ budget s + (if starts e then poll_max_iterations else 0)

poll_tick-Pays : (s : Banner) → IsBounded s → Pays ticked s (poll_tick s).0
unfolding poll_tick
poll_tick-Pays s h = elim (Bool-cases (s.polling && not s.poll_busy)) [
  | inl goes ↦ rw goes (record {
    bounded = record { idle = inr (inl refl); count = ground (arith, h.idle, h.count) };
    pays = ground (arith, h.idle, h.count);
  })
  | inr stays ↦ rw stays (record { bounded = h; pays = ground arith })
]

poll_answered-Pays :
    (answer : Answer) (s : Banner) → IsBounded s → Pays (polled answer) s (poll_answered answer s)
unfolding poll_answered
poll_answered-Pays threw s h = record {
  bounded = record { idle = inl refl; count = h.count };
  pays = ground arith;
}
poll_answered-Pays (found result) s h =
    elim (Bool-cases (not (is_active result) || leb poll_max_iterations s.poll_count)) [
      | inl ends ↦
          rw ends
            (record { bounded = record { idle = inl refl; count = h.count }; pays = ground arith })
      | inr goes_on ↦ rw goes_on (record {
        bounded = record {
          idle = inr (inr (below (is_active result) s.poll_count goes_on));
          count = h.count;
        };
        pays = ground arith;
      })
    ]
  where
    below :
        (a : Bool) (n : ℕ) → (not a || leb poll_max_iterations n) ≡ false → n < poll_max_iterations
    below a n e = ground arith

poll_if_active-Pays :
    (e : Event) (result : Option CurrentVisionImport) (s : Banner)
    → starts e ≡ is_active result
    → sent e s ≡ 0
    → IsBounded s
    → Pays e s (poll_if_active result (record s { current = result }))
unfolding poll_if_active start_poll
poll_if_active-Pays e result s started quiet h = elim (Bool-cases (is_active result)) [
  | inl active ↦ rw active (record {
    bounded = record { idle = inr (inr (omega arith)); count = omega arith };
    pays = ground arith;
  })
  | inr inactive ↦
      rw inactive
        (record { bounded = record { idle = h.idle; count = h.count }; pays = ground arith })
]

-- An event that leaves the poll alone.
same_poll-Pays :
    (e : Event) (s t : Banner)
    → sent e s ≡ 0
    → t.polling ≡ s.polling
    → t.poll_busy ≡ s.poll_busy
    → t.poll_count ≡ s.poll_count
    → IsBounded s
    → Pays e s t
same_poll-Pays e s t quiet p b c h = record {
  bounded = record { idle = ground (arith, h.idle); count = omega (arith, h.count) };
  pays = ground arith;
}

set_busy-Pays :
    (e : Event) (o : Option CurrentVisionImport) (s : Banner)
    → sent e s ≡ 0
    → IsBounded s
    → Pays e s (set_busy o s)
unfolding set_busy
set_busy-Pays e none s quiet h = same_poll-Pays e s s quiet refl refl refl h
set_busy-Pays e (some import) s quiet h =
    same_poll-Pays e s (record s { busy = true }) quiet refl refl refl h

-- An event that clears the interval.
stopped-Pays :
    (e : Event) (s : Banner) (current : Option CurrentVisionImport) (busy : Bool)
    → sent e s ≡ 0
    → IsBounded s
    → Pays e s (record s { polling = false; current = current; busy = busy })
stopped-Pays e s current busy quiet h = record {
  bounded = record { idle = inl refl; count = h.count };
  pays = ground arith;
}

happen-Pays : (e : Event) (s : Banner) → IsBounded s → Pays e s (happen e s)
unfolding happen effect_started effect_answered effect_cancelled cancel cancel_settled retry
    retry_settled
happen-Pays ticked s h = poll_tick-Pays s h
happen-Pays (polled answer) s h = poll_answered-Pays answer s h
happen-Pays reloaded s h = stopped-Pays reloaded s s.current s.busy refl h
happen-Pays (loaded threw) s h = same_poll-Pays (loaded threw) s s refl refl refl refl h
happen-Pays (loaded (found result)) s h =
    poll_if_active-Pays (loaded (found result)) result s refl refl h
happen-Pays (loaded_late threw) s h = same_poll-Pays (loaded_late threw) s s refl refl refl refl h
happen-Pays (loaded_late (found result)) s h =
    same_poll-Pays (loaded_late (found result)) s (record s { current = result }) refl refl refl
      refl h
happen-Pays cancels s h = set_busy-Pays cancels s.current s refl h
happen-Pays (cancelled true) s h = stopped-Pays (cancelled true) s none false refl h
happen-Pays (cancelled false) s h =
    same_poll-Pays (cancelled false) s (record s { busy = false }) refl refl refl refl h
happen-Pays retries s h = set_busy-Pays retries s.current s refl h
happen-Pays (retried threw) s h =
    same_poll-Pays (retried threw) s (record s { busy = false }) refl refl refl refl h
happen-Pays (retried (found result)) s h =
    let paid = poll_if_active-Pays (retried (found result)) result s refl refl h in
    record {
      bounded = record { idle = paid.bounded.idle; count = paid.bounded.count };
      pays = paid.pays;
    }

requests-IsBounded :
    (events : List Event) (s : Banner)
    → IsBounded s
    → requests events s ≤ budget s + poll_max_iterations * count starts events
unfolding requests
requests-IsBounded [] s h = omega arith
requests-IsBounded (e ∷ events) s h =
    let step = happen-Pays e s h in
    ground (arith, step.pays, requests-IsBounded events (happen e s) step.bounded)

happen_all-IsBounded :
    (events : List Event) (s : Banner) → IsBounded s → IsBounded (happen_all events s)
unfolding happen_all
happen_all-IsBounded [] s h = h
happen_all-IsBounded (e ∷ events) s h =
    happen_all-IsBounded events (happen e s) (happen-Pays e s h).bounded

poll_answered-watches :
    (answer : Answer) (s : Banner)
    → ((poll_answered answer s).polling ≡ false)
      ⊎ (is_active (poll_answered answer s).current ≡ true)
unfolding poll_answered
poll_answered-watches threw s = inl refl
poll_answered-watches (found result) s =
    elim (Bool-cases (not (is_active result) || leb poll_max_iterations s.poll_count)) [
      | inl ends ↦ rw ends (inl refl)
      | inr goes_on ↦
          rw goes_on
            (inr (active (is_active result) (leb poll_max_iterations s.poll_count) goes_on))
    ]
  where
    active : (a b : Bool) → (not a || b) ≡ false → a ≡ true
    active a b e = ground arith

-- Whatever happens to the banner, in whatever order, answers that come late included: its interval
-- sends at most 120 requests for each time that a load or a retry finds an import pending or
-- running; and after each answer to one of its requests the interval is cleared, or the import
-- shown is pending or running.
pub happen_all-watches :
    (events : List Event) (answer : Answer)
    → (requests events initial ≤ 120 * count starts events)
      × (((happen (polled answer) (happen_all events initial)).polling ≡ false)
          ⊎ (is_active (happen (polled answer) (happen_all events initial)).current ≡ true))
unfolding happen
happen_all-watches events answer = (
  omega
      (arith, requests-IsBounded events initial (record { idle = inl refl; count = omega arith })),
  poll_answered-watches answer (happen_all events initial),
)
