-- ===== src/Banner/Tests.antt =====
-- The banner at concrete inputs.
use mawster.Base.{
  ◌*◌, ◌≤◌, List, [], ◌∷◌, some, true, false, ◌≡◌, refl, ◌⊎◌, count, codes, text_beq,
}
use mawster.Banner.{
  CurrentVisionImport, initial, is_active, poll_tick, poll_answered, effect_answered,
  effect_cancelled, poll_if_active, start_poll, clear_poll, found, ticked, polled, loaded,
  loaded_late, Event, happen, happen_all, requests,
}
use mawster.Banner.Watching.{starts, happen_all-watches}

abbrev running : CurrentVisionImport
running = record { id = codes "i"; status = codes "running" }

abbrev done : CurrentVisionImport
done = record { id = codes "j"; status = codes "done" }

abbrev events : List Event
events =
    loaded (found (some running)) ∷ ticked ∷ ticked ∷ polled (found (some running)) ∷ ticked ∷ []

two_sent : requests events initial ≡ 2
unfolding requests happen poll_tick poll_answered effect_answered poll_if_active start_poll
    clear_poll text_beq
two_sent = refl

done_stops :
    (happen_all (polled (found (some done)) ∷ []) (happen_all events initial)).polling ≡ false
unfolding happen_all happen poll_tick poll_answered effect_answered poll_if_active start_poll
    clear_poll text_beq
done_stops = refl

-- The import of an account that was left is shown when its answer comes late.
late_shown :
    (happen_all (loaded_late (found (some done)) ∷ []) (happen_all events initial)).current
    ≡ some done
unfolding happen_all happen effect_cancelled
late_shown = refl

happen_all-watches_example :
    (requests events initial ≤ 120 * count starts events)
    × (((happen (polled (found (some done))) (happen_all events initial)).polling ≡ false)
        ⊎ (is_active (happen (polled (found (some done))) (happen_all events initial)).current
            ≡ true))
happen_all-watches_example = happen_all-watches events (found (some done))
