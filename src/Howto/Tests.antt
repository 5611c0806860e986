-- ===== src/Howto/Tests.antt =====
-- The procedure at concrete inputs.
use mawster.Base.{
  ◌≤◌, List, [], ◌∷◌, none, some, true, false, ◌≡◌, refl, ◌==◌, nat_eq, count, text_beq,
}
use mawster.Howto.{
  initial, Event, requested, reopened, confirmed, sets_open, request, reopen, confirm, load_hidden,
  store_hidden, happen, happen_all,
}
use mawster.Howto.Once.{requests_of, happen_all_once}

-- Asked for, dismissed; then the help is opened and confirmed.
abbrev dismissed : List Event
dismissed = requested 7 ∷ sets_open false ∷ reopened ∷ confirmed ∷ []

nothing_ran : (happen_all dismissed initial).ran ≡ []
unfolding happen_all happen request reopen confirm
nothing_ran = refl

hidden_stays : load_hidden (store_hidden true (some none)) ≡ true
unfolding load_hidden store_hidden text_beq
hidden_stays = refl

-- An action is pending when the help is opened and confirmed.
happen_all_once_example :
    (count (λ a. a == 7) (happen_all (requested 7 ∷ []) initial).ran
      ≤ requests_of 7 (requested 7 ∷ []))
    × ((happen_all (reopened ∷ confirmed ∷ []) (happen_all (requested 7 ∷ []) initial)).ran
        ≡ (happen_all (requested 7 ∷ []) initial).ran)
happen_all_once_example = happen_all_once 7 (requested 7 ∷ []) (confirmed ∷ []) refl
