-- ===== src/Howto.antt =====
-- front/components/use-vision-import-howto.ts: the procedure that is shown before screenshots are
-- picked. An action that is to follow is a number; the actions that ran are part of the state.
pub mod Once
mod Tests
use mawster.Base.{
  ℕ, Text, List, [], ◌∷◌, Option, none, some, Bool, true, false, ◌==◌, text_eq, codes,
  if◌then◌else◌,
}

pub record Howto : Type 0 where
  pub is_open : Bool
  pub dont_show : Bool
  pub proceed : Option ℕ
  -- the last one first
  pub ran : List ℕ

abbrev pub initial : Howto
initial = record { is_open = false; dont_show = false; proceed = none; ran = [] }

-- The item at STORAGE_KEY; the outer `none` is a storage that cannot be used.
abbrev Storage : Type 0
Storage = Option (Option Text)

unfoldable pub load_hidden : Storage → Bool
load_hidden none = false
load_hidden (some none) = false
load_hidden (some (some item)) = item == codes "1"

unfoldable store_hidden : Bool → Storage → Storage
store_hidden hidden none = none
store_hidden true (some item) = some (some (codes "1"))
store_hidden false (some item) = some none

abbrev mounted : Storage → Howto → Howto
mounted storage s = record s { dont_show = load_hidden storage }

abbrev set_dont_show : Bool → Howto → Howto
set_dont_show value s = record s { dont_show = value }

abbrev set_open : Bool → Howto → Howto
set_open value s = record s { is_open = value }

unfoldable pub request : ℕ → Howto → Howto
request on_proceed s =
    if s.dont_show
    then record s { ran = on_proceed ∷ s.ran }
    else record s { proceed = some on_proceed; is_open = true }

unfoldable pub reopen : Howto → Howto
reopen s = record s { proceed = none; is_open = true }

abbrev run_pending : Option ℕ → List ℕ → List ℕ
run_pending none ran = ran
run_pending (some action) ran = action ∷ ran

unfoldable pub confirm : Howto → Howto
confirm s = record s { is_open = false; proceed = none; ran = run_pending s.proceed s.ran }

pub data Event : Type 0 where
  requested : ℕ → Event
  reopened confirmed : Event
  mounts : Storage → Event
  sets_dont_show sets_open : Bool → Event

unfoldable pub happen : Event → Howto → Howto
happen (requested action) s = request action s
happen reopened s = reopen s
happen confirmed s = confirm s
happen (mounts storage) s = mounted storage s
happen (sets_dont_show value) s = set_dont_show value s
happen (sets_open value) s = set_open value s

unfoldable pub happen_all : List Event → Howto → Howto
happen_all [] s = s
happen_all (e ∷ events) s = happen_all events (happen e s)
