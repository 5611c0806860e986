-- ===== src/Account/Masteries.antt =====
-- The form of the masteries: `updateMasteryField`.
pub mod Fitting
pub mod Edits
use mawster.Base.{
  Text, Num, Bool, whole, num_lt, List, [], ◌∷◌, Option, none, some, find, map, opt_map, or_else,
  ◌==◌, text_eq, if◌then◌else◌,
}
use mawster.Account.{MasteryUpsertItem, RosterPage}

pub data MasteryField : Type 0 where
  unlocked attack defense : MasteryField

-- `Math.min` on two finite numbers.
abbrev num_min : Num → Num → Num
num_min a b = if num_lt b a then b else a

abbrev is_item : Text → MasteryUpsertItem → Bool
is_item id item = item.mastery_id == id

abbrev set_unlocked : Num → MasteryUpsertItem → MasteryUpsertItem
set_unlocked clamped item = record item {
  unlocked = clamped;
  attack = num_min item.attack clamped;
  defense = num_min item.defense clamped;
}

-- The item of the mastery with the new value.
abbrev set_field : MasteryField → Num → MasteryUpsertItem → MasteryUpsertItem
set_field unlocked clamped item = set_unlocked clamped item
set_field attack clamped item = record item { attack = clamped }
set_field defense clamped item = record item { defense = clamped }

-- The bound of a field: the mastery's own, or what is unlocked of it.
abbrev max_value : MasteryField → Option MasteryUpsertItem → Num → Num
max_value unlocked current mastery_max_value = mastery_max_value
max_value _ current mastery_max_value = or_else (opt_map (λ item. item.unlocked) current) (whole 0)

abbrev change_item :
    Text → (MasteryUpsertItem → MasteryUpsertItem) → List MasteryUpsertItem → List MasteryUpsertItem
change_item id f form = map (λ item. if is_item id item then f item else item) form

unfoldable update_form :
    Text → MasteryField → Num → Num → List MasteryUpsertItem → List MasteryUpsertItem
update_form id field value mastery_max_value form =
    let clamped = num_min value (max_value field (find (is_item id) form) mastery_max_value) in
    change_item id (set_field field clamped) form

unfoldable update_mastery_field : Text → MasteryField → Num → Num → RosterPage → RosterPage
unfolding update_form
update_mastery_field id field value mastery_max_value s =
    if num_lt value (whole 0)
    then s
    else record s { mastery_form = update_form id field value mastery_max_value s.mastery_form }
