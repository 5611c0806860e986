-- ===== src/Account/Masteries/Edits.antt =====
-- A run of changes of the masteries' form.
use mawster.Base.{Text, Num, whole, num_lt, List, [], ◌∷◌, Bool-cases, inl, inr}
use mawster.Account.{RosterPage}
use mawster.Account.Masteries.{MasteryField, update_mastery_field}
use mawster.Account.Masteries.Fitting.{NumLe, IsForm, update_form-IsForm}

-- A change of one field, as the page makes it: with the bound of the mastery.
pub record Edit : Type 0 where
  pub mastery_id : Text
  pub field : MasteryField
  pub value : Num

unfoldable pub edit_all : (max : Text → Num) → List Edit → RosterPage → RosterPage
edit_all max [] s = s
edit_all max (e ∷ edits) s =
    edit_all max edits (update_mastery_field e.mastery_id e.field e.value (max e.mastery_id) s)

update_mastery_field-IsForm :
    (max : Text → Num) (e : Edit) (s : RosterPage)
    → ((id : Text) → NumLe (whole 0) (max id))
    → IsForm max s.mastery_form
    → IsForm max
        (update_mastery_field e.mastery_id e.field e.value (max e.mastery_id) s).mastery_form
unfolding update_mastery_field
update_mastery_field-IsForm max e s max_floor h = elim (Bool-cases (num_lt e.value (whole 0))) [
  | inl negative ↦ rw negative h
  | inr floor ↦
      rw floor
        (update_form-IsForm max max_floor e.mastery_id e.field e.value floor s.mastery_form h)
]

-- Whatever is typed into the form, in whatever order: on each mastery, attack and defense stay at
-- or above 0 and within what is unlocked of it, and that within its bound. The form starts that
-- way, no bound is negative, and a field of a mastery is changed with that mastery's bound.
pub edit_all-IsForm :
    (max : Text → Num) (edits : List Edit) (s : RosterPage)
    → ((id : Text) → NumLe (whole 0) (max id))
    → IsForm max s.mastery_form
    → IsForm max (edit_all max edits s).mastery_form
unfolding edit_all
edit_all-IsForm max [] s max_floor h = h
edit_all-IsForm max (e ∷ edits) s max_floor h =
    edit_all-IsForm max edits _ max_floor (update_mastery_field-IsForm max e s max_floor h)
