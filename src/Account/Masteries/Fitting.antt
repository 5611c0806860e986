-- ===== src/Account/Masteries/Fitting.antt =====
-- The bounds of the masteries' form.
use mathlib.Core.Path.{subst}
use mawster.Base.{
  Text, Num, whole, num_lt, List, [], ◌∷◌, Option, none, some, Bool, false, ◌≡◌, refl, sym, ap, ◌∙◌,
  find, find_holds, map, opt_map, or_else, ◌==◌, text_eq, text_beq_iff, if◌then◌else◌, All, All-map,
  All-In, In-All, Bool-cases, inl, inr, arith,
}
use mawster.Account.{MasteryUpsertItem}
use mawster.Account.Masteries.{
  MasteryField, unlocked, attack, defense, num_min, is_item, set_field, max_value, update_form,
}

abbrev pub NumLe : Num → Num → Type 0
NumLe a b = num_lt b a ≡ false

num_min_le_right : (a b : Num) → NumLe (num_min a b) b
num_min_le_right a b = ground arith

num_min_le_left : (a b : Num) → NumLe (num_min a b) a
num_min_le_left a b = ground arith

le-num_min : (c a b : Num) → NumLe c a → NumLe c b → NumLe c (num_min a b)
le-num_min c a b ca cb = elim (Bool-cases (num_lt b a)) [
  | inl right ↦ rw right cb
  | inr left ↦ rw left ca
]

-- The bounds of one item.
pub record IsFitting (max : Text → Num) (item : MasteryUpsertItem) : Type 0 where
  pub attack_floor : NumLe (whole 0) item.attack
  pub attack_bound : NumLe item.attack item.unlocked
  pub defense_floor : NumLe (whole 0) item.defense
  pub defense_bound : NumLe item.defense item.unlocked
  pub unlocked_floor : NumLe (whole 0) item.unlocked
  pub unlocked_bound : NumLe item.unlocked (max item.mastery_id)

-- The first item of its mastery has the same number of points unlocked.
abbrev IsAlike : List MasteryUpsertItem → MasteryUpsertItem → Type 0
IsAlike form item =
    opt_map (λ x. x.unlocked) (find (is_item item.mastery_id) form) ≡ some item.unlocked

pub record IsForm (max : Text → Num) (form : List MasteryUpsertItem) : Type 0 where
  pub fitting : All (IsFitting max) form
  pub alike : All (IsAlike form) form

find-map :
    {A : Type 0} (p : A → Bool) (g : A → A) (xs : List A)
    → ((x : A) → p (g x) ≡ p x)
    → find p (map g xs) ≡ opt_map g (find p xs)
find-map p g [] same = refl
find-map p g (x ∷ xs) same = elim (Bool-cases (p x)) [
  | inl here ↦ rw (same x, here) refl
  | inr later ↦ rw (same x, later) (find-map p g xs same)
]

set_field-mastery_id :
    (field : MasteryField) (clamped : Num) (item : MasteryUpsertItem)
    → (set_field field clamped item).mastery_id ≡ item.mastery_id
set_field-mastery_id unlocked clamped item = refl
set_field-mastery_id attack clamped item = refl
set_field-mastery_id defense clamped item = refl

set_field-unlocked :
    (field : MasteryField) (clamped : Num) (a b : MasteryUpsertItem)
    → a.unlocked ≡ b.unlocked
    → (set_field field clamped a).unlocked ≡ (set_field field clamped b).unlocked
set_field-unlocked unlocked clamped a b same = refl
set_field-unlocked attack clamped a b same = same
set_field-unlocked defense clamped a b same = same

module _ (max : Text → Num) (max_floor : (id : Text) → NumLe (whole 0) (max id)) where
  set_field-IsFitting :
      (field : MasteryField) (value : Num) (item : MasteryUpsertItem)
      → NumLe (whole 0) value
      → IsFitting max item
      → IsFitting max
          (set_field field (num_min value (max_value field (some item) (max item.mastery_id))) item)
  set_field-IsFitting unlocked value item floor h =
      let bound = max item.mastery_id in
      let clamped_floor = le-num_min (whole 0) value bound floor (max_floor item.mastery_id) in
      let clamped = num_min value bound in
      record {
        attack_floor = le-num_min (whole 0) item.attack clamped h.attack_floor clamped_floor;
        attack_bound = num_min_le_right item.attack clamped;
        defense_floor = le-num_min (whole 0) item.defense clamped h.defense_floor clamped_floor;
        defense_bound = num_min_le_right item.defense clamped;
        unlocked_floor = clamped_floor;
        unlocked_bound = num_min_le_right value bound;
      }
  set_field-IsFitting attack value item floor h = record {
    attack_floor = le-num_min (whole 0) value item.unlocked floor h.unlocked_floor;
    attack_bound = num_min_le_right value item.unlocked;
    defense_floor = h.defense_floor;
    defense_bound = h.defense_bound;
    unlocked_floor = h.unlocked_floor;
    unlocked_bound = h.unlocked_bound;
  }
  set_field-IsFitting defense value item floor h = record {
    attack_floor = h.attack_floor;
    attack_bound = h.attack_bound;
    defense_floor = le-num_min (whole 0) value item.unlocked floor h.unlocked_floor;
    defense_bound = num_min_le_right value item.unlocked;
    unlocked_floor = h.unlocked_floor;
    unlocked_bound = h.unlocked_bound;
  }

max_value-alike :
    (field : MasteryField) (o : Option MasteryUpsertItem) (item : MasteryUpsertItem) (m : Num)
    → opt_map (λ x. x.unlocked) o ≡ some item.unlocked
    → max_value field o m ≡ max_value field (some item) m
max_value-alike unlocked o item m e = refl
max_value-alike attack o item m e = ap (λ u. or_else u (whole 0)) e
max_value-alike defense o item m e = ap (λ u. or_else u (whole 0)) e

module _ (id : Text) (f : MasteryUpsertItem → MasteryUpsertItem)
    (keeps : (item : MasteryUpsertItem) → (f item).mastery_id ≡ item.mastery_id) where
  changed : MasteryUpsertItem → MasteryUpsertItem
  changed item = if is_item id item then f item else item

  changed-mastery_id : (item : MasteryUpsertItem) → (changed item).mastery_id ≡ item.mastery_id
  unfolding changed
  changed-mastery_id item = elim (Bool-cases (is_item id item)) [
    | inl here ↦ rw here (keeps item)
    | inr elsewhere ↦ rw elsewhere refl
  ]

  module _
      (respects : (a b : MasteryUpsertItem)
        → a.unlocked ≡ b.unlocked
        → (f a).unlocked ≡ (f b).unlocked) where
    changed-unlocked :
        (a b : MasteryUpsertItem)
        → a.mastery_id ≡ b.mastery_id
        → a.unlocked ≡ b.unlocked
        → (changed a).unlocked ≡ (changed b).unlocked
    unfolding changed
    changed-unlocked a b same e = elim (Bool-cases (is_item id b)) [
      | inl here ↦ rw (ap (λ k. k == id) same ∙ here, here) (respects a b e)
      | inr elsewhere ↦ rw (ap (λ k. k == id) same ∙ elsewhere, elsewhere) e
    ]

    opt_map-changed :
        (o : Option MasteryUpsertItem) (item : MasteryUpsertItem)
        → ((x : MasteryUpsertItem) → o ≡ some x → x.mastery_id ≡ item.mastery_id)
        → opt_map (λ x. x.unlocked) o ≡ some item.unlocked
        → opt_map (λ x. x.unlocked) (opt_map changed o) ≡ some (changed item).unlocked
    opt_map-changed none item same e = absurd cc
    opt_map-changed (some first) item same e =
        ap some (changed-unlocked first item (same first refl) (ap (λ o. or_else o (whole 0)) e))

    change_item-IsAlike :
        (form : List MasteryUpsertItem) (item : MasteryUpsertItem)
        → IsAlike form item
        → IsAlike (map changed form) (changed item)
    change_item-IsAlike form item alike =
        let p = is_item item.mastery_id in
        ap (λ k. opt_map (λ x. x.unlocked) (find (is_item k) (map changed form)))
          (changed-mastery_id item)
        ∙ ap (opt_map (λ x. x.unlocked))
            (find-map p changed form (λ x. ap (λ k. k == item.mastery_id) (changed-mastery_id x)))
        ∙ opt_map-changed (find p form) item
            (λ x found. (text_beq_iff x.mastery_id item.mastery_id).0 (find_holds p form x found))
            alike

module _ (max : Text → Num) (max_floor : (id : Text) → NumLe (whole 0) (max id)) (id : Text)
    (field : MasteryField) (value : Num) (floor : NumLe (whole 0) value)
    (form : List MasteryUpsertItem) where
  clamped : Num
  clamped = num_min value (max_value field (find (is_item id) form) (max id))

  changed-IsFitting :
      (item : MasteryUpsertItem)
      → IsFitting max item
      → IsAlike form item
      → IsFitting max
          (changed id (set_field field clamped) (set_field-mastery_id field clamped) item)
  unfolding changed clamped
  changed-IsFitting item h alike = elim (Bool-cases (is_item id item)) [
    | inl here ↦
        let same = (text_beq_iff item.mastery_id id).0 here in
        let e =
          sym (
            max_value-alike field (find (is_item item.mastery_id) form) item (max item.mastery_id)
              alike)
          ∙ ap (λ k. max_value field (find (is_item k) form) (max k)) same in
        rw here (
          subst (λ m. IsFitting max (set_field field (num_min value m) item)) e
            (set_field-IsFitting max max_floor field value item floor h))
    | inr elsewhere ↦ rw elsewhere h
  ]

  pub update_form-IsForm : IsForm max form → IsForm max (update_form id field value (max id) form)
  unfolding update_form clamped changed
  update_form-IsForm h =
      let g = changed id (set_field field clamped) (set_field-mastery_id field clamped) in
      record {
        fitting = All-map (IsFitting max) g form (
            All-In (λ item. IsFitting max (g item)) form
              (λ item m.
                changed-IsFitting item (In-All (IsFitting max) item form h.fitting m)
                  (In-All (IsAlike form) item form h.alike m)));
        alike = All-map (IsAlike (map g form)) g form (
            All-In (λ item. IsAlike (map g form) (g item)) form
              (λ item m.
                change_item-IsAlike id (set_field field clamped)
                  (set_field-mastery_id field clamped) (set_field-unlocked field clamped) form item
                  (In-All (IsAlike form) item form h.alike m)));
      }
