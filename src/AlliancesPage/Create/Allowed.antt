-- ===== src/AlliancesPage/Create/Allowed.antt =====
-- What is asked for when an alliance is created.
use mathlib.Core.Path.{subst}
use mawster.Base.{
  Option, none, some, Bool, true, false, not, ◌&&◌, ◌||◌, ◌≡◌, refl, sym, ◌∙◌, ap, if_true,
  if_false, is_empty, or_else, if◌then◌else◌, Bool-cases, inl, inr, arith,
}
use mawster.RosterFilters.{trim}
use mawster.RosterFilters.Trimmed.{is_trimmed, trim-is_trimmed}
use mawster.AlliancesPage.{AlliancesPage}
use mawster.AlliancesPage.Create.{CreateRequest, handle_create, is_alliance_name, is_alliance_tag}

-- A name and a tag of the allowed form, and an owner.
pub record IsAllowed (request : CreateRequest) : Type 0 where
  pub name_allowed : is_alliance_name request.name ≡ true
  pub name_trimmed : is_trimmed request.name ≡ true
  pub tag_allowed : is_alliance_tag request.tag ≡ true
  pub owned : is_empty request.owner_id ≡ false

abbrev is_blank : AlliancesPage → Bool
is_blank s = is_empty (trim s.name) || is_empty (trim s.tag) || is_empty s.owner_id

-- When the handler sends something.
abbrev is_complete : AlliancesPage → Bool
is_complete s = not (is_blank s) && is_alliance_name (trim s.name) && is_alliance_tag (trim s.tag)

abbrev request_of : AlliancesPage → CreateRequest
request_of s = record { name = trim s.name; tag = trim s.tag; owner_id = s.owner_id }

abbrev first_failing :
    {A B : Type 0} → (blank named tagged : Bool) → (s s1 s2 s3 : A) → B → A × Option B
first_failing blank named tagged s s1 s2 s3 r =
    if blank
    then (s, none)
    else if not named
    then (s1, none)
    else if not tagged
    then (s2, none)
    else (s3, some r)

pick :
    {A B : Type 0} (blank named tagged : Bool) (s s1 s2 s3 : A) (r : B)
    → (first_failing blank named tagged s s1 s2 s3 r).1
      ≡ (if not blank && named && tagged then some r else none)
pick true named tagged s s1 s2 s3 r = refl
pick false false tagged s s1 s2 s3 r = refl
pick false true false s s1 s2 s3 r = refl
pick false true true s s1 s2 s3 r = refl

and_left : (a b c : Bool) → not a && b && c ≡ true → a ≡ false
and_left a b c h = ground arith

and_middle : (a b c : Bool) → not a && b && c ≡ true → b ≡ true
and_middle a b c h = ground arith

and_right : (a b c : Bool) → not a && b && c ≡ true → c ≡ true
and_right a b c h = ground arith

or_right : (a b c : Bool) → a || b || c ≡ false → c ≡ false
or_right a b c h = ground arith

none_is_no_request : (request : CreateRequest) → none ≡ some request → ⊥
none_is_no_request request e = cc

handle_create-request :
    (s : AlliancesPage)
    → (handle_create s).1 ≡ (if is_complete s then some (request_of s) else none)
unfolding handle_create
handle_create-request s =
    pick (is_blank s) (is_alliance_name (trim s.name)) (is_alliance_tag (trim s.tag)) _ _ _ _
      (request_of s)

request_of-IsAllowed : (s : AlliancesPage) → is_complete s ≡ true → IsAllowed (request_of s)
request_of-IsAllowed s complete = record {
  name_allowed = and_middle (is_blank s) (is_alliance_name (trim s.name)) _ complete;
  name_trimmed = trim-is_trimmed s.name;
  tag_allowed = and_right (is_blank s) (is_alliance_name (trim s.name)) _ complete;
  owned = or_right (is_empty (trim s.name)) (is_empty (trim s.tag)) _ (
      and_left (is_blank s) (is_alliance_name (trim s.name)) (is_alliance_tag (trim s.tag))
        complete);
}

-- A request to create an alliance has a name of 3 to 50 letters, digits and spaces that neither
-- begins nor ends with white space, a tag of 1 to 5 letters and digits, and an owner.
pub handle_create-IsAllowed :
    (s s' : AlliancesPage) (request : CreateRequest)
    → handle_create s ≡ (s', some request)
    → IsAllowed request
handle_create-IsAllowed s s' request sent =
    let asked = sym (handle_create-request s) ∙ ap (λ p. p.1) sent in
    elim (Bool-cases (is_complete s)) [
      | inl complete ↦
          subst IsAllowed (ap (λ o. or_else o (request_of s)) (sym (if_true _ _ complete) ∙ asked))
            (request_of-IsAllowed s complete)
      | inr missing ↦ absurd (none_is_no_request request (sym (if_false _ _ missing) ∙ asked))
    ]

pub handle_create-owner_id :
    (s s' : AlliancesPage) (request : CreateRequest)
    → handle_create s ≡ (s', some request)
    → is_empty s.owner_id ≡ false
handle_create-owner_id s s' request sent =
    let asked = sym (handle_create-request s) ∙ ap (λ p. p.1) sent in
    elim (Bool-cases (is_complete s)) [
      | inl complete ↦ (request_of-IsAllowed s complete).owned
      | inr missing ↦ absurd (none_is_no_request request (sym (if_false _ _ missing) ∙ asked))
    ]
