-- ===== src/Alliances.antt =====
-- front/hooks/use-alliance-selector.ts: the alliances that can be chosen, and the choice.
pub mod Merge
use mawster.Base.{
  ℕ, Text, List, [], ◌++◌, Option, none, some, Bool, true, false, not, ◌==◌, text_eq, any, filter,
  map,
}

-- The fields that tell alliances apart.
pub record Alliance : Type 0 where
  pub id : Text
  pub name : Text

pub record AllianceWithVisitorFlag : Type 0 where
  pub alliance : Alliance
  pub is_visitor : Bool

pub record AllianceSelector : Type 0 where
  pub alliances : List AllianceWithVisitorFlag
  pub selected_alliance_id : Text
  pub selected_bg : ℕ
  pub loading : Bool

abbrev use_alliance_selector : Text → ℕ → AllianceSelector
use_alliance_selector initial_alliance_id initial_bg = record {
  alliances = [];
  selected_alliance_id = initial_alliance_id;
  selected_bg = initial_bg;
  loading = true;
}

abbrev with_flag : Bool → Alliance → AllianceWithVisitorFlag
with_flag is_visitor a = record { alliance = a; is_visitor = is_visitor }

abbrev has_id : Text → Alliance → Bool
has_id id a = a.id == id

unfoldable pub merge : List Alliance → List Alliance → List AllianceWithVisitorFlag
merge member visited =
    map (with_flag false) member
    ++ map (with_flag true) (filter (λ a. not (any (has_id a.id) member)) visited)

abbrev refresh_started : AllianceSelector → AllianceSelector
refresh_started s = record s { loading = true }

-- The answers of both requests, or `none` where one of them throws, with the `finally` block.
unfoldable pub refresh_answered :
    Option (List Alliance × List Alliance) → AllianceSelector → AllianceSelector
unfolding merge
refresh_answered none s = record s { loading = false }
refresh_answered (some (member, visited)) s = record s {
  alliances = merge member visited;
  loading = false;
}
