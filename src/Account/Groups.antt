-- ===== src/Account/Groups.antt =====
-- The roster as the page shows it: what the filters keep, by rarity, the best rarity first.
pub mod Partition
use mawster.Base.{
  ℕ, ◌+◌, Text, List, [], ◌∷◌, ◌++◌, Bool, true, false, not, ◌&&◌, is_empty, any, filter, count,
  map, sort_by, ◌==◌, text_eq, if◌then◌else◌,
}
use mawster.Roster.{RosterEntry}
use mawster.RosterFilters.{apply_roster_filters}
use mawster.Rarity.{rarities}
use mawster.Account.{RosterPage}

abbrev pub is_of : Text → RosterEntry → Bool
is_of rarity r = r.rarity == rarity

abbrev reverse : List Text → List Text
reverse [] = []
reverse (x ∷ xs) = reverse xs ++ (x ∷ [])

pub record RosterGroup : Type 0 where
  pub rarity : Text
  pub entries : List RosterEntry

unfoldable group_by : List RosterEntry → List Text → List RosterGroup
group_by roster [] = []
group_by roster (rarity ∷ rest) =
    let groups = group_by roster rest in
    let entries = filter (is_of rarity) roster in
    if is_empty entries then groups else record { rarity = rarity; entries = entries } ∷ groups

unfoldable pub grouped_roster : (lower : Text → Text) → RosterPage → List RosterGroup
unfolding group_by
grouped_roster lower s = group_by (apply_roster_filters lower s.roster s.filters) (reverse rarities)

-- `Array.from(new Set(...))`: each value at its first place.
unfoldable unique : List Text → List Text
unique [] = []
unique (x ∷ xs) = x ∷ filter (λ y. not (y == x)) (unique xs)

-- `before` is `localeCompare`.
unfoldable available_classes : (before : Text → Text → Bool) → RosterPage → List Text
unfolding unique
available_classes before s = sort_by before (unique (map (λ r. r.champion_class) s.roster))
