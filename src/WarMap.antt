-- ===== src/WarMap.antt =====
-- The war map: the node filters front/app/game/knowledge-base/_components/node-filters.ts and the
-- layouts front/app/game/defense/_components/war-format.ts.
pub mod Layout
pub mod Filters
mod Tests
use mawster.Base.{
  ℕ, zero, suc, ◌+◌, List, [], ◌∷◌, ◌++◌, Option, none, some, Bool, true, false, ◌&&◌, ◌||◌, leb,
  ◌==◌, nat_eq, any, filter, if◌then◌else◌,
}

abbrev sections : List ℕ
sections = 1 ∷ 2 ∷ 3 ∷ 4 ∷ []

abbrev pub paths : List ℕ
paths = 1 ∷ 2 ∷ 3 ∷ 4 ∷ 5 ∷ 6 ∷ 7 ∷ 8 ∷ 9 ∷ []

-- The entry of a section; `undefined`, which cannot be destructured, is `none`.
abbrev section_ranges : ℕ → Option (ℕ × ℕ)
section_ranges section =
    if section == 1
    then some (1, 18)
    else if section == 2
    then some (19, 36)
    else if section == 3
    then some (37, 46)
    else if section == 4
    then some (47, 50)
    else none

unfoldable paths_available : Option ℕ → Bool
paths_available none = true
paths_available (some section) = section == 1 || section == 2

abbrev nodes_for_path : ℕ → List ℕ
nodes_for_path path = path ∷ (path + 9) ∷ (path + 18) ∷ (path + 27) ∷ []

-- `Array.from({ length }, (_, i) => i + 1)`
abbrev one_to : ℕ → List ℕ
one_to zero = []
one_to (suc n) = one_to n ++ (suc n ∷ [])

abbrev all_nodes : List ℕ
all_nodes = one_to 50

abbrev in_section : Option ℕ → List ℕ → Option (List ℕ)
in_section none nodes = some nodes
in_section (some section) nodes = elim (section_ranges section) [
  | none ↦ none
  | some range ↦ some (filter (λ n. leb range.0 n && leb n range.1) nodes)
]

abbrev on_path : Option ℕ → List ℕ → List ℕ
on_path none nodes = nodes
on_path (some path) nodes = filter (λ n. any (λ m. m == n) (nodes_for_path path)) nodes

-- `none` where the section is not one of the map, and the code throws.
unfoldable visible_nodes : Option ℕ → Option ℕ → Option (List ℕ)
visible_nodes section path = elim (in_section section all_nodes) [
  | none ↦ none
  | some nodes ↦ some (on_path path nodes)
]
