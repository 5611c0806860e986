-- ===== src/WarMap/Layout/Nodes.antt =====
-- Which nodes the layouts show, and where.
use mawster.Base.{
  ℕ, suc, ◌+◌, ◌≤◌, List, [], ◌∷◌, none, some, Bool, true, leb, filter, ◌&&◌, ◌==◌, nat_eq, text_eq,
  text_beq, text_beq_iff, all, length, count, ◌≡◌, refl, if◌then◌else◌, arith,
}
use mawster.WarMap.{sections, one_to, visible_nodes}
use mawster.WarMap.Filters.{shows, all-one_to}
use mawster.WarMap.Layout.{MapSection, SeasonFormat, regular, big_thing, map_sections_for_format}

abbrev node_count : SeasonFormat → ℕ
node_count regular = 50
node_count big_thing = 10

abbrev count_in_rows : ℕ → List (List ℕ) → ℕ
count_in_rows n [] = 0
count_in_rows n (row ∷ rows) = count (λ m. m == n) row + count_in_rows n rows

-- How often a layout shows a node.
abbrev occurrences : ℕ → List MapSection → ℕ
occurrences n [] = 0
occurrences n (s ∷ layout) = count_in_rows n s.rows + occurrences n layout

layout-once :
    (format : SeasonFormat)
    → all (λ n. occurrences n (map_sections_for_format format) == 1) (one_to (node_count format))
      ≡ true
layout-once regular = refl
layout-once big_thing = refl

-- The layout of each format shows each of its nodes, from 1 to 50 or to 10, exactly once.
map_sections_for_format-once :
    (format : SeasonFormat) (n : ℕ)
    → 1 ≤ n
    → n ≤ node_count format
    → occurrences n (map_sections_for_format format) ≡ 1
map_sections_for_format-once format n low high = equal (
    all-one_to (λ n. occurrences n (map_sections_for_format format) == 1) (node_count format) n
      (layout-once format) low high)
  where
    equal : {a : ℕ} → (a == 1) ≡ true → a ≡ 1
    equal h = ground arith

-- The sections of the layout that show a node, counted from the start of the map: the first part,
-- 1 to 18, is the last of the list.
abbrev pub layout_sections : ℕ → List MapSection → List ℕ
layout_sections n [] = []
layout_sections n (s ∷ layout) =
    let rest = layout_sections n layout in
    if count_in_rows n s.rows == 0 then rest else suc (length layout) ∷ rest

-- The sections that the node filter shows a node in.
abbrev pub filter_sections : ℕ → List ℕ
filter_sections n = filter (λ s. shows (visible_nodes (some s) none) n) sections

-- The sections of the map: 1 to 18, 19 to 36, 37 to 45, and the bosses.
abbrev pub section_of : ℕ → ℕ
section_of n = if leb n 18 then 1 else if leb n 36 then 2 else if leb n 45 then 3 else 4

abbrev filtered_in : ℕ → ℕ
filtered_in n = if n == 46 then 3 else section_of n

abbrev is_placed : ℕ → Bool
is_placed n =
    layout_sections n (map_sections_for_format regular) == section_of n ∷ []
    && filter_sections n == filtered_in n ∷ []

nodes-placed : all is_placed (one_to 50) ≡ true
unfolding visible_nodes text_beq
nodes-placed = refl

placed_in : (xs ys us vs : List ℕ) → (xs == ys && us == vs) ≡ true → (xs ≡ ys) × (us ≡ vs)
placed_in xs ys us vs h = ground (arith, text_beq_iff xs ys, text_beq_iff us vs)

-- On the regular map each node is drawn in exactly one box, Tier 1 up to 18, Tier 2 up to 36, the
-- mini bosses up to 45 and the bosses from 46; the node filter shows it in the section of the same
-- number and in no other, but for node 46, which it has with the mini bosses.
pub visible_nodes-map_sections_for_format :
    (n : ℕ)
    → 1 ≤ n
    → n ≤ 50
    → (layout_sections n (map_sections_for_format regular) ≡ section_of n ∷ [])
      × (filter_sections n ≡ (if n == 46 then 3 else section_of n) ∷ [])
visible_nodes-map_sections_for_format n low high =
    placed_in (layout_sections n (map_sections_for_format regular)) (section_of n ∷ [])
      (filter_sections n) (filtered_in n ∷ []) (all-one_to is_placed 50 n nodes-placed low high)
