-- ===== src/WarMap/Tests.antt =====
-- The war map at concrete inputs.
use mawster.Base.{[], ◌∷◌, none, some, nat_eq, count, ◌≡◌, refl, arith}
use mawster.WarMap.{sections, paths, visible_nodes}
use mawster.WarMap.Filters.{shows, visible_nodes-partition}
use mawster.WarMap.Layout.{regular, map_sections_for_format}
use mawster.WarMap.Layout.Nodes.{
  layout_sections, filter_sections, visible_nodes-map_sections_for_format,
}

path_in_section : visible_nodes (some 2) (some 4) ≡ some (22 ∷ 31 ∷ [])
unfolding visible_nodes
path_in_section = refl

visible_nodes-partition_example :
    (count (λ s. shows (visible_nodes (some s) none) 38) sections ≡ 1)
    × (count (λ p. shows (visible_nodes none (some p)) 38) paths ≡ 0)
visible_nodes-partition_example = visible_nodes-partition 38 (omega arith) (omega arith)

visible_nodes-map_sections_for_format_example :
    (layout_sections 46 (map_sections_for_format regular) ≡ 4 ∷ []) × (filter_sections 46 ≡ 3 ∷ [])
visible_nodes-map_sections_for_format_example =
    visible_nodes-map_sections_for_format 46 (omega arith) (omega arith)
