-- ===== src/WarMap/Layout.antt =====
-- The layouts of the war map, front/app/game/defense/_components/war-format.ts.
pub mod Nodes
use mawster.Base.{ℕ, Text, codes, List, [], ◌∷◌}

pub record MapSection : Type 0 where
  pub label : Text
  pub color : Text
  pub border_color : Text
  pub node_color : Text
  pub node_hover_color : Text
  -- 0 is a spacer
  pub rows : List (List ℕ)

abbrev regular_map_sections : List MapSection
regular_map_sections =
    record {
      label = codes "Boss";
      color = codes "text-yellow-400";
      border_color = codes "border-yellow-600";
      node_color = codes "border-yellow-500 bg-yellow-950/40";
      node_hover_color = codes "hover:bg-yellow-900/60";
      rows = (50 ∷ []) ∷ (48 ∷ 49 ∷ []) ∷ (46 ∷ 47 ∷ []) ∷ [];
    }
    ∷ record {
      label = codes "Mini Boss";
      color = codes "text-blue-400";
      border_color = codes "border-blue-600";
      node_color = codes "border-blue-500 bg-blue-950/40";
      node_hover_color = codes "hover:bg-blue-900/60";
      rows = (43 ∷ 44 ∷ 45 ∷ []) ∷ (40 ∷ 41 ∷ 42 ∷ 0 ∷ 37 ∷ 38 ∷ 39 ∷ []) ∷ [];
    }
    ∷ record {
      label = codes "Tier 2";
      color = codes "text-purple-400";
      border_color = codes "border-purple-600";
      node_color = codes "border-purple-500 bg-purple-950/40";
      node_hover_color = codes "hover:bg-purple-900/60";
      rows =
          (28 ∷ 29 ∷ 30 ∷ 0 ∷ 31 ∷ 32 ∷ 33 ∷ 0 ∷ 34 ∷ 35 ∷ 36 ∷ [])
          ∷ (19 ∷ 20 ∷ 21 ∷ 0 ∷ 22 ∷ 23 ∷ 24 ∷ 0 ∷ 25 ∷ 26 ∷ 27 ∷ [])
          ∷ [];
    }
    ∷ record {
      label = codes "Tier 1";
      color = codes "text-red-400";
      border_color = codes "border-red-600";
      node_color = codes "border-red-500 bg-red-950/40";
      node_hover_color = codes "hover:bg-red-900/60";
      rows =
          (10 ∷ 11 ∷ 12 ∷ 0 ∷ 13 ∷ 14 ∷ 15 ∷ 0 ∷ 16 ∷ 17 ∷ 18 ∷ [])
          ∷ (1 ∷ 2 ∷ 3 ∷ 0 ∷ 4 ∷ 5 ∷ 6 ∷ 0 ∷ 7 ∷ 8 ∷ 9 ∷ [])
          ∷ [];
    }
    ∷ []

abbrev big_thing_map_sections : List MapSection
big_thing_map_sections =
    record {
      label = codes "Tier 3";
      color = codes "text-blue-400";
      border_color = codes "border-blue-600";
      node_color = codes "border-blue-500 bg-blue-950/40";
      node_hover_color = codes "hover:bg-blue-900/60";
      rows = (9 ∷ 10 ∷ []) ∷ [];
    }
    ∷ record {
      label = codes "Tier 2";
      color = codes "text-purple-400";
      border_color = codes "border-purple-600";
      node_color = codes "border-purple-500 bg-purple-950/40";
      node_hover_color = codes "hover:bg-purple-900/60";
      rows = (5 ∷ 6 ∷ 0 ∷ 0 ∷ 7 ∷ 8 ∷ []) ∷ [];
    }
    ∷ record {
      label = codes "Tier 1";
      color = codes "text-red-400";
      border_color = codes "border-red-600";
      node_color = codes "border-red-500 bg-red-950/40";
      node_hover_color = codes "hover:bg-red-900/60";
      rows = (1 ∷ 2 ∷ 0 ∷ 0 ∷ 3 ∷ 4 ∷ []) ∷ [];
    }
    ∷ []

pub data SeasonFormat : Type 0 where
  regular big_thing : SeasonFormat

abbrev pub map_sections_for_format : SeasonFormat → List MapSection
map_sections_for_format regular = regular_map_sections
map_sections_for_format big_thing = big_thing_map_sections
