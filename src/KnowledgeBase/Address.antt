-- ===== src/KnowledgeBase/Address.antt =====
-- The address of the page: what is written into it, and what the page takes from it. `print` and
-- `number` are `String` and `Number` on a page number and a page size.
pub mod Kept
use mawster.Base.{
  ℕ, Text, List, [], ◌∷◌, Option, none, some, Bool, true, false, ◌≡◌, refl, sym, ap, ◌∙◌, ◌==◌,
  ◌!=◌, text_eq, nat_eq, text_beq, text_beq_iff, codes, is_empty, is_truthy, map_get, map_set,
  map_get-map_set, or_else, or_opt, opt_map, if◌then◌else◌, Bool-cases, inl, inr, arith,
}
use mawster.KnowledgeBase.{View, Filters, KnowledgeBase}

abbrev pub SearchParams : Type 0
SearchParams = List (Text × Text)

-- A parameter that is set where it has a value.
abbrev set_all : List (Text × Option Text) → SearchParams → SearchParams
set_all [] params = params
set_all ((key, none) ∷ entries) params = set_all entries params
set_all ((key, some value) ∷ entries) params = set_all entries (map_set key value params)

abbrev pub truthy : Option Text → Option Text
truthy none = none
truthy (some s) = if is_empty s then none else some s

abbrev unless : Text → Text → Option Text
unless default s = if s == default then none else some s

abbrev bool_text : Bool → Text
bool_text true = codes "true"
bool_text false = codes "false"

module _ (print : ℕ → Text) where
  abbrev unless_number : ℕ → ℕ → Option Text
  unless_number default n = if n == default then none else some (print n)

  abbrev pub entries : View → List (Text × Option Text)
  entries v =
      (codes "champion_id", truthy v.filters.champion_id)
      ∷ (codes "defender_champion_id", truthy v.filters.defender_champion_id)
      ∷ (codes "node_number", truthy (some v.filters.node_number))
      ∷ (codes "tier", truthy (some v.filters.tier))
      ∷ (codes "game_account_pseudo", truthy (some v.filters.game_account_pseudo))
      ∷ (codes "planning_error_only", opt_map bool_text v.planning_error_only)
      ∷ (codes "season_selector", unless (codes "all_seasons") v.season_selector)
      ∷ (codes "season_id", truthy v.season_id)
      ∷ (codes "alliance_id", truthy v.alliance_id)
      ∷ (codes "source", unless (codes "all") v.source)
      ∷ (codes "page", unless_number 1 v.page)
      ∷ (codes "size", unless_number 20 v.size)
      ∷ (codes "sort_by", unless (codes "created_at") v.sort_by)
      ∷ (codes "sort_order", unless (codes "desc") v.sort_order)
      ∷ []

  unfoldable pub params_of : View → SearchParams
  params_of v = set_all (entries v) []

abbrev filters_from_params : SearchParams → Filters
filters_from_params params = record {
  champion_id = map_get (codes "champion_id") params;
  defender_champion_id = map_get (codes "defender_champion_id") params;
  node_number = or_else (map_get (codes "node_number") params) [];
  tier = or_else (map_get (codes "tier") params) [];
  game_account_pseudo = or_else (map_get (codes "game_account_pseudo") params) [];
}

abbrev only_true : Option Text → Option Bool
only_true none = none
only_true (some t) = if t == codes "true" then some true else none

abbrev number_or : (Text → ℕ) → Option Text → ℕ → ℕ
number_or number none default = default
number_or number (some t) default = number t

unfoldable pub view_of : (number : Text → ℕ) → SearchParams → View
view_of number params = record {
  filters = filters_from_params params;
  planning_error_only = only_true (map_get (codes "planning_error_only") params);
  page = number_or number (map_get (codes "page") params) 1;
  size = number_or number (map_get (codes "size") params) 20;
  sort_by = or_else (map_get (codes "sort_by") params) (codes "created_at");
  sort_order = or_else (map_get (codes "sort_order") params) (codes "desc");
  season_selector = or_else (map_get (codes "season_selector") params) (codes "all_seasons");
  season_id = map_get (codes "season_id") params;
  alliance_id = map_get (codes "alliance_id") params;
  source = or_else (map_get (codes "source") params) (codes "all");
}

-- The page as it opens.
unfoldable use_knowledge_base : {D : Type 0} → (number : Text → ℕ) → SearchParams → KnowledgeBase D
unfolding view_of
use_knowledge_base number params = record {
  view = view_of number params;
  debounced_pseudo = or_else (map_get (codes "game_account_pseudo") params) [];
  debounced_node_number = or_else (map_get (codes "node_number") params) [];
  seasons = [];
  accessible_alliances = [];
  can_import = false;
  data_shown = none;
  loading = false;
  error = none;
  request_id = 0;
}
