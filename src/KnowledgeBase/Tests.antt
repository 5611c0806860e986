-- ===== src/KnowledgeBase/Tests.antt =====
-- The fight records at concrete inputs.
use mawster.Base.{
  Answer, resolved, rejected, ℕ, List, [], ◌∷◌, none, some, true, false, ◌≡◌, refl, codes, text_beq,
  to_decimal, parse_int, parse_int-to_decimal,
}
use mawster.KnowledgeBase.{
  View, KnowledgeBase, has_active_filters, handle_clear_filters, handle_source_change,
}
use mawster.KnowledgeBase.Address.{params_of, view_of}
use mawster.KnowledgeBase.Address.Kept.{view_of-params_of}
use mawster.KnowledgeBase.Loads.{load_answered_all, load_answered_all_latest, take_answer}
use mawster.KnowledgeBase.Cleared.{handle_clear_filters_active}

abbrev view : View
view = record {
  filters = record {
    champion_id = some (codes "c");
    defender_champion_id = none;
    node_number = codes "12";
    tier = [];
    game_account_pseudo = codes "G";
  };
  planning_error_only = some true;
  page = 3;
  size = 20;
  sort_by = codes "tier";
  sort_order = codes "asc";
  season_selector = codes "all_seasons";
  season_id = none;
  alliance_id = none;
  source = codes "imported";
}

-- The third request is the last one.
abbrev records : KnowledgeBase ℕ
records = record {
  view = view;
  debounced_pseudo = codes "G";
  debounced_node_number = codes "12";
  seasons = [];
  accessible_alliances = [];
  can_import = false;
  data_shown = none;
  loading = true;
  error = none;
  request_id = 3;
}

view_of-params_of_example : view_of parse_int (params_of to_decimal view) ≡ view
unfolding text_beq
view_of-params_of_example =
    view_of-params_of to_decimal parse_int parse_int-to_decimal view
      (record { champion = refl; defender = refl; season = refl; alliance = refl; switch = refl })

abbrev answers : List (ℕ × Answer ℕ)
answers = (2, resolved 20) ∷ (3, resolved 30) ∷ (1, rejected (codes "late")) ∷ []

load_answered_all_latest_example :
    load_answered_all answers records ≡ take_answer (resolved 30) records
load_answered_all_latest_example = load_answered_all_latest answers (resolved 30) records refl

handle_clear_filters_active_example :
    (has_active_filters (handle_clear_filters records).view ≡ true)
    × (has_active_filters (handle_source_change (codes "all") (handle_clear_filters records)).view
        ≡ false)
handle_clear_filters_active_example = handle_clear_filters_active records
