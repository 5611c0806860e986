-- ===== src/KnowledgeBase/Loads.antt =====
-- Loading the records: a request has a number, and only the answer of the last one counts.
use mawster.Base.{
  Answer, resolved, rejected, ℕ, ◌+◌, Text, List, [], ◌∷◌, Option, none, some, Bool, true, false,
  ◌≡◌, refl, sym, ap, ◌∙◌, codes, ◌==◌, nat_eq, beq_refl, if_true, filter, is_empty, if◌then◌else◌,
  Bool-cases, inl, inr,
}
use mawster.KnowledgeBase.{KnowledgeBase}

-- The filters of a request, `number` being `Number.parseInt`.
pub record FightRecordFilters : Type 0 where
  pub champion_id : Option Text
  pub defender_champion_id : Option Text
  pub node_number : Option ℕ
  pub tier : Option ℕ
  pub game_account_pseudo : Option Text
  pub planning_error_only : Option Bool
  pub season_selector : Text
  pub season_id : Option Text
  pub alliance_id : Option Text
  pub source : Text
  pub page : ℕ
  pub size : ℕ
  pub sort_by : Text
  pub sort_order : Text

abbrev truthy : {A : Type 0} → (Text → A) → Text → Option A
truthy f s = if is_empty s then none else some (f s)

module _ {D : Type 0} where
  unfoldable api_filters : (number : Text → ℕ) → KnowledgeBase D → FightRecordFilters
  api_filters number s = record {
    champion_id = s.view.filters.champion_id;
    defender_champion_id = s.view.filters.defender_champion_id;
    node_number = truthy number s.debounced_node_number;
    tier = truthy number s.view.filters.tier;
    game_account_pseudo = truthy (λ t. t) s.debounced_pseudo;
    planning_error_only = s.view.planning_error_only;
    season_selector = s.view.season_selector;
    season_id = s.view.season_id;
    alliance_id = s.view.alliance_id;
    source = s.view.source;
    page = s.view.page;
    size = s.view.size;
    sort_by = s.view.sort_by;
    sort_order = s.view.sort_order;
  }

  unfoldable load_started : KnowledgeBase D → KnowledgeBase D
  load_started s = record s { request_id = s.request_id + 1; loading = true; error = none }

  -- What an answer does that is not too late.
  abbrev pub take_answer : Answer D → KnowledgeBase D → KnowledgeBase D
  take_answer (resolved result) s = record s { data_shown = some result; loading = false }
  take_answer (rejected message) s = record s {
    error = some (codes "Failed to load fight records.");
    loading = false;
  }

  unfoldable pub load_answered : ℕ → Answer D → KnowledgeBase D → KnowledgeBase D
  load_answered request_id answer s = if request_id == s.request_id then take_answer answer s else s

  -- Answers in the order in which they come.
  unfoldable pub load_answered_all : List (ℕ × Answer D) → KnowledgeBase D → KnowledgeBase D
  load_answered_all [] s = s
  load_answered_all ((request_id, answer) ∷ answers) s =
      load_answered_all answers (load_answered request_id answer s)

  abbrev is_latest : KnowledgeBase D → ℕ × Answer D → Bool
  is_latest s a = a.0 == s.request_id

  request_id-take_answer :
      (answer : Answer D) (s : KnowledgeBase D) → (take_answer answer s).request_id ≡ s.request_id
  request_id-take_answer (resolved result) s = refl
  request_id-take_answer (rejected message) s = refl

  load_answered_all-filter :
      (answers : List (ℕ × Answer D)) (s : KnowledgeBase D)
      → load_answered_all answers s ≡ load_answered_all (filter (is_latest s) answers) s
  unfolding load_answered_all load_answered
  load_answered_all-filter [] s = refl
  load_answered_all-filter ((n, answer) ∷ answers) s = elim (Bool-cases (n == s.request_id)) [
    | inr late ↦ rw late (load_answered_all-filter answers s)
    | inl latest ↦ rw latest (
        load_answered_all-filter answers (take_answer answer s)
        ∙ ap (λ r. load_answered_all (filter (λ a. a.0 == r) answers) (take_answer answer s))
            (request_id-take_answer answer s)
        ∙ ap (λ t. load_answered_all (filter (is_latest s) answers) t)
            (sym (if_true (take_answer answer s) s latest)))
  ]

  -- However the answers of the requests arrive, late ones and early ones mixed: where one of them is
  -- for the last request, the page ends as if only that one had come.
  pub load_answered_all_latest :
      (answers : List (ℕ × Answer D)) (answer : Answer D) (s : KnowledgeBase D)
      → filter (is_latest s) answers ≡ (s.request_id, answer) ∷ []
      → load_answered_all answers s ≡ take_answer answer s
  unfolding load_answered_all load_answered
  load_answered_all_latest answers answer s one =
      load_answered_all-filter answers s
      ∙ ap (λ l. load_answered_all l s) one
      ∙ if_true _ _ (beq_refl s.request_id)
