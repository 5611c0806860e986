-- ===== src/KnowledgeBase/Address/Kept.antt =====
-- The address keeps the view.
use mawster.Base.{
  ℕ, Text, List, [], ◌∷◌, Option, none, some, Bool, true, false, ◌≡◌, refl, sym, ap, ◌∙◌, ◌==◌,
  text_eq, nat_eq, text_beq, text_beq_iff, nat_beq_iff, codes, map_get, map_set, map_get-map_set,
  or_else, or_opt, or_opt-none, opt_map, if◌then◌else◌, Bool-cases, inl, inr,
}
use mawster.KnowledgeBase.{View}
use mawster.KnowledgeBase.Address.{
  SearchParams, set_all, truthy, unless, bool_text, unless_number, entries, params_of, only_true,
  number_or, view_of,
}

-- The last value that the entries give a key.
abbrev read : Text → List (Text × Option Text) → Option Text
read j [] = none
read j ((key, o) ∷ entries) = let rest = read j entries in if key == j then or_opt rest o else rest

or_opt_missing :
    {A : Type 0} (here : Bool) (r g : Option A)
    → or_opt r g ≡ or_opt (if here then or_opt r none else r) g
or_opt_missing true none g = refl
or_opt_missing true (some a) g = refl
or_opt_missing false none g = refl
or_opt_missing false (some a) g = refl

or_opt_value :
    {A : Type 0} (here : Bool) (a : A) (r g : Option A)
    → or_opt r (if here then some a else g) ≡ or_opt (if here then or_opt r (some a) else r) g
or_opt_value true a none g = refl
or_opt_value true a (some b) g = refl
or_opt_value false a none g = refl
or_opt_value false a (some b) g = refl

map_get-nil : (j : Text) → map_get {V = Text} j [] ≡ none
unfolding map_get
map_get-nil j = refl

map_get-set_all :
    (j : Text) (entries : List (Text × Option Text)) (params : SearchParams)
    → map_get j (set_all entries params) ≡ or_opt (read j entries) (map_get j params)
map_get-set_all j [] params = refl
map_get-set_all j ((key, none) ∷ entries) params =
    map_get-set_all j entries params ∙ or_opt_missing (key == j) (read j entries) (map_get j params)
map_get-set_all j ((key, some value) ∷ entries) params =
    map_get-set_all j entries (map_set key value params)
    ∙ ap (or_opt (read j entries)) (map_get-map_set key j value params)
    ∙ or_opt_value (key == j) value (read j entries) (map_get j params)

map_get-params_of :
    (print : ℕ → Text) (j : Text) (v : View)
    → map_get j (params_of print v) ≡ read j (entries print v)
unfolding params_of
map_get-params_of print j v =
    map_get-set_all j (entries print v) []
    ∙ ap (or_opt (read j (entries print v))) (map_get-nil j)
    ∙ or_opt-none (read j (entries print v))

or_else-truthy : (s : Text) → or_else (truthy (some s)) [] ≡ s
or_else-truthy [] = refl
or_else-truthy (c ∷ s) = refl

or_else-unless : (default s : Text) → or_else (unless default s) default ≡ s
or_else-unless default s = elim (Bool-cases (s == default)) [
  | inl same ↦ rw same (sym ((text_beq_iff s default).0 same))
  | inr other ↦ rw other refl
]

number_or-unless_number :
    (print : ℕ → Text) (number : Text → ℕ) (default n : ℕ)
    → number (print n) ≡ n
    → number_or number (unless_number print default n) default ≡ n
number_or-unless_number print number default n inverse = elim (Bool-cases (n == default)) [
  | inl same ↦ rw same (sym ((nat_beq_iff n default).0 same))
  | inr other ↦ rw other inverse
]

-- A choice that the address can hold: it is not the empty text.
abbrev IsChoice : Option Text → Type 0
IsChoice o = truthy o ≡ o

-- The address holds the planning errors only where the view shows nothing else.
abbrev IsSwitch : Option Bool → Type 0
IsSwitch o = only_true (opt_map bool_text o) ≡ o

-- What the address can hold of a view.
pub record IsKept (v : View) : Type 0 where
  pub champion : IsChoice v.filters.champion_id
  pub defender : IsChoice v.filters.defender_champion_id
  pub season : IsChoice v.season_id
  pub alliance : IsChoice v.alliance_id
  pub switch : IsSwitch v.planning_error_only

module _ (print : ℕ → Text) (number : Text → ℕ) (inverse : (n : ℕ) → number (print n) ≡ n)
    (v : View) (h : IsKept v) where
  params : SearchParams
  params = params_of print v

  reads_champion : map_get (codes "champion_id") params ≡ v.filters.champion_id
  unfolding params text_beq
  reads_champion = map_get-params_of print (codes "champion_id") v ∙ h.champion

  reads_defender : map_get (codes "defender_champion_id") params ≡ v.filters.defender_champion_id
  unfolding params text_beq
  reads_defender = map_get-params_of print (codes "defender_champion_id") v ∙ h.defender

  reads_node_number : or_else (map_get (codes "node_number") params) [] ≡ v.filters.node_number
  unfolding params text_beq
  reads_node_number =
      ap (λ o. or_else o []) (map_get-params_of print (codes "node_number") v)
      ∙ or_else-truthy v.filters.node_number

  reads_tier : or_else (map_get (codes "tier") params) [] ≡ v.filters.tier
  unfolding params text_beq
  reads_tier =
      ap (λ o. or_else o []) (map_get-params_of print (codes "tier") v)
      ∙ or_else-truthy v.filters.tier

  reads_pseudo :
      or_else (map_get (codes "game_account_pseudo") params) [] ≡ v.filters.game_account_pseudo
  unfolding params text_beq
  reads_pseudo =
      ap (λ o. or_else o []) (map_get-params_of print (codes "game_account_pseudo") v)
      ∙ or_else-truthy v.filters.game_account_pseudo

  reads_planning_error :
      only_true (map_get (codes "planning_error_only") params) ≡ v.planning_error_only
  unfolding params text_beq
  reads_planning_error =
      ap only_true (map_get-params_of print (codes "planning_error_only") v) ∙ h.switch

  reads_season : map_get (codes "season_id") params ≡ v.season_id
  unfolding params text_beq
  reads_season = map_get-params_of print (codes "season_id") v ∙ h.season

  reads_alliance : map_get (codes "alliance_id") params ≡ v.alliance_id
  unfolding params text_beq
  reads_alliance = map_get-params_of print (codes "alliance_id") v ∙ h.alliance

  reads_page : number_or number (map_get (codes "page") params) 1 ≡ v.page
  unfolding params text_beq
  reads_page =
      ap (λ o. number_or number o 1) (map_get-params_of print (codes "page") v)
      ∙ number_or-unless_number print number 1 v.page (inverse v.page)

  reads_size : number_or number (map_get (codes "size") params) 20 ≡ v.size
  unfolding params text_beq
  reads_size =
      ap (λ o. number_or number o 20) (map_get-params_of print (codes "size") v)
      ∙ number_or-unless_number print number 20 v.size (inverse v.size)

  reads_or :
      (key default value : Text)
      → read key (entries print v) ≡ unless default value
      → or_else (map_get key params) default ≡ value
  unfolding params
  reads_or key default value e =
      ap (λ o. or_else o default) (map_get-params_of print key v ∙ e) ∙ or_else-unless default value

  reads_sort_by : or_else (map_get (codes "sort_by") params) (codes "created_at") ≡ v.sort_by
  unfolding text_beq
  reads_sort_by = reads_or (codes "sort_by") (codes "created_at") v.sort_by refl

  reads_sort_order : or_else (map_get (codes "sort_order") params) (codes "desc") ≡ v.sort_order
  unfolding text_beq
  reads_sort_order = reads_or (codes "sort_order") (codes "desc") v.sort_order refl

  reads_season_selector :
      or_else (map_get (codes "season_selector") params) (codes "all_seasons") ≡ v.season_selector
  unfolding text_beq
  reads_season_selector =
      reads_or (codes "season_selector") (codes "all_seasons") v.season_selector refl

  reads_source : or_else (map_get (codes "source") params) (codes "all") ≡ v.source
  unfolding text_beq
  reads_source = reads_or (codes "source") (codes "all") v.source refl

  -- The page that is opened at the address that a view wrote shows that view, where no choice is
  -- the empty text and planning errors are shown alone or not filtered. Numbers are read as they
  -- are printed.
  pub view_of-params_of : view_of number (params_of print v) ≡ v
  unfolding view_of params
  view_of-params_of = λ i. record {
    filters = record {
      champion_id = reads_champion i;
      defender_champion_id = reads_defender i;
      node_number = reads_node_number i;
      tier = reads_tier i;
      game_account_pseudo = reads_pseudo i;
    };
    planning_error_only = reads_planning_error i;
    page = reads_page i;
    size = reads_size i;
    sort_by = reads_sort_by i;
    sort_order = reads_sort_order i;
    season_selector = reads_season_selector i;
    season_id = reads_season i;
    alliance_id = reads_alliance i;
    source = reads_source i;
  }
