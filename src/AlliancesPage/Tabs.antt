-- ===== src/AlliancesPage/Tabs.antt =====
-- The tab of the page and the parameters of its address. `set` on an address leaves one parameter
-- of the name; the names are taken to be there at most once.
use mawster.Base.{
  Text, List, [], ◌∷◌, Option, none, some, not, ◌≡◌, refl, ◌∙◌, ap, codes, ◌==◌, text_eq, text_beq,
  text_beq_iff, filter, map_get, map_set, map_get-map_set, if◌then◌else◌, arith,
}
use mawster.AlliancesPage.{
  AllianceTab, create_tab, alliances_tab, defense_tab, statistics_tab, champion_search_tab,
  tab_text,
}

abbrev pub SearchParams : Type 0
SearchParams = List (Text × Text)

abbrev delete : Text → SearchParams → SearchParams
delete name params = filter (λ p. not (p.0 == name)) params

unfoldable pub tab_of : Text → AllianceTab
tab_of t =
    if t == codes "create"
    then create_tab
    else if t == codes "defense"
    then defense_tab
    else if t == codes "statistics"
    then statistics_tab
    else if t == codes "champion-search"
    then champion_search_tab
    else alliances_tab

abbrev tab_of_param : Option Text → AllianceTab
tab_of_param none = alliances_tab
tab_of_param (some t) = tab_of t

-- The tab that the page opens with.
unfoldable initial_tab : SearchParams → AllianceTab
initial_tab params = tab_of_param (map_get (codes "tab") params)

-- The address after the tab was changed.
unfoldable tab_changed : AllianceTab → SearchParams → SearchParams
tab_changed defense_tab params = map_set (codes "tab") (tab_text defense_tab) params
tab_changed tab params =
    delete (codes "bg") (delete (codes "alliance") (map_set (codes "tab") (tab_text tab) params))

-- The address after the alliance or the battlegroup of the defense was changed; `bg` is printed.
unfoldable handle_defense_state_change : (alliance_id bg : Text) → SearchParams → SearchParams
handle_defense_state_change alliance_id bg params =
    map_set (codes "bg") bg
      (map_set (codes "alliance") alliance_id (map_set (codes "tab") (tab_text defense_tab) params))

map_get-delete :
    (k name : Text) (params : SearchParams)
    → map_get k (delete name params) ≡ (if name == k then none else map_get k params)
unfolding map_get
map_get-delete k name [] = ground arith
map_get-delete k name ((j, v) ∷ params) = ground (
  arith,
  text_beq_iff j name,
  text_beq_iff name k,
  text_beq_iff j k,
  map_get-delete k name params,
)

tab_of-tab_text : (tab : AllianceTab) → tab_of (tab_text tab) ≡ tab
unfolding tab_of tab_text text_beq
tab_of-tab_text create_tab = refl
tab_of-tab_text alliances_tab = refl
tab_of-tab_text defense_tab = refl
tab_of-tab_text statistics_tab = refl
tab_of-tab_text champion_search_tab = refl

-- The address that a tab other than the defense leaves.
abbrev without_defense : Text → SearchParams → SearchParams
without_defense t params =
    delete (codes "bg") (delete (codes "alliance") (map_set (codes "tab") t params))

map_get-without_defense :
    (k t : Text) (params : SearchParams)
    → map_get k (without_defense t params) ≡ (
        if codes "bg" == k
        then none
        else if codes "alliance" == k
        then none
        else if codes "tab" == k
        then some t
        else map_get k params)
map_get-without_defense k t params =
    map_get-delete k (codes "bg") (delete (codes "alliance") (map_set (codes "tab") t params))
    ∙ ap (λ o. if codes "bg" == k then none else o)
        (map_get-delete k (codes "alliance") (map_set (codes "tab") t params)
          ∙ ap (λ o. if codes "alliance" == k then none else o)
              (map_get-map_set (codes "tab") k t params))

without_defense-reads :
    (tab : AllianceTab) (params : SearchParams)
    → (initial_tab (without_defense (tab_text tab) params) ≡ tab)
      × (map_get (codes "alliance") (without_defense (tab_text tab) params) ≡ none)
      × (map_get (codes "bg") (without_defense (tab_text tab) params) ≡ none)
unfolding initial_tab text_beq
without_defense-reads tab params = (
  ap tab_of_param (map_get-without_defense (codes "tab") (tab_text tab) params)
      ∙ tab_of-tab_text tab,
  map_get-without_defense (codes "alliance") (tab_text tab) params,
  map_get-without_defense (codes "bg") (tab_text tab) params,
)

abbrev pub kept : AllianceTab → Option Text → Option Text
kept defense_tab o = o
kept tab o = none

-- The page that is opened at the address after a change of the tab shows that tab; and the
-- alliance and the battlegroup of the defense stay in the address where that is the defense, and
-- leave it otherwise.
tab_changed-initial_tab :
    (tab : AllianceTab) (params : SearchParams)
    → (initial_tab (tab_changed tab params) ≡ tab)
      × (map_get (codes "alliance") (tab_changed tab params)
          ≡ kept tab (map_get (codes "alliance") params))
      × (map_get (codes "bg") (tab_changed tab params) ≡ kept tab (map_get (codes "bg") params))
unfolding initial_tab tab_changed text_beq
tab_changed-initial_tab defense_tab params = (
  ap tab_of_param (map_get-map_set (codes "tab") (codes "tab") (tab_text defense_tab) params)
      ∙ tab_of-tab_text defense_tab,
  map_get-map_set (codes "tab") (codes "alliance") (tab_text defense_tab) params,
  map_get-map_set (codes "tab") (codes "bg") (tab_text defense_tab) params,
)
tab_changed-initial_tab create_tab params = without_defense-reads create_tab params
tab_changed-initial_tab alliances_tab params = without_defense-reads alliances_tab params
tab_changed-initial_tab statistics_tab params = without_defense-reads statistics_tab params
tab_changed-initial_tab champion_search_tab params =
    without_defense-reads champion_search_tab params
