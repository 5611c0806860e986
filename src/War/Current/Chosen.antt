-- ===== src/War/Current/Chosen.antt =====
-- The effect that selects an alliance comes to rest, also after a link to a foreign alliance.
use mawster.Base.{
  List, ◌∷◌, none, some, true, false, ◌≡◌, refl, sym, ◌∙◌, ap, is_empty, any, text_eq, text_beq_iff,
  Bool-cases, inl, inr,
}
use mawster.Alliances.{AllianceWithVisitorFlag}
use mawster.War.{WarState}
use mawster.War.Current.{
  auto_select, auto_select_from, is_chosen, is_alliance, set_selected_alliance_id, refused,
  fetch_current_war_started, fetch_current_war_answered, alliance_changed,
}

module _ (a : AllianceWithVisitorFlag) (alliances : List AllianceWithVisitorFlag) (s : WarState)
    (e : s.selector.alliances ≡ a ∷ alliances) where
  auto_select-chosen : is_chosen s ≡ true → auto_select s ≡ (s, none)
  unfolding auto_select
  auto_select-chosen chosen = ap (λ l. auto_select_from l s) e ∙ rw chosen refl

  auto_select-first :
      is_chosen s ≡ false
      → auto_select s
        ≡ (set_selected_alliance_id a.alliance.id s, some (a.alliance.id, s.selector.selected_bg))
  unfolding auto_select
  auto_select-first foreign = ap (λ l. auto_select_from l s) e ∙ rw foreign refl

  first-is_chosen :
      is_empty a.alliance.id ≡ false → is_chosen (set_selected_alliance_id a.alliance.id s) ≡ true
  first-is_chosen named =
      rw
        (
          named,
          ap (any (is_alliance a.alliance.id)) e,
          (text_beq_iff a.alliance.id a.alliance.id).1 refl,
        )
        refl

-- Where the user has alliances and the first of them has an id, one run of the effect leaves one of
-- them selected, and a second run changes and reports nothing.
pub auto_select-is_chosen :
    (a : AllianceWithVisitorFlag) (alliances : List AllianceWithVisitorFlag) (s : WarState)
    → s.selector.alliances ≡ a ∷ alliances
    → is_empty a.alliance.id ≡ false
    → (is_chosen (auto_select s).0 ≡ true)
      × (auto_select (auto_select s).0 ≡ ((auto_select s).0, none))
auto_select-is_chosen a alliances s e named = elim (Bool-cases (is_chosen s)) [
  | inl chosen ↦ let rest = auto_select-chosen a alliances s e chosen in rw rest (chosen, rest)
  | inr foreign ↦
      let chosen = first-is_chosen a alliances s e named in
      rw (auto_select-first a alliances s e foreign)
        (chosen, auto_select-chosen a alliances (set_selected_alliance_id a.alliance.id s) e chosen)
]

-- A link to an alliance that is not the user's: the refused request for its war shows no message,
-- and the effects select the first alliance of the user and ask for its war.
foreign_link_lem :
    (a : AllianceWithVisitorFlag) (alliances : List AllianceWithVisitorFlag) (s : WarState)
    → s.selector.alliances ≡ a ∷ alliances
    → is_empty a.alliance.id ≡ false
    → is_chosen s ≡ false
    → (s' : WarState)
    → alliance_changed (auto_select (fetch_current_war_answered (refused (some 403)) s)).0 ≡ s'
    → (s'.selector.selected_alliance_id ≡ a.alliance.id)
      × (s'.current_war ≡ none)
      × (s'.toasts ≡ s.toasts)
      × (s'.management_loading ≡ true)
unfolding alliance_changed fetch_current_war_answered fetch_current_war_started
foreign_link_lem a alliances s e named foreign s' run =
    let idle = record s { current_war = none; management_loading = false } in
    rw (sym run, auto_select-first a alliances idle e foreign, named) (refl, refl, refl, refl)
