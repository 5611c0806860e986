-- ===== src/AlliancesPage/Loading/Settled.antt =====
-- The choice of the alliance of the statistics comes to rest.
use mathlib.Core.Path.{subst}
use mawster.Base.{
  List, ◌∷◌, none, some, true, false, ◌≡◌, sym, ap, ◌∙◌, any, ◌==◌, text_eq, text_beq_iff, arith,
  if_true, if_false, beq_refl, if◌then◌else◌, Bool-cases, inl, inr,
}
use mawster.Alliances.{AllianceWithVisitorFlag}
use mawster.AlliancesPage.{AlliancesPage, statistics_tab}
use mawster.AlliancesPage.Loading.{
  is_alliance, choose_stats, stats_effect, stats_request, shows_stats,
}

module _ (a : AllianceWithVisitorFlag) (alliances : List AllianceWithVisitorFlag)
    (s : AlliancesPage) (tab : s.active_tab ≡ statistics_tab) where
  stats_effect-shown : stats_effect (a ∷ alliances) s ≡ choose_stats (a ∷ alliances) s
  unfolding stats_effect
  stats_effect-shown =
      ap (λ t. if shows_stats t then choose_stats (a ∷ alliances) s else (s, none)) tab

  stats_effect-listed :
      any (is_alliance s.stats_alliance_id) (a ∷ alliances) ≡ true
      → stats_effect (a ∷ alliances) s ≡ (s, some s.stats_alliance_id)
  stats_effect-listed listed =
      stats_effect-shown
      ∙ if_true _ _ listed
      ∙ ap (λ t. (s, stats_request t s.stats_alliance_id)) tab

  stats_effect-unlisted :
      any (is_alliance s.stats_alliance_id) (a ∷ alliances) ≡ false
      → stats_effect (a ∷ alliances) s ≡ (record s { stats_alliance_id = a.alliance.id }, none)
  stats_effect-unlisted unlisted =
      stats_effect-shown
      ∙ if_false _ _ unlisted
      ∙ if_false {b = s.stats_alliance_id == a.alliance.id} _ _ (
          ground (
            arith,
            unlisted,
            text_beq_iff s.stats_alliance_id a.alliance.id,
            text_beq_iff a.alliance.id s.stats_alliance_id,
          ))

abbrev Rests : AllianceWithVisitorFlag → List AllianceWithVisitorFlag → AlliancesPage → Type 0
Rests a alliances s =
    (any (is_alliance s.stats_alliance_id) (a ∷ alliances) ≡ true)
    × (stats_effect (a ∷ alliances) s ≡ (s, some s.stats_alliance_id))

-- On the tab of the statistics, for a user with alliances: one run of the effect leaves one of
-- them chosen, and from then on a run changes nothing and loads the statistics of that one.
stats_effect_settles :
    (a : AllianceWithVisitorFlag) (alliances : List AllianceWithVisitorFlag) (s : AlliancesPage)
    → s.active_tab ≡ statistics_tab
    → (s' : AlliancesPage) → (stats_effect (a ∷ alliances) s).0 ≡ s'
    → (any (is_alliance s'.stats_alliance_id) (a ∷ alliances) ≡ true)
      × (stats_effect (a ∷ alliances) s' ≡ (s', some s'.stats_alliance_id))
stats_effect_settles a alliances s tab s' run =
    elim (Bool-cases (any (is_alliance s.stats_alliance_id) (a ∷ alliances))) [
      | inl listed ↦
          let stays = stats_effect-listed a alliances s tab listed in
          subst (Rests a alliances) (ap (λ p. p.0) (sym stays) ∙ run) (listed, stays)
      | inr unlisted ↦
          let chosen = record s { stats_alliance_id = a.alliance.id } in
          let listed : any (is_alliance a.alliance.id) (a ∷ alliances) ≡ true =
            ground (arith, beq_refl a.alliance.id) in
          subst (Rests a alliances)
            (ap (λ p. p.0) (sym (stats_effect-unlisted a alliances s tab unlisted)) ∙ run)
            (listed, stats_effect-listed a alliances chosen tab listed)
    ]
