-- ===== src/Attackers/Tests.antt =====
-- Attackers at concrete inputs.
use mawster.Base.{
  Text, List, [], ◌∷◌, none, false, ◌≡◌, refl, codes, ◌==◌, text_eq, text_beq, starts_with,
  includes, filter, count, All,
}
use mawster.Attackers.{AvailableAttacker, filter_by_search, build_groups}
use mawster.Attackers.Groups.{is_of, build_groups-by_account}

abbrev attacker : Text → Text → AvailableAttacker
attacker account name = record {
  champion_user_id = name;
  game_account_id = account;
  game_pseudo = account;
  champion_name = name;
  champion_alias = none;
}

abbrev three : List AvailableAttacker
three =
    attacker (codes "a") (codes "hulk")
    ∷ attacker (codes "b") (codes "thor")
    ∷ attacker (codes "a") (codes "wasp")
    ∷ []

search_thor :
    filter_by_search
      (λ s. s)
      (record {
        available = [];
        player_search = [];
        champion_search = codes "ho";
        loading = false;
        error = false;
      })
      three
    ≡ attacker (codes "b") (codes "thor") ∷ []
unfolding filter_by_search includes starts_with
search_thor = refl

build_groups-by_account_example :
    All (λ g. g.attackers ≡ filter (is_of g.game_account_id) three) (build_groups three)
    × (count (λ g. g.game_account_id == codes "a") (build_groups three) ≡ 1)
unfolding text_beq
build_groups-by_account_example = build_groups-by_account three (codes "a")
