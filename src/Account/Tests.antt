-- ===== src/Account/Tests.antt =====
-- The roster page at concrete inputs.
use mawster.Base.{
  resolved, Text, whole, List, [], ◌∷◌, none, some, true, false, ◌≡◌, refl, codes, count, all,
  text_beq, ◌⊎◌, ◌&&◌,
}
use mawster.Roster.{RosterEntry}
use mawster.Rarity.{is_rarity}
use mawster.Rarity.Order.{is_descending}
use mawster.RosterFilters.{empty_filters, apply_roster_filters}
use mawster.Account.{GameAccount, MasteryUpsertItem, RosterPage, active_tab, accounts_tab}
use mawster.Account.Loading.{fetch_accounts_answered, is_listed}
use mawster.Account.Loading.Selected.{fetch_accounts_answered_selects}
use mawster.Account.Masteries.{unlocked, attack}
use mawster.Account.Masteries.Fitting.{IsForm}
use mawster.Account.Masteries.Edits.{Edit, edit_all, edit_all-IsForm}
use mawster.Account.Groups.{grouped_roster}
use mawster.Account.Groups.Partition.{entries_of, is_group, rarities_of, grouped_roster_partition}

abbrev champion : Text → Text → RosterEntry
champion name rarity = record {
  id = name;
  game_account_id = codes "g";
  champion_id = name;
  rarity = rarity;
  signature = whole 20;
  champion_name = name;
  champion_class = codes "Science";
  alias = none;
  image_url = none;
  is_preferred_attacker = false;
  ascension = none;
  is_ascendable = false;
  has_prefight = false;
  is_saga_attacker = false;
  is_saga_defender = false;
}

abbrev item : MasteryUpsertItem
item = record { mastery_id = codes "m"; unlocked = whole 3; attack = whole 2; defense = whole 1 }

abbrev page : RosterPage
page = record {
  accounts = [];
  selected_account_id = some (codes "gone");
  loading_accounts = true;
  tab = none;
  masteries = [];
  mastery_form = item ∷ [];
  loading_masteries = false;
  saving_masteries = false;
  roster = champion (codes "Hulk") (codes "6r5") ∷ champion (codes "Thor") (codes "7r2") ∷ [];
  loading_roster = false;
  show_add_form = false;
  edit_entry = none;
  delete_target = none;
  upgrade_target = none;
  ascend_target = none;
  upgrade_refresh_key = 0;
  failure = none;
  filters = empty_filters;
  toasts = [];
}

abbrev accounts : List GameAccount
accounts =
    record { id = codes "a"; game_pseudo = codes "A"; is_primary = false }
    ∷ record { id = codes "b"; game_pseudo = codes "B"; is_primary = true }
    ∷ []

abbrev loaded : RosterPage
loaded = fetch_accounts_answered (resolved accounts) page

fetch_accounts_answered_selects_example :
    ((is_listed accounts loaded.selected_account_id ≡ true)
      ⊎ (accounts ≡ []) × (loaded.selected_account_id ≡ none) × (active_tab loaded ≡ accounts_tab))
    × (fetch_accounts_answered (resolved accounts) loaded ≡ loaded)
fetch_accounts_answered_selects_example =
    fetch_accounts_answered_selects accounts page loaded (refl, (refl, tt)) refl

abbrev edits : List Edit
edits =
    record { mastery_id = codes "m"; field = unlocked; value = whole 1 }
    ∷ record { mastery_id = codes "m"; field = attack; value = whole 9 }
    ∷ []

edit_all-IsForm_example : IsForm (λ id. whole 5) (edit_all (λ id. whole 5) edits page).mastery_form
unfolding text_beq
edit_all-IsForm_example =
    edit_all-IsForm (λ id. whole 5) edits page (λ id. refl)
      (record {
        fitting = (
          record {
            attack_floor = refl;
            attack_bound = refl;
            defense_floor = refl;
            defense_bound = refl;
            unlocked_floor = refl;
            unlocked_bound = refl;
          },
          tt,
        );
        alike = (refl, tt);
      })

grouped_roster_partition_example :
    (count (λ r. true) (entries_of (grouped_roster (λ t. t) page))
      ≡ count
          (λ r. true && is_rarity r.rarity)
          (apply_roster_filters (λ t. t) page.roster page.filters))
    × (all is_group (grouped_roster (λ t. t) page) ≡ true)
    × (is_descending (rarities_of (grouped_roster (λ t. t) page)) ≡ true)
grouped_roster_partition_example = grouped_roster_partition (λ t. t) (λ r. true) page
