-- ===== src/RosterFilters.antt =====
-- front/components/roster/roster-filters.ts: the filters of the roster. `toLowerCase` is an
-- argument.
pub mod Inactive
pub mod Trimmed
mod Tests
use mawster.Base.{
  ℕ, Text, Num, whole, num_lt, num_eq, List, [], ◌∷◌, Option, none, some, Bool, true, false, not,
  ◌&&◌, ◌||◌, ◌==◌, ◌!=◌, text_eq, leb, nat_eq, codes, any, filter, is_empty, includes,
  if◌then◌else◌,
}
use mawster.Roster.{RosterEntry}

pub record RosterFilters : Type 0 where
  pub name : Text
  pub ranks : List Text
  pub ascensions : List Num
  pub champion_class : Text
  pub saga_attacker : Bool
  pub saga_defender : Bool
  pub preferred_attacker : Bool
  pub awakened : Bool
  pub min_signature : Num

abbrev rank_options : List Text
rank_options =
    codes "7r1" ∷ codes "7r2" ∷ codes "7r3" ∷ codes "7r4" ∷ codes "7r5" ∷ codes "7r6" ∷ []

abbrev ascension_options : List Num
ascension_options = whole 0 ∷ whole 1 ∷ whole 2 ∷ []

abbrev pub empty_filters : RosterFilters
empty_filters = record {
  name = [];
  ranks = [];
  ascensions = [];
  champion_class = [];
  saga_attacker = false;
  saga_defender = false;
  preferred_attacker = false;
  awakened = false;
  min_signature = whole 0;
}

-- White space and line ends, as `trim` has them.
abbrev is_space : ℕ → Bool
is_space c =
    (leb 9 c && leb c 13)
    || c == 32
    || c == 160
    || c == 5760
    || (leb 8192 c && leb c 8202)
    || c == 8232
    || c == 8233
    || c == 8239
    || c == 8287
    || c == 12288
    || c == 65279

abbrev trim_start : Text → Text
trim_start [] = []
trim_start (c ∷ s) = let rest = trim_start s in if is_space c then rest else c ∷ s

abbrev trim_end : Text → Text
trim_end [] = []
trim_end (c ∷ s) = let rest = trim_end s in if is_space c && is_empty rest then [] else c ∷ rest

unfoldable pub trim : Text → Text
trim s = trim_end (trim_start s)

unfoldable is_filter_active : RosterFilters → Bool
is_filter_active f =
    not (is_empty (trim f.name))
    || not (is_empty f.ranks)
    || not (is_empty f.ascensions)
    || not (is_empty f.champion_class)
    || f.saga_attacker
    || f.saga_defender
    || f.preferred_attacker
    || f.awakened
    || num_lt (whole 0) f.min_signature

-- `ascensions.includes(e.ascension)`
abbrev has_ascension : List Num → Option Num → Bool
has_ascension ascensions none = false
has_ascension ascensions (some ascension) = any (λ a. a == ascension) ascensions

module _ (lower : Text → Text) where
  -- `alias?.toLowerCase().includes(q) ?? false`
  abbrev alias_includes : Text → Option Text → Bool
  alias_includes q none = false
  alias_includes q (some alias) = includes (lower alias) q

  -- The tests that drop an entry, in their order.
  abbrev is_dropped : RosterFilters → Text → RosterEntry → Bool
  is_dropped f q e =
      (not (is_empty q)
        && not (includes (lower e.champion_name) q)
        && not (alias_includes q e.alias))
      || (not (is_empty f.ranks) && not (any (λ r. r == e.rarity) f.ranks))
      || (not (is_empty f.ascensions) && not (has_ascension f.ascensions e.ascension))
      || (not (is_empty f.champion_class) && e.champion_class != f.champion_class)
      || (f.saga_attacker && not e.is_saga_attacker)
      || (f.saga_defender && not e.is_saga_defender)
      || (f.preferred_attacker && not e.is_preferred_attacker)
      || (f.awakened && not (num_lt (whole 0) e.signature))
      || num_lt e.signature f.min_signature

  unfoldable pub apply_roster_filters : List RosterEntry → RosterFilters → List RosterEntry
  unfolding trim
  apply_roster_filters roster f =
      let q = lower (trim f.name) in filter (λ e. not (is_dropped f q e)) roster
