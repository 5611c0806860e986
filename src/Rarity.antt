-- ===== src/Rarity.antt =====
-- front/app/services/roster.ts (rarities), front/app/game/defense/_components/defense-utils.ts and
-- front/app/game/_components/use-rarity-filter.ts (their parsing and weights).
pub mod Pattern
pub mod Next
pub mod Order
mod Tests
use mawster.Base.{
  ℕ, suc, ◌+◌, ◌*◌, Text, codes, List, [], ◌∷◌, ◌++◌, Option, none, some, Bool, true, false, ◌&&◌,
  ◌||◌, not, ◌==◌, any, filter, is_empty, char_at_0, starts_with, text_lt, text_beq, span_digits,
  parse_int, to_decimal, if◌then◌else◌, ltb, is_digit, map, nat_beq, text_eq, nat_eq,
}

pub data ChampionRarity : Type 0 where
  six_r4 six_r5 seven_r1 seven_r2 seven_r3 seven_r4 seven_r5 seven_r6 : ChampionRarity

-- The enum's values.
abbrev rarity_text : ChampionRarity → Text
rarity_text six_r4 = codes "6r4"
rarity_text six_r5 = codes "6r5"
rarity_text seven_r1 = codes "7r1"
rarity_text seven_r2 = codes "7r2"
rarity_text seven_r3 = codes "7r3"
rarity_text seven_r4 = codes "7r4"
rarity_text seven_r5 = codes "7r5"
rarity_text seven_r6 = codes "7r6"

abbrev all_rarities : List ChampionRarity
all_rarities =
    six_r4 ∷ six_r5 ∷ seven_r1 ∷ seven_r2 ∷ seven_r3 ∷ seven_r4 ∷ seven_r5 ∷ seven_r6 ∷ []

-- `Object.values(ChampionRarity)`
abbrev pub rarities : List Text
rarities = map rarity_text all_rarities

-- `RARITIES.includes(s)`
unfoldable pub is_rarity : Text → Bool
is_rarity s = any (λ r. r == s) rarities

pub record Matched : Type 0 where
  pub stars : Text
  pub rank : Text
  pub rest : Text

-- The part `r(\d+)` of the patterns, behind the digits of the stars.
unfoldable pub match_rank : (ℕ → Bool) → Text → Text → Option Matched
match_rank separator stars [] = none
match_rank separator stars (c ∷ s) =
    let digits = span_digits s in
    if separator c && not (is_empty digits.0)
    then some (record { stars = stars; rank = digits.0; rest = digits.1 })
    else none

-- `(\d+)r(\d+)` from the first character on.
unfoldable pub match_at : (ℕ → Bool) → Text → Option Matched
match_at separator s =
    let digits = span_digits s in
    if is_empty digits.0 then none else match_rank separator digits.0 digits.1

-- `s.match(/(\d+)r(\d+)/)`: the leftmost match.
unfoldable pub match_anywhere : (ℕ → Bool) → Text → Option Matched
match_anywhere separator [] = none
match_anywhere separator (c ∷ s) = elim (match_at separator (c ∷ s)) [
  | some m ↦ some m
  | none ↦ match_anywhere separator s
]

-- A match with nothing behind it.
abbrev whole_of : Option Matched → Option Matched
whole_of none = none
whole_of (some m) = if is_empty m.rest then some m else none

-- `s.match(/^(\d+)r(\d+)$/)`
unfoldable match_whole : (ℕ → Bool) → Text → Option Matched
match_whole separator s = whole_of (match_at separator s)

abbrev is_r : ℕ → Bool
is_r c = c == b'r'

-- The same under the flag `i`.
abbrev is_r_or_R : ℕ → Bool
is_r_or_R c = c == b'r' || c == b'R'

unfoldable get_rank_label : (Text → Text) → Text → Text
get_rank_label to_upper rarity = elim (match_anywhere is_r rarity) [
  | none ↦ to_upper rarity
  | some m ↦ b'R' ∷ m.rank
]

unfoldable pub rarity_sort_value : Text → ℕ
rarity_sort_value rarity = elim (match_anywhere is_r rarity) [
  | none ↦ 0
  | some m ↦ parse_int m.stars * 10 + parse_int m.rank
]

unfoldable next_text : Text → Text → Text
next_text stars rank = stars ++ (b'r' ∷ to_decimal (parse_int rank + 1))

unfoldable pub get_next_rarity : Text → Option Text
unfolding match_whole next_text
get_next_rarity rarity = elim (match_whole is_r rarity) [
  | none ↦ none
  | some m ↦ let next = next_text m.stars m.rank in if is_rarity next then some next else none
]

pub record StarsRank : Type 0 where
  pub stars : ℕ
  pub rank : ℕ

unfoldable parse_rarity : Text → StarsRank
parse_rarity rarity = elim (match_whole is_r_or_R rarity) [
  | none ↦ record { stars = 0; rank = 0 }
  | some m ↦ record { stars = parse_int m.stars; rank = parse_int m.rank }
]

unfoldable rarity_badge_class : Text → Text
rarity_badge_class rarity =
    let p = parse_rarity rarity in
    if p.stars == 7 && p.rank == 6
    then codes "text-yellow-400"
    else if p.stars == 7 && p.rank == 5
    then codes "text-blue-400"
    else if p.stars == 7 && p.rank == 4
    then codes "text-green-400"
    else codes "text-red-400"

unfoldable rarity_weight : Text → ℕ
rarity_weight rarity = let p = parse_rarity rarity in p.stars * 100 + p.rank

-- `matches` of the rarity filter, over the set of active tiers.
unfoldable tier_matches : List Text → Text → Bool
tier_matches active_tiers rarity =
    let p = parse_rarity rarity in
    any (λ t. t == (to_decimal p.stars ++ (b'r' ∷ to_decimal p.rank))) active_tiers

-- `getUpgradeOptions` of front/hooks/use-upgrade-requests.ts: `>` on strings.
unfoldable pub get_upgrade_options : Text → List Text
get_upgrade_options rarity = filter (λ r. text_lt rarity r) rarities
