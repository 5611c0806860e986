-- ===== src/Rarity/Order.antt =====
-- The orders on rarities: as strings, by `raritySortValue` and by `rarityWeight`.
use mawster.Base.{
  all, ◌&&◌, codes, span_digits, parse_int, Bool, true, List, [], ◌∷◌, Text, ltb, ◌<◌, ◌≡◌, refl,
  ◌↔◌, Text, arith, filter, ltb, parse_int, some, text_lt, span_digits,
}
use mawster.Rarity.{
  ChampionRarity, six_r4, rarity_text, rarities, Matched, match_at, match_rank, match_anywhere,
  match_whole, is_r, rarity_sort_value, rarity_weight, get_upgrade_options,
}
use mawster.Rarity.Next.{parse_rarity_of_match, rarity_sort_value_of_match}

-- `raritySortValue` and `rarityWeight` put two rarities in the same order, where both are of the
-- form stars, `r`, rank with a rank of one digit.
rarity_sort_value-rarity_weight :
    (r s : Text) (m n : Matched)
    → match_whole is_r r ≡ some m
    → match_whole is_r s ≡ some n
    → parse_int m.rank < 10
    → parse_int n.rank < 10
    → (rarity_sort_value r < rarity_sort_value s) ↔ (rarity_weight r < rarity_weight s)
unfolding rarity_weight
rarity_sort_value-rarity_weight r s m n hm hn rm rn =
    rw
      (
        parse_rarity_of_match r m hm,
        parse_rarity_of_match s n hn,
        rarity_sort_value_of_match r m hm,
        rarity_sort_value_of_match s n hn,
      )
      (λ h. omega arith, λ h. omega arith)

-- The upgrades offered for one of the game's rarities are exactly the game's rarities that sort
-- above it, lowest first: the comparison of strings and the numeric order agree there.
get_upgrade_options_above :
    (r : ChampionRarity)
    → get_upgrade_options (rarity_text r)
      ≡ filter (λ o. ltb (rarity_sort_value (rarity_text r)) (rarity_sort_value o)) rarities
unfolding get_upgrade_options text_lt rarity_sort_value match_anywhere match_at match_rank
    span_digits parse_int
get_upgrade_options_above six_r4 = refl
get_upgrade_options_above _ = refl

-- Each rarity is higher than those behind it.
abbrev pub is_descending : List Text → Bool
is_descending [] = true
is_descending (k ∷ ks) =
    all (λ x. ltb (rarity_sort_value x) (rarity_sort_value k)) ks && is_descending ks

-- The rarities of the game, the last one first.
pub rarities-is_descending :
    is_descending (
      codes "7r6"
      ∷ codes "7r5"
      ∷ codes "7r4"
      ∷ codes "7r3"
      ∷ codes "7r2"
      ∷ codes "7r1"
      ∷ codes "6r5"
      ∷ codes "6r4"
      ∷ [])
    ≡ true
unfolding rarity_sort_value match_anywhere match_at match_rank span_digits parse_int
rarities-is_descending = refl
