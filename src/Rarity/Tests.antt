-- ===== src/Rarity/Tests.antt =====
-- Rarities at concrete inputs.
use mawster.Base.{
  ◌≡◌, refl, [], ◌∷◌, codes, some, true, text_beq, span_digits, parse_int, to_decimal,
}
use mawster.Rarity.{
  is_rarity, match_at, match_rank, match_anywhere, match_whole, next_text, get_next_rarity,
  parse_rarity, rarity_sort_value, rarity_badge_class, get_rank_label, tier_matches,
}

next_of_7r4 : get_next_rarity (codes "7r4") ≡ some (codes "7r5")
unfolding get_next_rarity match_whole match_at match_rank span_digits next_text parse_int to_decimal
    is_rarity text_beq
next_of_7r4 = refl

-- A zero in front of the rank is read and dropped.
next_of_7r04 : get_next_rarity (codes "7r04") ≡ some (codes "7r5")
unfolding get_next_rarity match_whole match_at match_rank span_digits next_text parse_int to_decimal
    is_rarity text_beq
next_of_7r04 = refl

sort_value_inside : rarity_sort_value (codes "x7r5y") ≡ 75
unfolding rarity_sort_value match_anywhere match_at match_rank span_digits parse_int
sort_value_inside = refl

capital_r : parse_rarity (codes "7R4") ≡ record { stars = 7; rank = 4 }
unfolding parse_rarity match_whole match_at match_rank span_digits parse_int
capital_r = refl

badge : rarity_badge_class (codes "7r6") ≡ codes "text-yellow-400"
unfolding rarity_badge_class parse_rarity match_whole match_at match_rank span_digits parse_int
badge = refl

rank_label : get_rank_label (λ s. s) (codes "7r5") ≡ codes "R5"
unfolding get_rank_label match_anywhere match_at match_rank span_digits
rank_label = refl

active_tier : tier_matches (codes "7r4" ∷ []) (codes "7R4") ≡ true
unfolding tier_matches parse_rarity match_whole match_at match_rank span_digits parse_int to_decimal
    text_beq
active_tier = refl
