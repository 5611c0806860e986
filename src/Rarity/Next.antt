-- ===== src/Rarity/Next.antt =====
-- `getNextRarity`: one rank up within the same star level.
use mawster.Base.{
  ◌+◌, ◌*◌, ◌≡◌, refl, Text, [], text_beq, span_digits, Option, none, some, true, arith, text_eq,
  Option-cases, inl, inr, parse_int, to_decimal, parse_int-to_decimal, to_decimal-AreDigits,
  is_empty-to_decimal, opt_map,
}
use mawster.Rarity.{
  ChampionRarity, six_r4, six_r5, seven_r1, seven_r2, seven_r3, seven_r4, seven_r5, seven_r6,
  rarity_text, is_rarity, Matched, match_at, match_rank, match_whole, is_r, next_text,
  get_next_rarity, parse_rarity, rarity_sort_value,
}
use mawster.Rarity.Pattern.{
  match_whole_at, match_at_parts, match_anywhere_of_match_at, match_whole_ignoring_case,
  match_whole_digits,
}

-- A text of the form digits, `r`, digits is read alike by the three readers of rarities.
pub parse_rarity_of_match :
    (r : Text) (m : Matched)
    → match_whole is_r r ≡ some m
    → parse_rarity r ≡ record { stars = parse_int m.stars; rank = parse_int m.rank }
unfolding parse_rarity
parse_rarity_of_match r m h = rw (match_whole_ignoring_case r m h, parse_rarity)

pub rarity_sort_value_of_match :
    (r : Text) (m : Matched)
    → match_whole is_r r ≡ some m
    → rarity_sort_value r ≡ parse_int m.stars * 10 + parse_int m.rank
unfolding rarity_sort_value
rarity_sort_value_of_match r m h =
    rw (match_anywhere_of_match_at is_r r m (match_whole_at is_r r m h), rarity_sort_value)

-- The text one rank up is of that form again.
match_whole-next_text :
    (r : Text) (m : Matched)
    → match_whole is_r r ≡ some m
    → match_whole is_r (next_text m.stars m.rank)
      ≡ some (record { stars = m.stars; rank = to_decimal (parse_int m.rank + 1); rest = [] })
unfolding next_text
match_whole-next_text r m h =
    let (stars, _, full, _) = match_at_parts is_r r m (match_whole_at is_r r m h) in
    match_whole_digits m.stars (to_decimal (parse_int m.rank + 1)) stars (to_decimal-AreDigits _)
      full (is_empty-to_decimal _)

get_next_rarity_inverse :
    (r s : Text)
    → get_next_rarity r ≡ some s
    → (m : Matched) × (match_whole is_r r ≡ some m)
      × (s ≡ next_text m.stars m.rank)
      × (is_rarity s ≡ true)
unfolding get_next_rarity
get_next_rarity_inverse r s h = elim (Option-cases (match_whole is_r r)) [
  | inl no_match ↦ absurd (ground arith)
  | inr (m, matched) ↦ (m, matched, ground arith, ground arith)
]

-- When `getNextRarity` answers, the answer is one of the game's rarities, it has the stars of the
-- rarity given and a rank one higher, and it sorts directly above it.
get_next_rarity_one_up :
    (r s : Text)
    → get_next_rarity r ≡ some s
    → (is_rarity s ≡ true)
      × ((parse_rarity s).stars ≡ (parse_rarity r).stars)
      × ((parse_rarity s).rank ≡ (parse_rarity r).rank + 1)
      × (rarity_sort_value s ≡ rarity_sort_value r + 1)
get_next_rarity_one_up r s h =
    let (m, matched, same, member) = get_next_rarity_inverse r s h in
    let again = match_whole-next_text r m matched in
    (
      member,
      rw (same, parse_rarity_of_match _ _ again, parse_rarity_of_match r m matched),
      rw (same, parse_rarity_of_match _ _ again, parse_rarity_of_match r m matched)
          (parse_int-to_decimal _),
      rw (same, rarity_sort_value_of_match _ _ again, rarity_sort_value_of_match r m matched)
          (omega (arith, parse_int-to_decimal (parse_int m.rank + 1))),
    )

-- The order of ranks within a star level, as the game has it.
abbrev next_rank : ChampionRarity → Option ChampionRarity
next_rank six_r4 = some six_r5
next_rank six_r5 = none
next_rank seven_r1 = some seven_r2
next_rank seven_r2 = some seven_r3
next_rank seven_r3 = some seven_r4
next_rank seven_r4 = some seven_r5
next_rank seven_r5 = some seven_r6
next_rank seven_r6 = none

-- On the game's rarities `getNextRarity` is the next rank of the same star level, and `null` at
-- the highest rank of a level: a 6-star champion never becomes a 7-star one.
get_next_rarity-next_rank :
    (r : ChampionRarity) → get_next_rarity (rarity_text r) ≡ opt_map rarity_text (next_rank r)
unfolding get_next_rarity match_whole match_at match_rank span_digits next_text parse_int to_decimal
    is_rarity text_beq
get_next_rarity-next_rank six_r4 = refl
get_next_rarity-next_rank _ = refl
