-- ===== src/Rarity/Pattern.antt =====
-- The rarity patterns on texts of the form that they describe.
use mawster.Base.{
  ℕ, ◌≡◌, refl, Text, [], ◌∷◌, ◌++◌, none, some, Bool, false, arith, is_empty, is_digit,
  span_digits, AreDigits, Bool-cases, inl, inr, if◌then◌else◌, nat_eq, span_digits-AreDigits,
}
use mawster.Rarity.{
  Matched, match_rank, match_at, match_anywhere, match_whole, whole_of, is_r, is_r_or_R,
}

span_digits_digits : (s : Text) → AreDigits (span_digits s).0
unfolding span_digits
span_digits_digits [] = tt
span_digits_digits (c ∷ s) = elim (Bool-cases (is_digit c)) [
  | inl digit ↦ rw digit (digit, span_digits_digits s)
  | inr other ↦ rw other tt
]

span_digits-append :
    (s : Text) (c : ℕ) (t : Text)
    → AreDigits s
    → is_digit c ≡ false
    → span_digits (s ++ c ∷ t) ≡ (s, c ∷ t)
unfolding span_digits
span_digits-append [] c t h stop = rw stop
span_digits-append (d ∷ s) c t h stop = rw (h.0, span_digits-append s c t h.1 stop)

match_rank_parts :
    (separator : ℕ → Bool) (stars t : Text) (m : Matched)
    → match_rank separator stars t ≡ some m
    → (m.stars ≡ stars) × AreDigits m.rank × (is_empty m.rank ≡ false)
unfolding match_rank
match_rank_parts separator stars [] m h = absurd (ground arith)
match_rank_parts separator stars (c ∷ t) m h =
    let e : m.rank ≡ (span_digits t).0 = ground arith in
    (ground arith, rw e (span_digits_digits t), ground arith)

-- What a match says of its parts.
pub match_at_parts :
    (separator : ℕ → Bool) (s : Text) (m : Matched)
    → match_at separator s ≡ some m
    → AreDigits m.stars × AreDigits m.rank × (is_empty m.stars ≡ false) × (is_empty m.rank ≡ false)
unfolding match_at
match_at_parts separator s m h = elim (Bool-cases (is_empty (span_digits s).0)) [
  | inl empty ↦ absurd (ground arith)
  | inr full ↦
      let (same, digits, ne) =
        match_rank_parts separator (span_digits s).0 (span_digits s).1 m (ground arith) in
      (rw same (span_digits_digits s), digits, rw same full, ne)
]

-- A match that begins at the first character is the leftmost one.
pub match_anywhere_of_match_at :
    (separator : ℕ → Bool) (s : Text) (m : Matched)
    → match_at separator s ≡ some m
    → match_anywhere separator s ≡ some m
unfolding match_anywhere
match_anywhere_of_match_at separator [] m h = unfold match_at match_rank span_digits in ground arith
match_anywhere_of_match_at separator (c ∷ s) m h = rw (h, match_anywhere)

pub match_whole_at :
    (separator : ℕ → Bool) (s : Text) (m : Matched)
    → match_whole separator s ≡ some m
    → match_at separator s ≡ some m
unfolding match_whole
match_whole_at separator s m h = ground arith

-- The flag `i` accepts what the pattern accepts without it.
pub match_whole_ignoring_case :
    (s : Text) (m : Matched) → match_whole is_r s ≡ some m → match_whole is_r_or_R s ≡ some m
unfolding match_whole match_at match_rank
match_whole_ignoring_case s m h = go (span_digits s).0 (span_digits s).1 h
  where
    go :
        (stars t : Text)
        → whole_of (if is_empty stars then none else match_rank is_r stars t) ≡ some m
        → whole_of (if is_empty stars then none else match_rank is_r_or_R stars t) ≡ some m
    go [] t e = ground arith
    go (c ∷ stars) [] e = ground arith
    go (c ∷ stars) (d ∷ t) e = ground arith

-- Digits, `r`, digits: the pattern matches and gives them back.
pub match_whole_digits :
    (stars rank : Text)
    → AreDigits stars
    → AreDigits rank
    → is_empty stars ≡ false
    → is_empty rank ≡ false
    → match_whole is_r (stars ++ b'r' ∷ rank)
      ≡ some (record { stars = stars; rank = rank; rest = [] })
unfolding match_whole match_at match_rank
match_whole_digits stars rank hs hr es er =
    ground (arith, span_digits-append stars b'r' rank hs refl, span_digits-AreDigits rank hr)
