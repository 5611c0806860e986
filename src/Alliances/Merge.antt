-- ===== src/Alliances/Merge.antt =====
-- Which alliances the merge has.
use mawster.Base.{
  ℕ, ◌+◌, Text, List, [], ◌∷◌, some, Bool, true, false, not, ◌&&◌, ◌≡◌, refl, ◌∙◌, text_eq,
  text_beq_iff, any, count, filter, map, count-append, inl, inr, Bool-cases, if◌then◌else◌, arith,
}
use mawster.Alliances.{
  Alliance, AllianceWithVisitorFlag, AllianceSelector, with_flag, has_id, merge, refresh_answered,
}

-- An entry of the given id and flag.
abbrev is_entry : Text → Bool → AllianceWithVisitorFlag → Bool
is_entry id is_visitor a =
    has_id id a.alliance && (if is_visitor then a.is_visitor else not a.is_visitor)

module _ (id : Text) where
  count_same :
      (flag : Bool) (xs : List Alliance)
      → count (is_entry id flag) (map (with_flag flag) xs) ≡ count (has_id id) xs
  count_same true [] = refl
  count_same true (x ∷ xs) = ground (arith, count_same true xs)
  count_same false [] = refl
  count_same false (x ∷ xs) = ground (arith, count_same false xs)

  count_other :
      (flag : Bool) (xs : List Alliance)
      → count (is_entry id flag) (map (with_flag (not flag)) xs) ≡ 0
  count_other true [] = refl
  count_other true (x ∷ xs) = ground (arith, count_other true xs)
  count_other false [] = refl
  count_other false (x ∷ xs) = ground (arith, count_other false xs)

  module _ (member : List Alliance) where
    same_member :
        (a : Alliance) → has_id id a ≡ true → any (has_id a.id) member ≡ any (has_id id) member
    same_member a h = rw ((text_beq_iff a.id id).0 h) refl

    count_visited :
        (visited : List Alliance)
        → count (has_id id) (filter (λ a. not (any (has_id a.id) member)) visited)
          ≡ (if any (has_id id) member then 0 else count (has_id id) visited)
    count_visited [] = ground arith
    count_visited (a ∷ visited) = elim (Bool-cases (has_id id a)) [
      | inl same ↦ ground (arith, count_visited visited, same_member a same)
      | inr other ↦ ground (arith, count_visited visited)
    ]

    -- After both answers: an alliance is listed as one's own as often as among one's alliances, and
    -- as a visited one as often as among the visited ones, unless it is one's own.
    pub refresh_answered_entries :
        (visited : List Alliance) (s : AllianceSelector)
        → (count (is_entry id false) (refresh_answered (some (member, visited)) s).alliances
            ≡ count (has_id id) member)
          × (count (is_entry id true) (refresh_answered (some (member, visited)) s).alliances
              ≡ (if any (has_id id) member then 0 else count (has_id id) visited))
    unfolding refresh_answered merge
    refresh_answered_entries visited s =
        let kept : List Alliance = filter (λ a. not (any (has_id a.id) member)) visited in
        (
          count-append (is_entry id false) (map (with_flag false) member)
                (map (with_flag true) kept)
              ∙ sum_left (count_same false member) (count_other false kept),
          count-append (is_entry id true) (map (with_flag false) member) (map (with_flag true) kept)
              ∙ sum_right (count_other true member) (count_same true kept ∙ count_visited visited),
        )
      where
        sum_left : {a b c : ℕ} → a ≡ c → b ≡ 0 → a + b ≡ c
        sum_left p q = omega arith

        sum_right : {a b c : ℕ} → a ≡ 0 → b ≡ c → a + b ≡ c
        sum_right p q = omega arith
