-- ===== src/Account/Groups/Partition.antt =====
-- What the groups hold, and in which order.
use mathlib.Core.Path.{fun_ext}
use mawster.Base.{
  ◌+◌, Text, List, [], ◌∷◌, ◌++◌, Bool, true, false, not, ◌&&◌, ◌||◌, ◌≡◌, refl, sym, ap, ◌∙◌,
  is_empty, any, all, filter, count, count-append, map, ltb, ◌==◌, text_eq, text_beq, text_beq_iff,
  if◌then◌else◌, Bool-cases, inl, inr, arith,
}
use mawster.Roster.{RosterEntry}
use mawster.RosterFilters.{apply_roster_filters}
use mawster.Rarity.{rarities, is_rarity, rarity_sort_value}
use mawster.Rarity.Order.{is_descending, rarities-is_descending}
use mawster.Account.{RosterPage}
use mawster.Account.Groups.{is_of, reverse, RosterGroup, group_by, grouped_roster}

unfoldable pub entries_of : List RosterGroup → List RosterEntry
entries_of [] = []
entries_of (g ∷ groups) = g.entries ++ entries_of groups

-- No text stands twice.
abbrev distinct : List Text → Bool
distinct [] = true
distinct (k ∷ ks) = not (any (λ x. k == x) ks) && distinct ks

count-filter_or :
    (q : RosterEntry → Bool) (k : Text) (ks : List Text) (roster : List RosterEntry)
    → any (λ x. k == x) ks ≡ false
    → count (λ r. q r && any (λ x. r.rarity == x) (k ∷ ks)) roster
      ≡ count q (filter (is_of k) roster) + count (λ r. q r && any (λ x. r.rarity == x) ks) roster
count-filter_or q k ks [] new = refl
count-filter_or q k ks (r ∷ roster) new = elim (Bool-cases (r.rarity == k)) [
  | inl here ↦
      let other = ap (λ k. any (λ x. k == x) ks) ((text_beq_iff r.rarity k).0 here) ∙ new in
      ground (arith, here, other, count-filter_or q k ks roster new)
  | inr elsewhere ↦ ground (arith, elsewhere, count-filter_or q k ks roster new)
]

abbrev cons_group : Text → List RosterEntry → List RosterGroup → List RosterGroup
cons_group k es groups =
    if is_empty es then groups else record { rarity = k; entries = es } ∷ groups

entries_of-cons_group :
    (k : Text) (es : List RosterEntry) (groups : List RosterGroup)
    → entries_of (cons_group k es groups) ≡ es ++ entries_of groups
unfolding entries_of
entries_of-cons_group k [] groups = refl
entries_of-cons_group k (e ∷ es) groups = refl

count-nothing :
    (q : RosterEntry → Bool) (roster : List RosterEntry) → count (λ r. q r && false) roster ≡ 0
count-nothing q [] = refl
count-nothing q (r ∷ roster) = ground (arith, count-nothing q roster)

count-entries_of :
    (q : RosterEntry → Bool) (ks : List Text) (roster : List RosterEntry)
    → distinct ks ≡ true
    → count q (entries_of (group_by roster ks))
      ≡ count (λ r. q r && any (λ x. r.rarity == x) ks) roster
unfolding entries_of group_by
count-entries_of q [] roster d = sym (count-nothing q roster)
count-entries_of q (k ∷ ks) roster d =
    ap (count q) (entries_of-cons_group k (filter (is_of k) roster) (group_by roster ks))
    ∙ count-append q (filter (is_of k) roster) (entries_of (group_by roster ks))
    ∙ ap (λ n. count q (filter (is_of k) roster) + n) (count-entries_of q ks roster (ground arith))
    ∙ sym (count-filter_or q k ks roster (ground arith))

-- A group has entries, and they have its rarity.
abbrev pub is_group : RosterGroup → Bool
is_group g = not (is_empty g.entries) && all (is_of g.rarity) g.entries

all-filter : {A : Type 0} (p : A → Bool) (xs : List A) → all p (filter p xs) ≡ true
all-filter p [] = refl
all-filter p (x ∷ xs) = ground (arith, all-filter p xs)

all-cons_group :
    (k : Text) (es : List RosterEntry) (groups : List RosterGroup)
    → all (is_of k) es ≡ true
    → all is_group groups ≡ true
    → all is_group (cons_group k es groups) ≡ true
all-cons_group k [] groups he hg = hg
all-cons_group k (e ∷ es) groups he hg = ground arith

abbrev pub rarities_of : List RosterGroup → List Text
rarities_of groups = map (λ g. g.rarity) groups

all-rarities_of :
    (p : Text → Bool) (ks : List Text) (roster : List RosterEntry)
    → all p ks ≡ true
    → all p (rarities_of (group_by roster ks)) ≡ true
unfolding group_by
all-rarities_of p [] roster h = refl
all-rarities_of p (k ∷ ks) roster h = elim (Bool-cases (is_empty (filter (is_of k) roster))) [
  | inl empty ↦ rw empty (all-rarities_of p ks roster (ground arith))
  | inr full ↦
      let rest = all-rarities_of p ks roster (ground arith) in rw full (ground (arith, rest))
]

group_by-is_group :
    (ks : List Text) (roster : List RosterEntry) → all is_group (group_by roster ks) ≡ true
unfolding group_by
group_by-is_group [] roster = refl
group_by-is_group (k ∷ ks) roster =
    all-cons_group k (filter (is_of k) roster) (group_by roster ks) (all-filter (is_of k) roster)
      (group_by-is_group ks roster)

is_descending-rarities_of :
    (ks : List Text) (roster : List RosterEntry)
    → is_descending ks ≡ true
    → is_descending (rarities_of (group_by roster ks)) ≡ true
unfolding group_by
is_descending-rarities_of [] roster h = refl
is_descending-rarities_of (k ∷ ks) roster h =
    let rest = is_descending-rarities_of ks roster (ground arith) in
    elim (Bool-cases (is_empty (filter (is_of k) roster))) [
      | inl empty ↦ rw empty rest
      | inr full ↦
          let below =
            all-rarities_of (λ x. ltb (rarity_sort_value x) (rarity_sort_value k)) ks roster
              (ground arith) in
          rw full (ground (arith, rest, below))
    ]

eq_comm : (a b : Text) → (a == b) ≡ (b == a)
eq_comm a b = ground (arith, text_beq_iff a b, text_beq_iff b a)

any-append : (p : Text → Bool) (xs ys : List Text) → any p (xs ++ ys) ≡ any p xs || any p ys
any-append p [] ys = refl
any-append p (x ∷ xs) ys = ground (arith, any-append p xs ys)

any-reverse : (p : Text → Bool) (ks : List Text) → any p (reverse ks) ≡ any p ks
any-reverse p [] = refl
any-reverse p (k ∷ ks) = any-append p (reverse ks) (k ∷ []) ∙ ground (arith, any-reverse p ks)

rarities-distinct : distinct (reverse rarities) ≡ true
unfolding text_beq
rarities-distinct = refl

is_rarity-any : (r : Text) → any (λ x. r == x) (reverse rarities) ≡ is_rarity r
unfolding is_rarity
is_rarity-any r =
    any-reverse (λ x. r == x) rarities ∙ ap (λ p. any p rarities) (fun_ext (λ x. eq_comm r x))

-- The groups of the roster hold each entry that the filters keep and whose rarity is one of the
-- game once, and nothing else; no group is empty, the entries of a group have its rarity, and each
-- group sorts above those behind it.
pub grouped_roster_partition :
    (lower : Text → Text) (q : RosterEntry → Bool) (s : RosterPage)
    → (count q (entries_of (grouped_roster lower s))
        ≡ count (λ r. q r && is_rarity r.rarity) (apply_roster_filters lower s.roster s.filters))
      × (all is_group (grouped_roster lower s) ≡ true)
      × (is_descending (rarities_of (grouped_roster lower s)) ≡ true)
unfolding grouped_roster
grouped_roster_partition lower q s =
    let kept = apply_roster_filters lower s.roster s.filters in
    (
      count-entries_of q (reverse rarities) kept rarities-distinct
          ∙ ap (λ p. count p kept) (fun_ext (λ r. ap (λ b. q r && b) (is_rarity-any r.rarity))),
      group_by-is_group (reverse rarities) kept,
      is_descending-rarities_of (reverse rarities) kept rarities-is_descending,
    )
