-- ===== src/RosterFilters/Inactive.antt =====
-- Filters that are not active show the whole roster.
use mawster.Base.{
  Text, Num, whole, num_lt, List, [], ◌∷◌, Bool, true, false, not, ◌||◌, ◌≡◌, refl, is_empty, All,
  filter, arith, ap, sym,
}
use mathlib.Core.Bool.{false≢true}
use mawster.Roster.{RosterEntry}
use mawster.RosterFilters.{RosterFilters, is_filter_active, apply_roster_filters, is_dropped, trim}

filter-All :
    (p : RosterEntry → Bool) (roster : List RosterEntry)
    → All (λ e. p e ≡ true) roster
    → filter p roster ≡ roster
filter-All p [] h = refl
filter-All p (e ∷ roster) (kept, h) = rw kept (ap (λ es. e ∷ es) (filter-All p roster h))

num_lt_trans : (a b c : Num) → num_lt a b ≡ false → num_lt b c ≡ false → num_lt a c ≡ false
num_lt_trans a b c p q = ground arith

none_of :
    (a b c d e f g h i : Bool)
    → (a || b || c || d || e || f || g || h || i) ≡ false
    → (a ≡ false)
      × (b ≡ false)
      × (c ≡ false)
      × (d ≡ false)
      × (e ≡ false)
      × (f ≡ false)
      × (g ≡ false)
      × (h ≡ false)
      × (i ≡ false)
none_of a b c d e f g h i all_false = ground arith

empty_is_nil : (s : Text) → not (is_empty s) ≡ false → s ≡ []
empty_is_nil [] h = refl
empty_is_nil (c ∷ s) h = absurd (false≢true (sym h))

module _ (lower : Text → Text) (lower_nil : lower [] ≡ []) where
  is_dropped-inactive :
      (f : RosterFilters) (e : RosterEntry)
      → is_filter_active f ≡ false
      → num_lt e.signature (whole 0) ≡ false
      → is_dropped lower f (lower (trim f.name)) e ≡ false
  unfolding is_filter_active
  is_dropped-inactive f e inactive positive =
      let (name, ranks, ascensions, class, attacker, defender, preferred, awakened, signature) =
        none_of _ _ _ _ _ _ _ _ _ inactive in
      let no_name = empty_is_nil (trim f.name) name in
      rw (no_name, lower_nil, ranks, ascensions, class, attacker, defender, preferred, awakened)
        (num_lt_trans e.signature (whole 0) f.min_signature positive signature)

  -- Where isFilterActive says no, the filters show every entry of the roster, provided that no
  -- signature is negative and that lower case keeps the empty string.
  apply_roster_filters-inactive :
      (f : RosterFilters) (roster : List RosterEntry)
      → is_filter_active f ≡ false
      → All (λ e. num_lt e.signature (whole 0) ≡ false) roster
      → apply_roster_filters lower roster f ≡ roster
  unfolding apply_roster_filters
  apply_roster_filters-inactive f roster inactive signatures =
      filter-All (λ e. not (is_dropped lower f (lower (trim f.name)) e)) roster
        (kept roster signatures)
    where
      kept :
          (es : List RosterEntry)
          → All (λ e. num_lt e.signature (whole 0) ≡ false) es
          → All (λ e. not (is_dropped lower f (lower (trim f.name)) e) ≡ true) es
      kept [] h = tt
      kept (e ∷ es) (positive, h) = (ap not (is_dropped-inactive f e inactive positive), kept es h)
