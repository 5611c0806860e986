-- ===== src/Import/Dedup/Last.antt =====
-- What `deduplicateEntries` keeps: for each key the last entry, once.
use mawster.Base.{
  map_set, map_get, map_values, map_get-map_set, ◌≤◌, ◌≡◌, refl, Text, List, [], ◌∷◌, Bool, ◌==◌,
  text_eq, text_beq_iff, find, find_last, count, All, arith, Bool-cases, inl, inr, if◌then◌else◌,
  or_opt, or_opt-none, max, ◌∙◌,
}
use mawster.Import.Dedup.{RosterImportEntry, dedup_key, dedup_from, deduplicate_entries}

module _ (lower : Text → Text) where
  abbrev has_key : Text → RosterImportEntry → Bool
  has_key k e = dedup_key lower e == k

  -- Each value stands under its own key.
  abbrev IsKeyed : List (Text × RosterImportEntry) → Type 0
  IsKeyed m = All (λ p. p.0 ≡ dedup_key lower p.1) m

  map_get_last :
      (k : Text) (m : List (Text × RosterImportEntry)) (entries : List RosterImportEntry)
      → map_get k (dedup_from lower m entries)
        ≡ or_opt (find_last (has_key k) entries) (map_get k m)
  unfolding dedup_from
  map_get_last k m [] = refl
  map_get_last k m (e ∷ entries) = ground (
    arith,
    map_get_last k (map_set (dedup_key lower e) e m) entries,
    map_get-map_set (dedup_key lower e) k e m,
  )

  map_set-IsKeyed :
      (e : RosterImportEntry) (m : List (Text × RosterImportEntry))
      → IsKeyed m
      → IsKeyed (map_set (dedup_key lower e) e m)
  unfolding map_set
  map_set-IsKeyed e [] h = (refl, tt)
  map_set-IsKeyed e ((k, v) ∷ m) h = elim (Bool-cases (k == dedup_key lower e)) [
    | inl same ↦ rw same ((text_beq_iff k _).0 same, h.1)
    | inr other ↦ rw other (h.0, map_set-IsKeyed e m h.1)
  ]

  count-map_set :
      (k : Text) (e : RosterImportEntry) (m : List (Text × RosterImportEntry))
      → IsKeyed m
      → count (has_key k) (map_values (map_set (dedup_key lower e) e m)) ≤ (
          if has_key k e
          then max 1 (count (has_key k) (map_values m))
          else count (has_key k) (map_values m))
  unfolding map_set
  count-map_set k e [] h = ground arith
  count-map_set k e ((j, v) ∷ m) (same, h) = rw same (
      ground (
        arith,
        count-map_set k e m h,
        text_beq_iff (dedup_key lower v) (dedup_key lower e),
        text_beq_iff (dedup_key lower v) k,
        text_beq_iff (dedup_key lower e) k,
      ))

  dedup_from-IsKeyed :
      (m : List (Text × RosterImportEntry)) (entries : List RosterImportEntry)
      → IsKeyed m
      → IsKeyed (dedup_from lower m entries)
  unfolding dedup_from
  dedup_from-IsKeyed m [] h = h
  dedup_from-IsKeyed m (e ∷ entries) h =
      dedup_from-IsKeyed (map_set (dedup_key lower e) e m) entries (map_set-IsKeyed e m h)

  count-dedup_from :
      (k : Text) (m : List (Text × RosterImportEntry)) (entries : List RosterImportEntry)
      → IsKeyed m
      → count (has_key k) (map_values m) ≤ 1
      → count (has_key k) (map_values (dedup_from lower m entries)) ≤ 1
  unfolding dedup_from
  count-dedup_from k m [] h c = c
  count-dedup_from k m (e ∷ entries) h c =
      count-dedup_from k (map_set (dedup_key lower e) e m) entries (map_set-IsKeyed e m h)
        (ground (arith, count-map_set k e m h))

  find-map_values :
      (k : Text) (m : List (Text × RosterImportEntry))
      → IsKeyed m
      → find (has_key k) (map_values m) ≡ map_get k m
  unfolding map_get
  find-map_values k [] h = refl
  find-map_values k ((j, v) ∷ m) h = rw (← h.0) (ground (arith, find-map_values k m h.1))

-- For every key, deduplication keeps at most one entry, and that entry is the last one of the
-- input with that key; a key that the input lacks is not there afterwards either.
pub deduplicate_entries_last :
    (lower : Text → Text) (entries : List RosterImportEntry) (k : Text)
    → (count (λ e. dedup_key lower e == k) (deduplicate_entries lower entries) ≤ 1)
      × (find (λ e. dedup_key lower e == k) (deduplicate_entries lower entries)
          ≡ find_last (λ e. dedup_key lower e == k) entries)
unfolding deduplicate_entries
deduplicate_entries_last lower entries k =
    let keyed = dedup_from-IsKeyed lower [] entries tt in
    (
      count-dedup_from lower k [] entries tt (omega arith),
      find-map_values lower k (dedup_from lower [] entries) keyed
          ∙ (map_get_last lower k [] entries ∙ unfold map_get in or_opt-none _),
    )

-- Deduplication invents nothing: what holds of all entries holds of all that are kept.
module _ {κ} (lower : Text → Text) (P : RosterImportEntry → Type κ) where
  All-map_set :
      (k : Text) (e : RosterImportEntry) (m : List (Text × RosterImportEntry))
      → P e
      → All P (map_values m)
      → All P (map_values (map_set k e m))
  unfolding map_set
  All-map_set k e [] p h = (p, tt)
  All-map_set k e ((j, v) ∷ m) p h = elim (Bool-cases (j == k)) [
    | inl same ↦ rw same (p, h.1)
    | inr other ↦ rw other (h.0, All-map_set k e m p h.1)
  ]

  All-dedup_from :
      (m : List (Text × RosterImportEntry)) (entries : List RosterImportEntry)
      → All P (map_values m)
      → All P entries
      → All P (map_values (dedup_from lower m entries))
  unfolding dedup_from
  All-dedup_from m [] h k = h
  All-dedup_from m (e ∷ entries) h (p, k) =
      All-dedup_from (map_set (dedup_key lower e) e m) entries
        (All-map_set (dedup_key lower e) e m p h) k

  All-deduplicate_entries :
      (entries : List RosterImportEntry) → All P entries → All P (deduplicate_entries lower entries)
  unfolding deduplicate_entries
  All-deduplicate_entries entries h = All-dedup_from [] entries tt h
