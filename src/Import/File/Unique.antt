-- ===== src/Import/File/Unique.antt =====
-- Deduplication leaves entries with distinct keys alone; the keys of exported entries are distinct
-- where the roster has one entry per champion and star level.
use mawster.Base.{
  map_set, map_values, ℕ, ◌≤◌, Text, List, [], ◌∷◌, ◌++◌, Bool, true, false, ◌≡◌, refl, sym, ◌∙◌,
  ap, arith, All, count, count-append, ◌==◌, nat_eq, text_eq, text_beq_iff, beq_refl, map, inl, inr,
  append-nil, append_assoc, find, find_holds, count-find-none, In-find, count-map, count_mono,
  All-In, In-All, Option-cases, starts_with, char_at_0,
}
use native.Mathlib.Nat.{le_trans}
use mawster.Roster.{RosterEntry}
use mawster.Import.Dedup.{RosterImportEntry, dedup_key, dedup_from, deduplicate_entries}
use mawster.Import.Preview.{same_slot}
use mawster.Import.Json.{is_importable}
use mawster.Import.File.{to_export}

module _ (lower : Text → Text) where
  abbrev pub has_key : Text → RosterImportEntry → Bool
  has_key k e = dedup_key lower e == k

  -- Each stored value stands under its own key.
  abbrev IsKeyed : List (Text × RosterImportEntry) → Type 0
  IsKeyed m = All (λ p. p.0 ≡ dedup_key lower p.1) m

  map_set_absent :
      (e : RosterImportEntry) (m : List (Text × RosterImportEntry))
      → IsKeyed m
      → count (has_key (dedup_key lower e)) (map_values m) ≡ 0
      → map_set (dedup_key lower e) e m ≡ m ++ (dedup_key lower e, e) ∷ []
  unfolding map_set
  map_set_absent e [] h c = refl
  map_set_absent e ((k, v) ∷ m) (same, h) c =
      let differs : (k == dedup_key lower e) ≡ false = rw same (ground arith) in
      let rest : count (has_key (dedup_key lower e)) (map_values m) ≡ 0 = ground arith in
      rw (differs, map_set_absent e m h rest)

  map_values-append :
      (m n : List (Text × RosterImportEntry)) → map_values (m ++ n) ≡ map_values m ++ map_values n
  map_values-append [] n = refl
  map_values-append ((k, v) ∷ m) n = ap (◌∷◌ v) (map_values-append m n)

  IsKeyed-append :
      (e : RosterImportEntry) (m : List (Text × RosterImportEntry))
      → IsKeyed m
      → IsKeyed (m ++ (dedup_key lower e, e) ∷ [])
  IsKeyed-append e [] h = (refl, tt)
  IsKeyed-append e (p ∷ m) h = (h.0, IsKeyed-append e m h.1)

  -- No key stands twice.
  abbrev IsDistinct : List RosterImportEntry → Type 0
  IsDistinct entries = (k : Text) → count (has_key k) entries ≤ 1

  absent_of_IsDistinct :
      (e : RosterImportEntry) (xs ys : List RosterImportEntry)
      → IsDistinct (xs ++ e ∷ ys)
      → count (has_key (dedup_key lower e)) xs ≡ 0
  absent_of_IsDistinct e xs ys d = ground (
    arith,
    d (dedup_key lower e),
    count-append (has_key (dedup_key lower e)) xs (e ∷ ys),
    beq_refl (dedup_key lower e),
  )

  dedup_from_distinct :
      (m : List (Text × RosterImportEntry)) (entries : List RosterImportEntry)
      → IsKeyed m
      → IsDistinct (map_values m ++ entries)
      → map_values (dedup_from lower m entries) ≡ map_values m ++ entries
  unfolding dedup_from
  dedup_from_distinct m [] h d = sym (append-nil _)
  dedup_from_distinct m (e ∷ entries) h d =
      let absent = absent_of_IsDistinct e (map_values m) entries d in
      let longer : map_values (m ++ (dedup_key lower e, e) ∷ []) ++ entries
          ≡ map_values m ++ e ∷ entries =
        ap (λ l. l ++ entries) (map_values-append m _)
        ∙ append_assoc (map_values m) (e ∷ []) entries in
      rw (map_set_absent e m h absent) (
        dedup_from_distinct (m ++ (dedup_key lower e, e) ∷ []) entries (IsKeyed-append e m h)
          (λ k. rw longer (d k))
        ∙ longer)

  pub deduplicate_entries_distinct :
      (entries : List RosterImportEntry)
      → IsDistinct entries
      → deduplicate_entries lower entries ≡ entries
  unfolding deduplicate_entries
  deduplicate_entries_distinct entries d = dedup_from_distinct [] entries tt d

concat-injective :
    (s t : Text) (a b : ℕ) → s ++ (b'_' ∷ a ∷ []) ≡ t ++ (b'_' ∷ b ∷ []) → (s ≡ t) × (a ≡ b)
concat-injective [] [] a b h = (refl, cc)
concat-injective [] (c ∷ []) a b h = absurd (cc)
concat-injective [] (c ∷ d ∷ []) a b h = absurd (cc)
concat-injective [] (c ∷ d ∷ e ∷ t) a b h = absurd (cc)
concat-injective (c ∷ []) [] a b h = absurd (cc)
concat-injective (c ∷ d ∷ []) [] a b h = absurd (cc)
concat-injective (c ∷ d ∷ e ∷ s) [] a b h = absurd (cc)
concat-injective (c ∷ s) (d ∷ t) a b h =
    let (same, last) = concat-injective s t a b (cc) in (cc, last)

-- A rarity that the importer knows begins with the digit of its star level.
stars_of_importable :
    (rarity : Text) → is_importable rarity ≡ true → (c : ℕ) × (char_at_0 rarity ≡ c ∷ [])
unfolding is_importable
stars_of_importable [] h = cc
stars_of_importable (c ∷ s) h = (c, refl)

pub starts_with_same : (s t : Text) → char_at_0 s ≡ char_at_0 t → starts_with s (char_at_0 t) ≡ true
unfolding starts_with
starts_with_same [] [] h = refl
starts_with_same [] (d ∷ t) h = cc
starts_with_same (c ∷ s) [] h = refl
starts_with_same (c ∷ s) (d ∷ t) h = ground arith

module _ (lower : Text → Text) where
  -- Entries with one key stand in one slot of the roster.
  same_slot_of_key :
      (r q : RosterEntry)
      → is_importable r.rarity ≡ true
      → is_importable q.rarity ≡ true
      → dedup_key lower (to_export q) ≡ dedup_key lower (to_export r)
      → same_slot lower r.champion_name r.rarity q ≡ true
  unfolding dedup_key to_export
  same_slot_of_key r q hr hq same =
      let (a, at_a) = stars_of_importable r.rarity hr in
      let (b, at_b) = stars_of_importable q.rarity hq in
      let (names, stars) =
        concat-injective (lower q.champion_name) (lower r.champion_name) b a (cc) in
      ground (
        arith,
        text_beq_iff (lower q.champion_name) (lower r.champion_name),
        starts_with_same q.rarity r.rarity,
      )

  -- The roster has at most one entry per champion and star level.
  abbrev pub IsUnique : List RosterEntry → Type 0
  IsUnique roster = All (λ r. count (same_slot lower r.champion_name r.rarity) roster ≤ 1) roster

  pub map-to_export-IsDistinct :
      (roster : List RosterEntry)
      → All (λ r. is_importable r.rarity ≡ true) roster
      → IsUnique roster
      → IsDistinct lower (map to_export roster)
  map-to_export-IsDistinct roster known unique k =
      let p : RosterEntry → Bool = λ r. has_key lower k (to_export r) in
      rw (count-map (has_key lower k) to_export roster) (elim (Option-cases (find p roster)) [
        | inl none_found ↦ omega (arith, count-find-none p roster none_found)
        | inr (r, found) ↦
            let m = In-find p r roster found in
            let key_r = (text_beq_iff _ k).0 (find_holds p roster r found) in
            le_trans
              (count_mono p (same_slot lower r.champion_name r.rarity) roster (
                All-In _ roster (λ q mq h.
                  same_slot_of_key r q (In-All _ r roster known m) (In-All _ q roster known mq)
                    ((text_beq_iff _ k).0 h ∙ sym key_r))))
              (In-All _ r roster unique m)
      ])
