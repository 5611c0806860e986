-- ===== src/Import/Dedup.antt =====
-- `deduplicateEntries`, over a `Map`.
pub mod Last
use mawster.Base.{
  map_set, map_values, Text, Num, List, [], ◌∷◌, ◌++◌, Option, none, some, Bool, if◌then◌else◌,
  ◌==◌, text_eq, map, char_at_0, codes,
}

-- `is_preferred_attacker` is optional: a vision import has no opinion on it.
pub record RosterImportEntry : Type 0 where
  pub champion_name : Text
  pub rarity : Text
  pub signature : Num
  pub is_preferred_attacker : Option Bool
  pub ascension : Num

-- `toLowerCase` is the runtime's, with its Unicode tables: a parameter of all that use it.
module _ (lower : Text → Text) where
  unfoldable pub dedup_key : RosterImportEntry → Text
  dedup_key entry = lower entry.champion_name ++ (b'_' ∷ char_at_0 entry.rarity)

  -- The loop; `deduped` is the map so far.
  unfoldable pub dedup_from :
      List (Text × RosterImportEntry) → List RosterImportEntry → List (Text × RosterImportEntry)
  dedup_from deduped [] = deduped
  dedup_from deduped (entry ∷ entries) =
      dedup_from (map_set (dedup_key entry) entry deduped) entries

  unfoldable pub deduplicate_entries : List RosterImportEntry → List RosterImportEntry
  deduplicate_entries entries = map_values (dedup_from [] entries)
