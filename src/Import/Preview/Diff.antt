-- ===== src/Import/Preview/Diff.antt =====
-- The diff of a preview row and the payload built from it agree.
use mawster.Base.{
  Text, List, [], ◌∷◌, none, some, true, false, arith, ◌≡◌, ◌↔◌, text_eq, text_beq_iff, or_else,
  whole, sym, ◌∙◌, Option-cases, Bool-cases, inl, inr, map, All,
}
use mathlib.Core.Path.{subst}
use mawster.Roster.{RosterEntry, BulkChampionEntry}
use mawster.Import.Dedup.{RosterImportEntry}
use mawster.Import.Preview.{
  PreviewRow, ChampionLookup, differs, find_roster_match, build_preview_row,
}
use mawster.Import.Execute.{is_sent, to_bulk, champions_of}

-- The write would leave the roster entry as it is.
abbrev Agrees : RosterEntry → BulkChampionEntry → Type 0
Agrees r b =
    (b.rarity ≡ r.rarity)
    × (b.signature ≡ r.signature)
    × (b.is_preferred_attacker ≡ r.is_preferred_attacker)
    × (b.ascension ≡ or_else r.ascension (whole 0))

-- The roster has an entry where the write lands, and the write changes nothing of it.
abbrev pub IsRedundant : (Text → Text) → List RosterEntry → BulkChampionEntry → Type 0
IsRedundant lower roster b =
    (r : RosterEntry) × (find_roster_match lower roster b.champion_name b.rarity ≡ some r)
    × Agrees r b

-- `hasChanges` is false exactly where each field that is written has its value already.
differs-eq-false :
    (r : RosterEntry) (e : RosterImportEntry)
    → (differs r e ≡ false) ↔ (
        (e.rarity ≡ r.rarity)
        × (e.signature ≡ r.signature)
        × (or_else e.is_preferred_attacker r.is_preferred_attacker ≡ r.is_preferred_attacker)
        × (e.ascension ≡ or_else r.ascension (whole 0)))
unfolding differs
differs-eq-false r e = (
  λ h. ground (arith, text_beq_iff r.rarity e.rarity),
  λ h. ground (arith, text_beq_iff r.rarity e.rarity),
)

module _ (lower : Text → Text) (roster : List RosterEntry) (lookup : ChampionLookup) where
  module _ (e : RosterImportEntry) where
    abbrev row : PreviewRow
    row = build_preview_row lower e roster lookup

    is_sent-new :
        find_roster_match lower roster e.champion_name e.rarity ≡ none → is_sent row ≡ true
    unfolding build_preview_row
    is_sent-new missing = rw missing

    is_sent-existing :
        (r : RosterEntry)
        → find_roster_match lower roster e.champion_name e.rarity ≡ some r
        → is_sent row ≡ differs r e
    unfolding build_preview_row
    is_sent-existing r found = rw found

    Agrees-differs :
        (r : RosterEntry)
        → find_roster_match lower roster e.champion_name e.rarity ≡ some r
        → (differs r e ≡ false) ↔ Agrees r (to_bulk lower roster row)
    unfolding build_preview_row to_bulk
    Agrees-differs r found = rw found (differs-eq-false r e)

  -- A preview row is left out of the import exactly when writing it would be redundant: the
  -- roster has an entry of that champion and star level, and the payload built from the row has
  -- that entry's rarity, signature, preferred flag and ascension.
  pub is_sent-IsRedundant :
      (e : RosterImportEntry)
      → (is_sent (build_preview_row lower e roster lookup) ≡ false)
        ↔ IsRedundant lower roster (to_bulk lower roster (build_preview_row lower e roster lookup))
  unfolding build_preview_row to_bulk
  is_sent-IsRedundant e =
      elim (Option-cases (find_roster_match lower roster e.champion_name e.rarity)) [
        | inl missing ↦ (λ h. absurd (cc (is_sent-new e missing)), λ (r, found, _). absurd (cc))
        | inr (r, found) ↦ (
          λ h. (r, found, (Agrees-differs e r found).0 (sym (is_sent-existing e r found) ∙ h)),
          λ (q, at_q, agrees).
              let same : q ≡ r = cc in
              is_sent-existing e r found
              ∙ (Agrees-differs e r found).1
                  (subst (λ x. Agrees x (to_bulk lower roster (row e))) same agrees),
        )
      ]

-- An import from a screenshot has no opinion on the preferred flag: where it updates a champion
-- of the roster it writes back the flag that the roster holds.
to_bulk-keeps_flag :
    (lower : Text → Text) (roster : List RosterEntry) (lookup : ChampionLookup)
    (e : RosterImportEntry) (r : RosterEntry)
    → e.is_preferred_attacker ≡ none
    → find_roster_match lower roster e.champion_name e.rarity ≡ some r
    → (to_bulk lower roster (build_preview_row lower e roster lookup)).is_preferred_attacker
      ≡ r.is_preferred_attacker
unfolding build_preview_row to_bulk
to_bulk-keeps_flag lower roster lookup e r quiet found = rw (quiet, found)

module _ (lower : Text → Text) (roster : List RosterEntry) (lookup : ChampionLookup) where
  abbrev build : RosterImportEntry → PreviewRow
  build e = build_preview_row lower e roster lookup

  -- No write of an import is redundant: whatever is sent for the rows of some entries is for a
  -- champion that the roster lacks at that star level, or changes a field of it.
  champions_of-not-IsRedundant :
      (entries : List RosterImportEntry)
      → All (λ b. ¬ IsRedundant lower roster b) (champions_of lower roster (map build entries))
  champions_of-not-IsRedundant [] = tt
  champions_of-not-IsRedundant (e ∷ entries) = elim (Bool-cases (is_sent (build e))) [
    | inl sent ↦ rw sent (
      λ redundant. cc ((is_sent-IsRedundant lower roster lookup e).1 redundant),
      champions_of-not-IsRedundant entries,
    )
    | inr kept ↦ rw kept (champions_of-not-IsRedundant entries)
  ]
