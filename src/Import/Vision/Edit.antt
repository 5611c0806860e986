-- ===== src/Import/Vision/Edit.antt =====
-- Corrections by hand.
use mawster.Base.{
  ℕ, zero, suc, ◌≢◌, Text, List, [], ◌∷◌, none, some, true, false, ◌≡◌, refl, ap, ◌∙◌, ◌↔◌, arith,
  text_eq, text_beq_iff, update_at, get_elem?, opt_map, Option-cases, inl, inr,
}
use mawster.Roster.{RosterEntry}
use mawster.Import.Preview.{
  PreviewRow, ChampionLookup, differs, find_roster_match, build_preview_row, rediff_row,
}
use mawster.Import.Preview.Diff.{IsRedundant}
use mawster.Import.Preview.Rediff.{rediff_row-IsRedundant}
use mawster.Import.Execute.{is_sent, to_bulk}
use mawster.Import.Vision.{
  PreviewRowPatch, patched, is_renamed, edited_changes, change_row, on_row_change,
}

get_elem?-update_at_self :
    {A : Type 0} (xs : List A) (i : ℕ) (f : A → A)
    → get_elem? (update_at i f xs) i ≡ opt_map f (get_elem? xs i)
get_elem?-update_at_self [] i f = refl
get_elem?-update_at_self (x ∷ xs) zero f = refl
get_elem?-update_at_self (x ∷ xs) (suc i) f = get_elem?-update_at_self xs i f

get_elem?-update_at_ne :
    {A : Type 0} (xs : List A) (i j : ℕ) (f : A → A)
    → i ≢ j
    → get_elem? (update_at i f xs) j ≡ get_elem? xs j
get_elem?-update_at_ne [] i j f h = refl
get_elem?-update_at_ne (x ∷ xs) zero zero f h = absurd (h refl)
get_elem?-update_at_ne (x ∷ xs) zero (suc j) f h = refl
get_elem?-update_at_ne (x ∷ xs) (suc i) zero f h = refl
get_elem?-update_at_ne (x ∷ xs) (suc i) (suc j) f h =
    get_elem?-update_at_ne xs i j f (λ e. h (ap suc e))

module _ (lower : Text → Text) (roster : List RosterEntry) (lookup : ChampionLookup) where
  -- A diff without an opinion on the flag and the recomputed one agree.
  edited_changes-rediff :
      (row : PreviewRow)
      → row.is_preferred_attacker ≡ none
      → edited_changes (rediff_row lower row roster lookup)
        ≡ is_sent (rediff_row lower row roster lookup)
  unfolding rediff_row build_preview_row differs
  edited_changes-rediff row quiet =
      elim (Option-cases (find_roster_match lower roster row.champion_name row.new_rarity)) [
        | inl missing ↦ rw missing
        | inr (r, found) ↦ rw (found, quiet) (ground arith)
      ]

  abbrev rediffed : PreviewRow → PreviewRowPatch → PreviewRow
  rediffed row patch = rediff_row lower (patched row patch) roster lookup

  change_row-renamed :
      (row : PreviewRow) (patch : PreviewRowPatch)
      → is_renamed row patch.champion_name ≡ true
      → change_row lower roster lookup patch row ≡ record (rediffed row patch) {
        corrected = some true;
        has_changes = edited_changes (rediffed row patch);
      }
  unfolding change_row
  change_row-renamed row patch h = rw (h, change_row)

  is_sent-change_row :
      (row : PreviewRow) (patch : PreviewRowPatch)
      → is_renamed row patch.champion_name ≡ true
      → row.is_preferred_attacker ≡ none
      → is_sent (change_row lower roster lookup patch row) ≡ is_sent (rediffed row patch)
  is_sent-change_row row patch h quiet =
      rw (change_row-renamed row patch h, edited_changes-rediff (patched row patch) quiet)
        (ground arith)

  to_bulk-change_row :
      (row : PreviewRow) (patch : PreviewRowPatch)
      → is_renamed row patch.champion_name ≡ true
      → to_bulk lower roster (change_row lower roster lookup patch row)
        ≡ to_bulk lower roster (rediffed row patch)
  unfolding to_bulk
  to_bulk-change_row row patch h = rw (change_row-renamed row patch h)

  -- Correcting the champion's name of a row that has no opinion on the preferred flag: the row
  -- is then left out of the import exactly when writing it would be redundant under its new name,
  -- it is marked as corrected, and every other row stays as it is.
  pub on_row_change-renamed :
      (rows : List PreviewRow) (i j : ℕ) (row : PreviewRow) (patch : PreviewRowPatch) (name : Text)
      → get_elem? rows i ≡ some row
      → patch.champion_name ≡ some name
      → name ≢ row.champion_name
      → row.is_preferred_attacker ≡ none
      → i ≢ j
      → (after : PreviewRow) × (get_elem? (on_row_change lower roster lookup i patch rows) i
          ≡ some after)
        × ((is_sent after ≡ false) ↔ IsRedundant lower roster (to_bulk lower roster after))
        × (after.champion_name ≡ name)
        × (after.corrected ≡ some true)
        × (get_elem? (on_row_change lower roster lookup i patch rows) j ≡ get_elem? rows j)
  unfolding on_row_change
  on_row_change-renamed rows i j row patch name at_i renamed other quiet apart =
      let h : is_renamed row patch.champion_name ≡ true =
        rw renamed (ground (arith, text_beq_iff name row.champion_name)) in
      (
        change_row lower roster lookup patch row,
        get_elem?-update_at_self rows i _ ∙ ap (opt_map _) at_i,
        rw (is_sent-change_row row patch h quiet, to_bulk-change_row row patch h)
            (rediff_row-IsRedundant lower roster lookup (patched row patch)).0,
        rw (change_row-renamed row patch h) (unfold rediff_row build_preview_row in rw renamed),
        rw (change_row-renamed row patch h),
        get_elem?-update_at_ne rows i j _ apart,
      )

  -- Correcting a row without renaming it never consults the roster: the row keeps its old values
  -- and whether it is new, even where the corrected rarity is of another star level, that is of
  -- another entry of the roster.
  change_row-not_rediffed :
      (row : PreviewRow) (patch : PreviewRowPatch)
      → patch.champion_name ≡ none
      → ((change_row lower roster lookup patch row).is_new ≡ row.is_new)
        × ((change_row lower roster lookup patch row).old_rarity ≡ row.old_rarity)
        × ((change_row lower roster lookup patch row).old_signature ≡ row.old_signature)
        × ((change_row lower roster lookup patch row).old_ascension ≡ row.old_ascension)
  unfolding change_row
  change_row-not_rediffed row patch h = rw h (refl, refl, refl, refl)
