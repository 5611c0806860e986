-- ===== src/Import/Execute/Report.antt =====
-- The report of an import, and the state it leaves.
use mawster.Base.{
  ◌+◌, Text, List, [], ◌∷◌, Option, none, Bool, true, false, not, ◌&&◌, arith, ◌≡◌, refl, any,
  length, count, map, filter, is_empty, length-map, count-append, ◌∙◌,
}
use mathlib.Core.Path.{ap₂}
use mawster.Roster.{RosterEntry}
use mawster.Import.Preview.{PreviewRow}
use mawster.Import.Execute.{
  ImportResult, ImportCore, BulkAnswer, saved, failed, is_sent, is_unchanged, result_of, results_of,
  execute_import, toast_no_changes,
}

-- The tests by which the report dialog counts results (import-report-dialog.tsx).
abbrev is_added : ImportResult → Bool
is_added r = r.success && r.is_new

abbrev is_updated : ImportResult → Bool
is_updated r = r.success && (not r.is_new && not r.is_skipped)

abbrev pub is_skipped : ImportResult → Bool
is_skipped r = r.success && r.is_skipped

abbrev is_failed : ImportResult → Bool
is_failed r = not r.success

-- What a preview row announces.
abbrev announces_new : PreviewRow → Bool
announces_new r = r.is_new

abbrev announces_change : PreviewRow → Bool
announces_change r = not r.is_new && r.has_changes

-- Counting over `filter` and `map` at once.
count-map-filter {ℓ κ} :
    {A : Type ℓ} {B : Type κ} (p : B → Bool) (f : A → B) (q r : A → Bool) (xs : List A)
    → ((x : A) → (p (f x) && q x) ≡ r x)
    → count p (map f (filter q xs)) ≡ count r xs
count-map-filter p f q r [] h = refl
count-map-filter p f q r (x ∷ xs) h = ground (arith, h x, count-map-filter p f q r xs h)

count-map_all {ℓ κ} :
    {A : Type ℓ} {B : Type κ} (p : B → Bool) (f : A → B) (xs : List A)
    → ((x : A) → p (f x) ≡ true)
    → count p (map f xs) ≡ length xs
count-map_all p f [] h = refl
count-map_all p f (x ∷ xs) h = ground (arith, h x, count-map_all p f xs h)

count-never {ℓ} : {A : Type ℓ} (xs : List A) → count (λ (x : A). false) xs ≡ 0
count-never [] = refl
count-never (x ∷ xs) = count-never xs

is_empty-filter {ℓ} :
    {A : Type ℓ} (p : A → Bool) (xs : List A) → is_empty (filter p xs) ≡ not (any p xs)
is_empty-filter p [] = refl
is_empty-filter p (x ∷ xs) = ground (arith, is_empty-filter p xs)

is_empty_of_any {ℓ} :
    {A : Type ℓ} (p : A → Bool) (xs : List A) → any p xs ≡ true → is_empty xs ≡ false
is_empty_of_any p [] h = cc
is_empty_of_any p (x ∷ xs) h = refl

-- The rows that are sent and the rows that are skipped have results of their own: a count over
-- all results is a sum of counts over the rows.
count-results_of_saved :
    (server_error : Text) (rows : List PreviewRow) (p : ImportResult → Bool)
    (q r : PreviewRow → Bool)
    → ((x : PreviewRow) → (p (result_of true x.is_new false none x) && is_sent x) ≡ q x)
    → ((x : PreviewRow) → (p (result_of true false true none x) && is_unchanged x) ≡ r x)
    → count p (results_of server_error rows saved) ≡ count q rows + count r rows
unfolding results_of
count-results_of_saved server_error rows p q r hq hr =
    count-append p _ _
    ∙ ap₂ ◌+◌ (count-map-filter p _ is_sent q rows hq) (count-map-filter p _ is_unchanged r rows hr)

abbrev never : PreviewRow → Bool
never r = false

results_of_saved :
    (server_error : Text) (rows : List PreviewRow)
    → (count is_added (results_of server_error rows saved) ≡ count announces_new rows)
      × (count is_updated (results_of server_error rows saved) ≡ count announces_change rows)
      × (count is_skipped (results_of server_error rows saved) ≡ count is_unchanged rows)
      × (count is_failed (results_of server_error rows saved) ≡ 0)
results_of_saved e rows =
    let z = count-never rows in
    (
      omega (
        arith,
        count-results_of_saved e rows is_added announces_new never (λ x. ground arith)
            (λ x. ground arith),
      ),
      omega (
        arith,
        count-results_of_saved e rows is_updated announces_change never (λ x. ground arith)
            (λ x. ground arith),
      ),
      omega (
        arith,
        count-results_of_saved e rows is_skipped never is_unchanged (λ x. ground arith)
            (λ x. ground arith),
      ),
      omega (
        arith,
        count-results_of_saved e rows is_failed never never (λ x. ground arith) (λ x. ground arith),
      ),
    )

results_of_failed :
    (server_error : Text) (message : Option Text) (rows : List PreviewRow)
    → (count is_failed (results_of server_error rows (failed message)) ≡ length rows)
      × (length (results_of server_error rows (failed message)) ≡ length rows)
unfolding results_of
results_of_failed e message rows = (count-map_all is_failed _ rows (λ x. refl), length-map rows _)

module _ (lower : Text → Text) (server_error : Text) (roster : List RosterEntry)
    (updated : Option (List RosterEntry)) (s : ImportCore) where
  -- When the write succeeds, the report has one result for each preview row: as many added as
  -- rows announced as new, as many updated as rows announced as changed, the rest skipped and
  -- none failed. The import reports success.
  execute_import-saved :
      any is_sent s.preview_rows ≡ true
      → let run = execute_import lower server_error roster saved updated s in
        let report = run.state.import_results in
        (run.success ≡ true)
        × (count is_added report ≡ count announces_new s.preview_rows)
        × (count is_updated report ≡ count announces_change s.preview_rows)
        × (count is_skipped report ≡ count is_unchanged s.preview_rows)
        × (count is_failed report ≡ 0)
  unfolding execute_import
  execute_import-saved h =
      let (added, updated, skipped, failures) = results_of_saved server_error s.preview_rows in
      rw (is_empty_of_any is_sent s.preview_rows h, is_empty-filter is_sent s.preview_rows, h)
        (refl, added, updated, skipped, failures)

  -- When the write fails, the report has a failure for each preview row and nothing else, and the
  -- import reports that it did not succeed.
  execute_import-failed :
      (message : Option Text)
      → any is_sent s.preview_rows ≡ true
      → let run = execute_import lower server_error roster (failed message) updated s in
        let report = run.state.import_results in
        (run.success ≡ false)
        × (count is_failed report ≡ length s.preview_rows)
        × (length report ≡ length s.preview_rows)
  unfolding execute_import
  execute_import-failed message h =
      let (failures, all) = results_of_failed server_error message s.preview_rows in
      rw (is_empty_of_any is_sent s.preview_rows h, is_empty-filter is_sent s.preview_rows, h)
        (refl, failures, all)

  -- When no row of a preview is new or changed, nothing is written and the import reports success;
  -- the `finally` block still opens the report, with no results in it.
  execute_import-no_changes :
      (answer : BulkAnswer)
      → is_empty s.preview_rows ≡ false
      → any is_sent s.preview_rows ≡ false
      → let run = execute_import lower server_error roster answer updated s in
        (run.success ≡ true)
        × (run.effects ≡ toast_no_changes ∷ [])
        × (run.state.report_open ≡ true)
        × (run.state.import_results ≡ [])
        × (run.state.preview_open ≡ false)
        × (run.state.importing ≡ false)
  unfolding execute_import
  execute_import-no_changes answer full h =
      rw (full, is_empty-filter is_sent s.preview_rows, h) (refl, refl, refl, refl, refl, refl)
