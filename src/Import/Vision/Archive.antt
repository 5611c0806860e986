-- ===== src/Import/Vision/Archive.antt =====
-- `executeVisionImport` of front/components/use-vision-import-section.ts: the roster is written, and
-- then the predictions are archived.
use mawster.Base.{
  Text, List, [], ◌∷◌, Option, none, some, Bool, true, false, ◌≡◌, refl, sym, ◌∙◌, ◌⊎◌, inl, inr,
  map, filter, is_empty, if◌then◌else◌, Bool-cases, arith,
}
use mawster.Roster.{RosterEntry}
use mawster.Import.Execute.{ImportCore, BulkAnswer, Executed, is_saved, is_sent, execute_import}
use mawster.Import.Vision.{ConfirmedRow, to_confirmed, on_confirmed}

-- What the import does, and what is sent to the archive.
unfoldable pub execute_vision_import :
    (Text → Text)
    → Text
    → List RosterEntry
    → BulkAnswer
    → Option (List RosterEntry)
    → Option Text
    → ImportCore
    → Executed × Option (Text × List ConfirmedRow)
execute_vision_import lower server_error roster answer updated import_id s =
    let executed = execute_import lower server_error roster answer updated s in
    (executed, if executed.success then on_confirmed import_id s.preview_rows else none)

is_nil : {A : Type 0} (xs : List A) → is_empty xs ≡ true → xs ≡ []
is_nil [] h = refl
is_nil (x ∷ xs) h = absurd (ground arith)

abbrev sent_if : Bool → Text × List ConfirmedRow → Option (Text × List ConfirmedRow)
sent_if success archive = if success then some archive else none

archived_of :
    (success : Bool) (import_id id : Text) (sent rows : List ConfirmedRow)
    → sent_if success (import_id, sent) ≡ some (id, rows)
    → (success ≡ true) × (id ≡ import_id) × (rows ≡ sent)
archived_of true import_id id sent rows h = (refl, cc, cc)
archived_of false import_id id sent rows h = absurd cc

module _ (lower : Text → Text) (server_error : Text) (roster : List RosterEntry)
    (answer : BulkAnswer) (updated : Option (List RosterEntry)) (s : ImportCore) where
  written :
      is_empty s.preview_rows ≡ false
      → is_empty (filter is_sent s.preview_rows) ≡ false
      → (execute_import lower server_error roster answer updated s).success ≡ is_saved answer
  unfolding execute_import
  written full some_sent = rw (full, some_sent) refl

  success_written :
      (execute_import lower server_error roster answer updated s).success ≡ true
      → (is_saved answer ≡ true) ⊎ (filter is_sent s.preview_rows ≡ [])
  unfolding execute_import
  success_written h = elim (Bool-cases (is_empty s.preview_rows)) [
    | inl e ↦ inr (rw (is_nil s.preview_rows e) refl)
    | inr full ↦ elim (Bool-cases (is_empty (filter is_sent s.preview_rows))) [
      | inl nothing ↦ inr (is_nil (filter is_sent s.preview_rows) nothing)
      | inr some_sent ↦ inl (sym (written full some_sent) ∙ h)
    ]
  ]

  -- Predictions are archived only where the roster was written, or no row had to be; and then one
  -- is archived for each row of the preview.
  pub execute_vision_import-archives :
      (import_id id : Text) (rows : List ConfirmedRow)
      → (execute_vision_import lower server_error roster answer updated (some import_id) s).1
        ≡ some (id, rows)
      → ((is_saved answer ≡ true) ⊎ (filter is_sent s.preview_rows ≡ []))
        × (id ≡ import_id)
        × (rows ≡ map to_confirmed s.preview_rows)
  unfolding execute_vision_import on_confirmed
  execute_vision_import-archives import_id id rows h =
      let (success, same_id, same_rows) =
        archived_of (execute_import lower server_error roster answer updated s).success import_id id
          (map to_confirmed s.preview_rows) rows h in
      (success_written success, same_id, same_rows)
