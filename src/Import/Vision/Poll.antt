-- ===== src/Import/Vision/Poll.antt =====
-- The upload and the poll of `useRosterImportVision`, as a machine that reacts to the interval's
-- ticks and to the answers of the server. A request that never answers keeps the poll busy.
pub mod Bounds
use mawster.Base.{
  ℕ, zero, suc, ◌+◌, Text, List, [], ◌∷◌, ◌++◌, Option, none, some, Bool, true, false, not, ◌&&◌,
  ◌||◌, leb, is_empty, if◌then◌else◌,
}
use mawster.Import.Preview.{PreviewRow}
use mawster.Import.Execute.{ImportCore, open_preview}

abbrev pub poll_max_iterations : ℕ
poll_max_iterations = 120

pub data Toast : Type 0 where
  poll_failed poll_timeout upload_error no_images_selected no_champions : Toast

pub record Vision : Type 0 where
  pub core : ImportCore
  pub uploading : Bool
  pub import_id : Option Text
  -- whether the interval is set
  pub polling : Bool
  pub poll_count : ℕ
  pub poll_busy : Bool
  -- the toasts shown, the last one first
  pub toasts : List Toast

unfoldable pub clear_poll : Vision → Vision
clear_poll s = record s { polling = false }

unfoldable finish_with_error : Toast → Vision → Vision
unfolding clear_poll
finish_with_error message s = record (clear_poll s) {
  uploading = false;
  toasts = message ∷ s.toasts;
}

-- The rows built from the predictions, `none` where a request for them throws.
unfoldable resume : Text → Option (List PreviewRow) → Vision → Vision
unfolding finish_with_error open_preview
resume current_import_id none s =
    finish_with_error poll_failed (record s { import_id = some current_import_id })
resume current_import_id (some rows) s =
    let reviewed : Vision = record s { import_id = some current_import_id; uploading = false } in
    if is_empty rows
    then record reviewed { toasts = no_champions ∷ s.toasts }
    else record reviewed { core = open_preview rows s.core }

unfoldable pub poll_import : Vision → Vision
unfolding clear_poll
poll_import s = record (clear_poll s) { poll_count = 0; poll_busy = false; polling = true }

-- A tick of the interval: the state, and whether `getVisionImport` is called. There are no ticks
-- while the interval is not set.
unfoldable pub tick : Vision → Vision × Bool
tick s =
    if s.polling && not s.poll_busy
    then (record s { poll_busy = true; poll_count = s.poll_count + 1 }, true)
    else (s, false)

-- What the request for the import's status brings.
pub data Answer : Type 0 where
  -- done, and the rows that the predictions give
  done : Option (List PreviewRow) → Answer
  failed threw other_status : Answer

-- The body of the `try`, for an answer to the import's status.
unfoldable handle_answer : Text → Answer → Vision → Vision
unfolding clear_poll finish_with_error resume
handle_answer current_import_id (done rows) s = resume current_import_id rows (clear_poll s)
handle_answer current_import_id failed s = finish_with_error poll_failed s
handle_answer current_import_id threw s = finish_with_error poll_failed s
handle_answer current_import_id other_status s =
    if leb poll_max_iterations s.poll_count then finish_with_error poll_timeout s else s

-- With the `finally` block.
unfoldable pub answered : Text → Answer → Vision → Vision
unfolding handle_answer
answered current_import_id a s = record (handle_answer current_import_id a s) { poll_busy = false }

-- An answer comes only where a request is out.
pub data Event : Type 0 where
  ticked : Event
  answer : Answer → Event

unfoldable pub react : Text → Event → Vision → Vision
unfolding tick answered
react current_import_id ticked s = (tick s).0
react current_import_id (answer a) s = if s.poll_busy then answered current_import_id a s else s

unfoldable pub react_all : Text → List Event → Vision → Vision
react_all current_import_id [] s = s
react_all current_import_id (e ∷ events) s =
    react_all current_import_id events (react current_import_id e s)

-- The number of requests for the status that a run sends.
abbrev sent : Event → Vision → ℕ
sent ticked s = if (tick s).1 then 1 else 0
sent (answer a) s = 0

unfoldable pub requests : Text → List Event → Vision → ℕ
requests current_import_id [] s = 0
requests current_import_id (e ∷ events) s =
    sent e s + requests current_import_id events (react current_import_id e s)

-- What `createVisionImport` brings: the new import's id, or it throws.
unfoldable handle_vision_files_selected : ℕ → Option Text → Vision → Vision
unfolding poll_import finish_with_error
handle_vision_files_selected zero created s = record s { toasts = no_images_selected ∷ s.toasts }
handle_vision_files_selected (suc images) none s =
    finish_with_error upload_error (record s { uploading = true })
handle_vision_files_selected (suc images) (some id) s =
    poll_import (record s { uploading = true; import_id = some id })
