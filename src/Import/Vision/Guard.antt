-- ===== src/Import/Vision/Guard.antt =====
-- front/components/use-vision-import-guard.ts, and the rest of
-- front/components/use-vision-import-section.ts: an import that waits blocks the next one, and the
-- procedure of Howto comes before the file picker. The picker is an action of Howto.
use mawster.Base.{
  Answer, resolved, rejected, ℕ, suc, Text, ◌∷◌, Option, none, some, Bool, true, false, is_some,
  opt_map, if◌then◌else◌,
}
use mawster.Banner.{CurrentVisionImport}
use mawster.Howto.{Howto, request}

pub record Guard : Type 0 where
  pub blocked_import : Option CurrentVisionImport
  pub dialog_open : Bool

pub record Section : Type 0 where
  pub guard : Guard
  pub howto : Howto
  pub share_dataset : Bool
  pub banner_refresh_key : ℕ

-- The action of the file picker.
abbrev file_picker : ℕ
file_picker = 0

-- The answer of `getCurrentVisionImport`; where it throws, nothing happens.
unfoldable guarded_open_answered : Answer (Option CurrentVisionImport) → Section → Section
guarded_open_answered (resolved none) s = record s { howto = request file_picker s.howto }
guarded_open_answered (resolved (some blocking)) s = record s {
  guard = record { blocked_import = some blocking; dialog_open = true };
}
guarded_open_answered (rejected message) s = s

-- The import that is resumed.
unfoldable resume_blocked : Section → Option Text
resume_blocked s = opt_map (λ i. i.id) s.guard.blocked_import

-- The import that is cancelled.
unfoldable discard_blocked : Section → Option Text
discard_blocked s = opt_map (λ i. i.id) s.guard.blocked_import

-- The picker opens without the procedure.
unfoldable discard_answered : Answer (Unit {0}) → Section → Section
discard_answered (resolved _) s = record s {
  howto = record s.howto { ran = file_picker ∷ s.howto.ran };
}
discard_answered (rejected message) s = s

unfoldable set_dialog_open : Bool → Section → Section
set_dialog_open value s = record s { guard = record s.guard { dialog_open = value } }

unfoldable set_share_dataset : Bool → Section → Section
set_share_dataset value s = record s { share_dataset = value }

-- The effect that runs when the id of the import changes.
unfoldable import_id_changed : (import_id : Option Text) → Section → Section
import_id_changed import_id s =
    if is_some import_id then record s { banner_refresh_key = suc s.banner_refresh_key } else s

-- What follows an executed import.
unfoldable vision_import_executed : Section → Section
vision_import_executed s = record s { banner_refresh_key = suc s.banner_refresh_key }

pub data VisionLabel : Type 0 where
  import_vision vision_uploading vision_processing : VisionLabel

abbrev vision_label : (uploading : Bool) → (import_id : Option Text) → VisionLabel
vision_label false import_id = import_vision
vision_label true none = vision_uploading
vision_label true (some id) = vision_processing
