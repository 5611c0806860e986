-- ===== src/War/Toasts.antt =====
-- The messages of the war page, by the names of their translations.
use mawster.Base.{ℕ, Text, is_empty, if◌then◌else◌}

pub data Message : Type 0 where
  load_error create_error edit_war_success edit_war_error end_war_success end_war_error : Message
  defender_required place_error remove_success remove_error clear_success : Message
  assign_error remove_attacker_success remove_attacker_error mark_combat_error : Message
  synergy_add_error synergy_remove_success synergy_remove_error : Message
  prefight_add_error prefight_remove_success prefight_remove_error : Message
  assist_add_success assist_add_error assist_remove_success assist_remove_error : Message
  note_saved note_deleted note_delete_error : Message
  -- with the values put into the text
  create_success synergy_add_success : Text → Message
  prefight_add_success : ℕ → Message
  place_success assign_success : Text → ℕ → Message
  -- the text of an error
  text : Text → Message

pub data Toast : Type 0 where
  success error warning : Message → Toast

-- `toast.error(err.message || fallback)`
abbrev pub error_toast : Text → Message → Toast
error_toast message fallback = error (if is_empty message then fallback else text message)
