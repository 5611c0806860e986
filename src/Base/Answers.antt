-- ===== src/Base/Answers.antt =====
-- The answer of a request, with the message of the error where it throws.
use mawster.Base.Texts.{Text}

pub data Answer (A : Type 0) : Type 0 where
  resolved : A → Answer A
  rejected : Text → Answer A

-- Two requests one after the other: the second one is sent where the first one did not throw.
abbrev pub after : {A B : Type 0} → Answer A → Answer B → Answer B
after (resolved a) second = second
after (rejected message) second = rejected message
