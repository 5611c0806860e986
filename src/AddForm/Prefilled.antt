-- ===== src/AddForm/Prefilled.antt =====
-- What the form sends for an entry that was opened and saved as it is.
use mawster.Base.{Text, Bool, whole, Option, some, true, false, ◌≡◌, refl, is_empty, or_else}
use mawster.Roster.{RosterEntry}
use mawster.AddForm.{AddForm, UpdateRequest, open_changed, handle_submit}

-- The champion, rarity, signature and ascension of an entry, with a mark of one's own.
abbrev pub update_of : Text → RosterEntry → Bool → UpdateRequest
update_of account_id entry mark = record {
  game_account_id = account_id;
  champion_id = entry.champion_id;
  rarity = entry.rarity;
  signature = entry.signature;
  is_preferred_attacker = mark;
  ascension = or_else entry.ascension (whole 0);
}

-- An entry that the form is opened for and that is saved as it is: what is sent has its champion,
-- rarity, signature and ascension, but never its mark as a preferred attacker. Where the form was
-- closed before, the champion is sent as not preferred; where the form was open already, with the
-- mark that the form had then. In both cases this is so whatever the entry is.
pub handle_submit-prefill_from_entry :
    (account_id : Text) (entry : RosterEntry) (earlier : Option RosterEntry) (s : AddForm)
    → is_empty account_id ≡ false
    → ((handle_submit
          (some account_id)
          (open_changed true (some entry) (open_changed false earlier s))).1
        ≡ some (update_of account_id entry false))
      × ((handle_submit (some account_id) (open_changed true (some entry) s)).1
          ≡ some (update_of account_id entry s.is_preferred_attacker))
unfolding handle_submit open_changed
handle_submit-prefill_from_entry account_id entry earlier s named = (rw named refl, rw named refl)
