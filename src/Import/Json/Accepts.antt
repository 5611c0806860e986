-- ===== src/Import/Json/Accepts.antt =====
-- What the validation accepts.
use mawster.Base.{
  ℕ, suc, ◌+◌, Text, Option, none, some, true, false, not, ◌&&◌, ◌≡◌, refl, arith, All, length,
  is_empty, is_some, whole, num_lt, codes, Bool-cases, Option-cases, inl, inr, ◌⊎◌,
}
use mawster.Import.Dedup.{RosterImportEntry}
use mawster.Import.Json.{
  Json, Items, nil, cons, Fields, get_field, Validated, entry, error, as_text, is_importable,
  bad_signature, validate_values, validate_entry, validate_item, add_result, validate_from,
  parse_and_validate_entries, ImportError, null, bool, num, str, arr, obj, end, accepted_entry,
  ascension_or_0, signature_or_0,
}

-- What every accepted entry satisfies.
pub record IsValidEntry (e : RosterImportEntry) : Type 0 where
  pub named : is_empty e.champion_name ≡ false
  pub rarity : is_importable e.rarity ≡ true
  pub signature : num_lt e.signature (whole 0) ≡ false
  pub ascension_low : num_lt e.ascension (whole 0) ≡ false
  pub ascension_high : num_lt (whole 2) e.ascension ≡ false
  pub flagged : is_some e.is_preferred_attacker ≡ true

ascension_or_0_bounds :
    (v : Option Json)
    → (num_lt (ascension_or_0 v) (whole 0) ≡ false) × (num_lt (whole 2) (ascension_or_0 v) ≡ false)
ascension_or_0_bounds none = (refl, refl)
ascension_or_0_bounds (some (num n)) =
    elim (Bool-cases (not (num_lt n (whole 0)) && not (num_lt (whole 2) n))) [
      | inl inside ↦ rw inside (ground arith, ground arith)
      | inr outside ↦ rw outside (refl, refl)
    ]
ascension_or_0_bounds (some _) = (refl, refl)

signature_or_0_bound :
    (v : Option Json) → bad_signature v ≡ false → num_lt (signature_or_0 v) (whole 0) ≡ false
signature_or_0_bound none h = refl
signature_or_0_bound (some (num n)) h = h
signature_or_0_bound (some _) h = refl

accepted_entry-IsValidEntry :
    (name rarity : Text) (o : Fields)
    → is_empty name ≡ false
    → is_importable rarity ≡ true
    → bad_signature (get_field (codes "signature") o) ≡ false
    → IsValidEntry (accepted_entry name rarity o)
accepted_entry-IsValidEntry name rarity o full ranked signed =
    let (low, high) = ascension_or_0_bounds (get_field (codes "ascension") o) in
    record {
      named = full;
      rarity = ranked;
      signature = signature_or_0_bound (get_field (codes "signature") o) signed;
      ascension_low = low;
      ascension_high = high;
      flagged = refl;
    }

validate_values-IsValidEntry :
    (name rarity : Text) (o : Fields) (idx : ℕ) (e : RosterImportEntry)
    → is_empty name ≡ false
    → validate_values name rarity o idx ≡ entry e
    → IsValidEntry e
unfolding validate_values
validate_values-IsValidEntry name rarity o idx e full h = elim (Bool-cases (is_importable rarity)) [
  | inl ranked ↦ elim (Bool-cases (bad_signature (get_field (codes "signature") o))) [
    | inl bad ↦ absurd (ground arith)
    | inr signed ↦
        let same : e ≡ accepted_entry name rarity o = ground arith in
        rw same (accepted_entry-IsValidEntry name rarity o full ranked signed)
  ]
  | inr unranked ↦ absurd (ground arith)
]

as_text_full : (v : Option Json) (s : Text) → as_text v ≡ some s → is_empty s ≡ false
as_text_full (some (str t)) s h = ground arith
as_text_full none s h = cc
as_text_full (some null) s h = cc
as_text_full (some (bool b)) s h = cc
as_text_full (some (num n)) s h = cc
as_text_full (some (arr a)) s h = cc
as_text_full (some (obj o)) s h = cc

validate_entry-IsValidEntry :
    (o : Fields) (idx : ℕ) (e : RosterImportEntry) → validate_entry o idx ≡ entry e → IsValidEntry e
unfolding validate_entry
validate_entry-IsValidEntry o idx e h =
    elim (Option-cases (as_text (get_field (codes "champion_name") o))) [
      | inl none_named ↦ absurd (ground arith)
      | inr (name, named) ↦ elim (Option-cases (as_text (get_field (codes "rarity") o))) [
        | inl none_ranked ↦ absurd (ground arith)
        | inr (rarity, ranked) ↦
            validate_values-IsValidEntry name rarity o idx e (as_text_full _ name named)
              (ground arith)
      ]
    ]

validate_item-IsValidEntry :
    (item : Json) (idx : ℕ) (e : RosterImportEntry)
    → validate_item item idx ≡ entry e
    → IsValidEntry e
unfolding validate_item
validate_item-IsValidEntry (obj o) idx e h = validate_entry-IsValidEntry o idx e h
validate_item-IsValidEntry (arr a) idx e h = validate_entry-IsValidEntry end idx e h
validate_item-IsValidEntry null idx e h = cc
validate_item-IsValidEntry (bool b) idx e h = cc
validate_item-IsValidEntry (num n) idx e h = cc
validate_item-IsValidEntry (str s) idx e h = cc

abbrev count_items : Items → ℕ
count_items nil = 0
count_items (cons item items) = suc (count_items items)

Validated-cases :
    (v : Validated)
    → ((e : RosterImportEntry) × (v ≡ entry e)) ⊎ ((x : ImportError) × (v ≡ error x))
Validated-cases (entry e) = inl (e, refl)
Validated-cases (error x) = inr (x, refl)

validate_from-accounts :
    (i : ℕ) (items : Items)
    → All IsValidEntry (validate_from i items).entries
      × (length (validate_from i items).entries + length (validate_from i items).errors
          ≡ count_items items)
unfolding validate_from
validate_from-accounts i nil = (tt, omega arith)
validate_from-accounts i (cons item items) =
    let (valid, counted) = validate_from-accounts (suc i) items in
    elim (Validated-cases (validate_item item (i + 1))) [
      | inl (e, accepted) ↦
          rw (accepted, add_result)
            ((validate_item-IsValidEntry item (i + 1) e accepted, valid), omega arith)
      | inr (x, refused) ↦ rw (refused, add_result) (valid, omega arith)
    ]

-- Every entry that an import accepts has a name, a rarity that the importer knows, a signature
-- that is not negative, an ascension between 0 and 2 and a preferred flag; and each item of the
-- file gives either one entry or one error.
parse_and_validate_entries-IsValidEntry :
    (parsed : Items)
    → All IsValidEntry (parse_and_validate_entries parsed).entries
      × (length (parse_and_validate_entries parsed).entries
            + length (parse_and_validate_entries parsed).errors
          ≡ count_items parsed)
unfolding parse_and_validate_entries
parse_and_validate_entries-IsValidEntry parsed = validate_from-accounts 0 parsed
