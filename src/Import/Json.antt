-- ===== src/Import/Json.antt =====
-- JSON values as `JSON.parse` returns them, and the validation of imported entries
-- (front/components/use-roster-import-export.ts).
pub mod Accepts
use mawster.Base.{
  ℕ, suc, ◌+◌, Text, Num, List, [], ◌∷◌, Option, none, some, Bool, true, false, not, ◌&&◌, ◌||◌,
  ◌==◌, nat_eq, text_eq, is_empty, whole, num_lt, leb, codes, if◌then◌else◌, or_else, or_opt,
}
use mawster.Import.Dedup.{RosterImportEntry}

mutual
  pub data Json : Type 0 where
    null : Json
    bool : Bool → Json
    num : Num → Json
    str : Text → Json
    arr : Items → Json
    obj : Fields → Json

  pub data Items : Type 0 where
    nil : Items
    cons : Json → Items → Items

  pub data Fields : Type 0 where
    end : Fields
    field : Text → Json → Fields → Fields

-- `o.name`: `none` is `undefined`. Of fields with one name `JSON.parse` keeps the last.
unfoldable pub get_field : Text → Fields → Option Json
get_field name end = none
get_field name (field k v fields) =
    let later = get_field name fields in or_opt later (if k == name then some v else none)

-- The messages of the validation, before translation; `idx` counts from 1.
pub data ImportError : Type 0 where
  missing_champion_name missing_rarity entry_not_object : ℕ → ImportError
  invalid_rarity : ℕ → Text → Text → ImportError
  invalid_signature : ℕ → Text → ImportError

pub data Validated : Type 0 where
  entry : RosterImportEntry → Validated
  error : ImportError → Validated

-- `!v || typeof v !== 'string'` is the negation of a text that is not empty.
abbrev pub as_text : Option Json → Option Text
as_text (some (str s)) = if is_empty s then none else some s
as_text _ = none

-- `/^[67]r[1-5]$/`
unfoldable pub is_importable : Text → Bool
is_importable (stars ∷ r ∷ rank ∷ []) =
    (stars == b'6' || stars == b'7') && (r == b'r') && (leb b'1' rank && leb rank b'5')
is_importable _ = false

-- `signature !== undefined && (typeof signature !== 'number' || signature < 0)`
abbrev bad_signature : Option Json → Bool
bad_signature none = false
bad_signature (some (num n)) = num_lt n (whole 0)
bad_signature _ = true

abbrev signature_or_0 : Option Json → Num
signature_or_0 (some (num n)) = n
signature_or_0 _ = whole 0

abbrev is_true : Option Json → Bool
is_true (some (bool b)) = b
is_true _ = false

-- `typeof ascension === 'number' && ascension >= 0 && ascension <= 2`
abbrev ascension_or_0 : Option Json → Num
ascension_or_0 (some (num n)) =
    if not (num_lt n (whole 0)) && not (num_lt (whole 2) n) then n else whole 0
ascension_or_0 _ = whole 0

abbrev accepted_entry : Text → Text → Fields → RosterImportEntry
accepted_entry champion_name rarity o = record {
  champion_name = champion_name;
  rarity = rarity;
  signature = signature_or_0 (get_field (codes "signature") o);
  is_preferred_attacker = some (is_true (get_field (codes "is_preferred_attacker") o));
  ascension = ascension_or_0 (get_field (codes "ascension") o);
}

-- The checks behind the first two, on a name and a rarity that are texts.
unfoldable pub validate_values : Text → Text → Fields → ℕ → Validated
validate_values champion_name rarity o idx =
    if not (is_importable rarity)
    then error (invalid_rarity idx champion_name rarity)
    else if bad_signature (get_field (codes "signature") o)
    then error (invalid_signature idx champion_name)
    else entry (accepted_entry champion_name rarity o)

unfoldable pub validate_entry : Fields → ℕ → Validated
validate_entry o idx = elim (as_text (get_field (codes "champion_name") o)) [
  | none ↦ error (missing_champion_name idx)
  | some champion_name ↦ elim (as_text (get_field (codes "rarity") o)) [
    | none ↦ error (missing_rarity idx)
    | some rarity ↦ validate_values champion_name rarity o idx
  ]
]

-- One round of the loop. An array is an `object` without the fields asked for.
unfoldable pub validate_item : Json → ℕ → Validated
validate_item (obj o) idx = validate_entry o idx
validate_item (arr items) idx = validate_entry end idx
validate_item _ idx = error (entry_not_object idx)

pub record Parsed : Type 0 where
  pub entries : List RosterImportEntry
  pub errors : List ImportError

abbrev add_result : Validated → Parsed → Parsed
add_result (entry e) p = record p { entries = e ∷ p.entries }
add_result (error x) p = record p { errors = x ∷ p.errors }

-- The loop from index `i` on; what it pushes comes before what the later rounds push.
unfoldable pub validate_from : ℕ → Items → Parsed
validate_from i nil = record { entries = []; errors = [] }
validate_from i (cons item items) =
    add_result (validate_item item (i + 1)) (validate_from (suc i) items)

unfoldable pub parse_and_validate_entries : Items → Parsed
parse_and_validate_entries parsed = validate_from 0 parsed
