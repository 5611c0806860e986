-- ===== src/Base/Maps.antt =====
-- A JavaScript `Map` with strings as keys: insertion order, and `set` on a key that is there
-- replaces its value in place.
use mathlib.Core.Path.{◌≡◌, refl, ap, sym, ◌∙◌}
use mathlib.Core.Logic.{inl, inr}
use mathlib.Core.Bool.{Bool}
use mathlib.Core.List.{List, [], ◌∷◌}
use mathlib.Core.Option.{Option, none, some}
use native.Mathlib.Omega.{arith}
use Prim.Native.Nat.{max}
use mawster.Base.Tests.{if◌then◌else◌, ◌==◌, is_some, Bool-cases, beq_refl}
use mawster.Base.Lists.{All, count, find, In, find_of_count}
use mawster.Base.Texts.{Text, text_eq, text_beq_iff}

module _ {V : Type 0} where
  unfoldable pub map_set : Text → V → List (Text × V) → List (Text × V)
  map_set key v [] = (key, v) ∷ []
  map_set key v ((k, w) ∷ m) = if k == key then (k, v) ∷ m else (k, w) ∷ map_set key v m

  unfoldable pub map_get : Text → List (Text × V) → Option V
  map_get key [] = none
  map_get key ((k, v) ∷ m) = if k == key then some v else map_get key m

  abbrev pub map_values : List (Text × V) → List V
  map_values [] = []
  map_values ((k, v) ∷ m) = v ∷ map_values m

  pub map_get-map_set :
      (k j : Text) (v : V) (m : List (Text × V))
      → map_get j (map_set k v m) ≡ (if k == j then some v else map_get j m)
  unfolding map_get map_set
  map_get-map_set k j v [] = refl
  map_get-map_set k j v ((i, w) ∷ m) =
      ground (arith, text_beq_iff k j, text_beq_iff i k, text_beq_iff i j, map_get-map_set k j v m)

  abbrev pub has_key_of : Text → Text × V → Bool
  has_key_of k p = p.0 == k

  -- Each key is there at most once.
  abbrev pub IsMap : List (Text × V) → Type 0
  IsMap m = (k : Text) → count (has_key_of k) m ≡ (if is_some (map_get k m) then 1 else 0)

  count-map_set :
      (j k : Text) (v : V) (m : List (Text × V))
      → count (has_key_of k) (map_set j v m)
        ≡ (if j == k then max 1 (count (has_key_of k) m) else count (has_key_of k) m)
  unfolding map_set
  count-map_set j k v [] = ground arith
  count-map_set j k v ((i, w) ∷ m) =
      ground (arith, count-map_set j k v m, text_beq_iff i j, text_beq_iff i k, text_beq_iff j k)

  pub map_set-IsMap : (j : Text) (v : V) (m : List (Text × V)) → IsMap m → IsMap (map_set j v m)
  map_set-IsMap j v m h k = ground (arith, count-map_set j k v m, map_get-map_set j k v m, h k)

  -- A predicate on entries that the new entry has, whatever the key's spelling.
  pub All-map_set {κ} :
      (P : Text × V → Type κ) (j : Text) (v : V) (m : List (Text × V))
      → P (j, v)
      → All P m
      → All P (map_set j v m)
  unfolding map_set
  All-map_set P j v [] new h = (new, tt)
  All-map_set P j v ((i, w) ∷ m) new h = elim (Bool-cases (i == j)) [
    | inl same ↦ rw same (rw ((text_beq_iff i j).0 same) new, h.1)
    | inr other ↦ rw other (h.0, All-map_set P j v m new h.1)
  ]

  abbrev value_of : Option (Text × V) → Option V
  value_of none = none
  value_of (some p) = some p.1

  map_get-find : (k : Text) (m : List (Text × V)) → map_get k m ≡ value_of (find (has_key_of k) m)
  unfolding map_get
  map_get-find k [] = refl
  map_get-find k ((j, w) ∷ m) = elim (Bool-cases (j == k)) [
    | inl here ↦ rw here refl
    | inr later ↦ rw later (map_get-find k m)
  ]

  -- An entry of a map is what its key brings.
  pub map_get-In :
      (k : Text) (v : V) (m : List (Text × V)) → IsMap m → In (k, v) m → map_get k m ≡ some v
  map_get-In k v m h mem =
      map_get-find k m
      ∙ ap value_of (find_of_count (has_key_of k) (k, v) m mem (beq_refl k) (ground (arith, h k)))

  -- What holds of all entries holds of the one that a key brings.
  pub map_get-All {κ} :
      (P : Text × V → Type κ) (k : Text) (v : V) (m : List (Text × V))
      → All P m
      → map_get k m ≡ some v
      → P (k, v)
  unfolding map_get
  map_get-All P k v [] h e = absurd (ground arith)
  map_get-All P k v ((i, w) ∷ m) h e = elim (Bool-cases (i == k)) [
    | inl here ↦
        let key = (text_beq_iff i k).0 here in
        let value : w ≡ v = ground arith in rw (sym key, sym value) h.0
    | inr later ↦ map_get-All P k v m h.1 (ground arith)
  ]

  pub All-map_values {κ} :
      (P : V → Type κ) (m : List (Text × V)) → All (λ p. P p.1) m → All P (map_values m)
  All-map_values P [] h = tt
  All-map_values P ((k, v) ∷ m) h = (h.0, All-map_values P m h.1)
