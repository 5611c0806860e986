-- ===== src/RosterFilters/Trimmed.antt =====
-- What `trim` leaves has white space at neither end.
use mawster.Base.{
  ℕ, Text, [], ◌∷◌, Bool, true, not, ◌&&◌, ◌≡◌, refl, is_empty, if◌then◌else◌, Bool-cases, inl, inr,
}
use mawster.RosterFilters.{is_space, trim_start, trim_end, trim}

abbrev starts_well : Text → Bool
starts_well [] = true
starts_well (c ∷ s) = not (is_space c)

abbrev ends_well : Text → Bool
ends_well [] = true
ends_well (c ∷ s) = let rest = ends_well s in if is_empty s then not (is_space c) else rest

abbrev pub is_trimmed : Text → Bool
is_trimmed s = starts_well s && ends_well s

trim_start-starts_well : (s : Text) → starts_well (trim_start s) ≡ true
trim_start-starts_well [] = refl
trim_start-starts_well (c ∷ s) = elim (Bool-cases (is_space c)) [
  | inl space ↦ rw space (trim_start-starts_well s)
  | inr other ↦ rw other (rw other refl)
]

trim_end-starts_well : (s : Text) → starts_well s ≡ true → starts_well (trim_end s) ≡ true
trim_end-starts_well [] h = refl
trim_end-starts_well (c ∷ s) h = elim (Bool-cases (is_space c && is_empty (trim_end s))) [
  | inl dropped ↦ rw dropped refl
  | inr stays ↦ rw stays h
]

ends_well-cons :
    (c : ℕ) (t : Text)
    → ends_well t ≡ true
    → ends_well (if is_space c && is_empty t then [] else c ∷ t) ≡ true
ends_well-cons c [] h = elim (Bool-cases (is_space c)) [
  | inl space ↦ rw space refl
  | inr other ↦ rw other (rw other refl)
]
ends_well-cons c (d ∷ t) h = elim (Bool-cases (is_space c)) [
  | inl space ↦ rw space h
  | inr other ↦ rw other h
]

trim_end-ends_well : (s : Text) → ends_well (trim_end s) ≡ true
trim_end-ends_well [] = refl
trim_end-ends_well (c ∷ s) = ends_well-cons c (trim_end s) (trim_end-ends_well s)

pub trim-is_trimmed : (s : Text) → is_trimmed (trim s) ≡ true
unfolding trim
trim-is_trimmed s =
    rw
      (
        trim_end-starts_well (trim_start s) (trim_start-starts_well s),
        trim_end-ends_well (trim_start s),
      )
      refl
