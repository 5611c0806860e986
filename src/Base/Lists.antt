-- ===== src/Base/Lists.antt =====
-- Lists with native lengths and Boolean tests: JavaScript's find, filter, some, every, sort.
use Prim.Native.Nat.{zero, ◌≤◌, ℕ, suc, ◌+◌}
use mathlib.Core.Path.{◌≡◌, refl, ap, ◌∙◌}
use mathlib.Core.Logic.{◌⊎◌, inl, inr}
use mathlib.Core.Bool.{Bool, true, false, not, ◌&&◌, ◌||◌}
use mathlib.Core.List.{List, [], ◌∷◌, ◌++◌, map}
use mathlib.Core.Option.{Option, none, some}
use native.Mathlib.Omega.{arith}
use mawster.Base.Tests.{if◌then◌else◌, Bool-cases}

module _ {ℓ} {A : Type ℓ} where
  abbrev pub length : List A → ℕ
  length [] = 0
  length (x ∷ xs) = suc (length xs)

  abbrev pub any : (A → Bool) → List A → Bool
  any p [] = false
  any p (x ∷ xs) = p x || any p xs

  abbrev pub all : (A → Bool) → List A → Bool
  all p [] = true
  all p (x ∷ xs) = p x && all p xs

  abbrev pub find : (A → Bool) → List A → Option A
  find p [] = none
  find p (x ∷ xs) = if p x then some x else find p xs

  abbrev pub filter : (A → Bool) → List A → List A
  filter p [] = []
  filter p (x ∷ xs) = let rest = filter p xs in if p x then x ∷ rest else rest

  abbrev pub count : (A → Bool) → List A → ℕ
  count p [] = 0
  count p (x ∷ xs) = let rest = count p xs in if p x then suc rest else rest

  -- The element at an index replaced by what `f` makes of it; nothing happens out of bounds.
  abbrev pub update_at : ℕ → (A → A) → List A → List A
  update_at i f [] = []
  update_at zero f (x ∷ xs) = f x ∷ xs
  update_at (suc i) f (x ∷ xs) = x ∷ update_at i f xs

  abbrev pub replicate : ℕ → A → List A
  replicate zero a = []
  replicate (suc n) a = a ∷ replicate n a

  abbrev pub get_elem? : List A → ℕ → Option A
  get_elem? [] i = none
  get_elem? (x ∷ xs) zero = some x
  get_elem? (x ∷ xs) (suc i) = get_elem? xs i

  -- `Array.prototype.sort`, which is stable: `before x y` when the comparator puts `x` strictly
  -- first.
  unfoldable pub insert_by : (A → A → Bool) → A → List A → List A
  insert_by before x [] = x ∷ []
  insert_by before x (y ∷ ys) =
      let later = y ∷ insert_by before x ys in if before y x then later else x ∷ y ∷ ys

  unfoldable pub sort_by : (A → A → Bool) → List A → List A
  unfolding insert_by
  sort_by before [] = []
  sort_by before (x ∷ xs) = insert_by before x (sort_by before xs)

  length-insert_by :
      (before : A → A → Bool) (x : A) (xs : List A)
      → length (insert_by before x xs) ≡ suc (length xs)
  unfolding insert_by
  length-insert_by before x [] = refl
  length-insert_by before x (y ∷ ys) = ground (arith, length-insert_by before x ys)

  pub length-sort_by :
      (before : A → A → Bool) (xs : List A) → length (sort_by before xs) ≡ length xs
  unfolding sort_by
  length-sort_by before [] = refl
  length-sort_by before (x ∷ xs) =
      length-insert_by before x (sort_by before xs) ∙ ap suc (length-sort_by before xs)

  length-append : (xs ys : List A) → length (xs ++ ys) ≡ length xs + length ys
  length-append [] ys = omega arith
  length-append (x ∷ xs) ys = omega (arith, length-append xs ys)

  pub count-append : (p : A → Bool) (xs ys : List A) → count p (xs ++ ys) ≡ count p xs + count p ys
  count-append p [] ys = omega arith
  count-append p (x ∷ xs) ys = ground (arith, count-append p xs ys)

  length-filter : (p : A → Bool) (xs : List A) → length (filter p xs) ≡ count p xs
  length-filter p [] = refl
  length-filter p (x ∷ xs) = ground (arith, length-filter p xs)

  -- What a test keeps and what its negation keeps are all there is.
  length-filter_split :
      (p q : A → Bool) (xs : List A)
      → ((x : A) → q x ≡ not (p x))
      → length (filter p xs) + length (filter q xs) ≡ length xs
  length-filter_split p q [] h = omega arith
  length-filter_split p q (x ∷ xs) h = ground (arith, h x, length-filter_split p q xs h)

  pub find_holds : (p : A → Bool) (xs : List A) (x : A) → find p xs ≡ some x → p x ≡ true
  find_holds p [] x h = absurd (ground arith)
  find_holds p (y ∷ ys) x h = ground (arith, find_holds p ys x)

  -- The last element that passes the test.
  abbrev pub find_last : (A → Bool) → List A → Option A
  find_last p [] = none
  find_last p (x ∷ xs) = elim (find_last p xs) [
    | some y ↦ some y
    | none ↦ if p x then some x else none
  ]

module _ {ℓ κ} {A : Type ℓ} (P : A → Type κ) where
  abbrev pub All : List A → Type κ
  All [] = Unit
  All (x ∷ xs) = P x × All xs

  pub All-append : (xs ys : List A) → All xs → All ys → All (xs ++ ys)
  All-append [] ys hx hy = hy
  All-append (x ∷ xs) ys hx hy = (hx.0, All-append xs ys hx.1 hy)

  -- What holds of all holds of what a filter keeps.
  All-filter : (p : A → Bool) (xs : List A) → All xs → All (filter p xs)
  All-filter p [] h = tt
  All-filter p (x ∷ xs) h = elim (Bool-cases (p x)) [
    | inl kept ↦ rw kept (h.0, All-filter p xs h.1)
    | inr dropped ↦ rw dropped (All-filter p xs h.1)
  ]

  pub All-insert_by :
      (before : A → A → Bool) (x : A) (xs : List A) → P x → All xs → All (insert_by before x xs)
  unfolding insert_by
  All-insert_by before x [] px h = (px, tt)
  All-insert_by before x (y ∷ ys) px h = elim (Bool-cases (before y x)) [
    | inl later ↦ rw later (h.0, All-insert_by before x ys px h.1)
    | inr here ↦ rw here (px, h)
  ]

  -- What holds of all still holds of all once they are sorted.
  pub All-sort_by : (before : A → A → Bool) (xs : List A) → All xs → All (sort_by before xs)
  unfolding sort_by
  All-sort_by before [] h = tt
  All-sort_by before (x ∷ xs) h =
      All-insert_by before x (sort_by before xs) h.0 (All-sort_by before xs h.1)

pub length-map {ℓ κ} :
    {A : Type ℓ} {B : Type κ} (xs : List A) (f : A → B) → length (map f xs) ≡ length xs
length-map [] f = refl
length-map (x ∷ xs) f = ap suc (length-map xs f)

-- Membership, as a sum that can be taken apart.
abbrev pub In : {A : Type 0} → A → List A → Type 0
In x [] = ⊥
In x (y ∷ ys) = (x ≡ y) ⊎ In x ys

pub In-filter :
    {A : Type 0} (p : A → Bool) (x : A) (xs : List A) → In x (filter p xs) → In x xs × (p x ≡ true)
In-filter p x [] m = absurd m
In-filter p x (y ∷ ys) m = by_test (In-filter p x ys) (p y) refl m
  where
    by_test :
        (In x (filter p ys) → In x ys × (p x ≡ true))
        → (b : Bool) → p y ≡ b
        → In x (if b then y ∷ filter p ys else filter p ys)
        → In x (y ∷ ys) × (p x ≡ true)
    by_test ih true e (inl q) = (inl q, rw q e)
    by_test ih true e (inr m) = let (here, holds) = ih m in (inr here, holds)
    by_test ih false e m = let (here, holds) = ih m in (inr here, holds)

module _ {A : Type 0} (p : A → Bool) where
  pub all-append :
      (xs ys : List A) → all p (xs ++ ys) ≡ true → (all p xs ≡ true) × (all p ys ≡ true)
  all-append [] ys h = (refl, h)
  all-append (x ∷ xs) ys h = ground (arith, all-append xs ys)

  pub all-In : (x : A) (xs : List A) → all p xs ≡ true → In x xs → p x ≡ true
  all-In x [] h m = absurd m
  all-In x (y ∷ ys) h (inl e) = rw e (ground arith)
  all-In x (y ∷ ys) h (inr m) = all-In x ys (ground arith) m

module _ {κ} {A : Type 0} (P : A → Type κ) where
  pub All-In : (xs : List A) → ((x : A) → In x xs → P x) → All P xs
  All-In [] f = tt
  All-In (x ∷ xs) f = (f x (inl refl), All-In xs (λ y h. f y (inr h)))

  pub In-All : (x : A) (xs : List A) → All P xs → In x xs → P x
  In-All x (y ∷ ys) h (inl e) = rw e h.0
  In-All x (y ∷ ys) h (inr m) = In-All x ys h.1 m
  In-All x [] h m = absurd m

pub All-map {ℓ κ μ} :
    {A : Type ℓ} {B : Type κ} (P : B → Type μ) (f : A → B) (xs : List A)
    → All (λ x. P (f x)) xs
    → All P (map f xs)
All-map P f [] h = tt
All-map P f (x ∷ xs) h = (h.0, All-map P f xs h.1)

module _ {A : Type 0} (p : A → Bool) where
  count_pos_of_In : (x : A) (xs : List A) → In x xs → p x ≡ true → 1 ≤ count p xs
  count_pos_of_In x [] m h = absurd m
  count_pos_of_In x (y ∷ ys) (inl e) h = ground arith
  count_pos_of_In x (y ∷ ys) (inr m) h = ground (arith, count_pos_of_In x ys m h)

  -- Where one element passes the test, `find` finds that one.
  pub find_of_count :
      (x : A) (xs : List A) → In x xs → p x ≡ true → count p xs ≤ 1 → find p xs ≡ some x
  find_of_count x [] m h c = absurd m
  find_of_count x (y ∷ ys) (inl e) h c = ground arith
  find_of_count x (y ∷ ys) (inr m) h c =
      ground (arith, count_pos_of_In x ys m h, find_of_count x ys m h)

  pub count-find-none : (xs : List A) → find p xs ≡ none → count p xs ≡ 0
  count-find-none [] h = refl
  count-find-none (x ∷ xs) h = ground (arith, count-find-none xs)

  pub In-find : (x : A) (xs : List A) → find p xs ≡ some x → In x xs
  In-find x [] h = absurd (ground arith)
  In-find x (y ∷ ys) h = elim (Bool-cases (p y)) [
    | inl here ↦ inl (ground arith)
    | inr later ↦ inr (In-find x ys (ground arith))
  ]

pub count-map :
    {A B : Type 0} (p : B → Bool) (f : A → B) (xs : List A)
    → count p (map f xs) ≡ count (λ x. p (f x)) xs
count-map p f [] = refl
count-map p f (x ∷ xs) = ground (arith, count-map p f xs)

pub count_mono :
    {A : Type 0} (p q : A → Bool) (xs : List A)
    → All (λ x. p x ≡ true → q x ≡ true) xs
    → count p xs ≤ count q xs
count_mono p q [] h = omega arith
count_mono p q (x ∷ xs) h = ground (arith, h.0, count_mono p q xs h.1)
