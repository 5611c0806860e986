-- ===== src/Base/Keyed.antt =====
-- Lists whose elements carry a number as their key, read as maps from keys.
use Prim.Native.Nat.{ℕ, ◌≤◌}
use mathlib.Core.Path.{◌≡◌, refl}
use mathlib.Core.Bool.{Bool, not}
use mathlib.Core.List.{List, [], ◌∷◌, ◌++◌, map}
use mathlib.Core.Option.{none, some}
use native.Mathlib.Omega.{arith}
use mawster.Base.Tests.{if◌then◌else◌, ◌==◌, nat_eq, or_opt, opt_map}
use mawster.Base.Lists.{count, find, filter, count-append}

module _ {A : Type 0} (key : A → ℕ) where
  abbrev pub at : ℕ → A → Bool
  at n x = key x == n

  abbrev pub remove_key : ℕ → List A → List A
  remove_key n xs = filter (λ x. not (key x == n)) xs

  abbrev pub modify_key : ℕ → (A → A) → List A → List A
  modify_key n f xs = map (λ x. if key x == n then f x else x) xs

  -- Each key is there at most once.
  abbrev pub IsKeyed : List A → Type 0
  IsKeyed xs = (n : ℕ) → count (at n) xs ≤ 1

  pub find-remove_key :
      (m n : ℕ) (xs : List A)
      → find (at m) (remove_key n xs) ≡ (if m == n then none else find (at m) xs)
  find-remove_key m n [] = ground arith
  find-remove_key m n (x ∷ xs) = ground (arith, find-remove_key m n xs)

  count-remove_key :
      (m n : ℕ) (xs : List A)
      → count (at m) (remove_key n xs) ≡ (if m == n then 0 else count (at m) xs)
  count-remove_key m n [] = ground arith
  count-remove_key m n (x ∷ xs) = ground (arith, count-remove_key m n xs)

  find-append_one :
      (m : ℕ) (xs : List A) (x : A)
      → find (at m) (xs ++ (x ∷ [])) ≡ or_opt (find (at m) xs) (if key x == m then some x else none)
  find-append_one m [] x = ground arith
  find-append_one m (y ∷ ys) x = ground (arith, find-append_one m ys x)

  pub remove_key-IsKeyed : (n : ℕ) (xs : List A) → IsKeyed xs → IsKeyed (remove_key n xs)
  remove_key-IsKeyed n xs h m = ground (arith, count-remove_key m n xs, h m)

  -- An element takes the place of those with its key.
  pub put_key-IsKeyed :
      (x : A) (xs : List A) → IsKeyed xs → IsKeyed (remove_key (key x) xs ++ (x ∷ []))
  put_key-IsKeyed x xs h m = ground (
    arith,
    count-append (at m) (remove_key (key x) xs) (x ∷ []),
    count-remove_key m (key x) xs,
    h m,
  )

  pub find-put_key :
      (m : ℕ) (x : A) (xs : List A)
      → find (at m) (remove_key (key x) xs ++ (x ∷ []))
        ≡ (if m == key x then some x else find (at m) xs)
  find-put_key m x xs =
      ground (arith, find-append_one m (remove_key (key x) xs) x, find-remove_key m (key x) xs)

  module _ (n : ℕ) (f : A → A) (keeps : (x : A) → key x ≡ n → key (f x) ≡ n) where
    pub find-modify_key :
        (m : ℕ) (xs : List A)
        → find (at m) (modify_key n f xs)
          ≡ (if m == n then opt_map f (find (at m) xs) else find (at m) xs)
    find-modify_key m [] = ground arith
    find-modify_key m (x ∷ xs) = ground (arith, keeps x, find-modify_key m xs)

    count-modify_key : (m : ℕ) (xs : List A) → count (at m) (modify_key n f xs) ≡ count (at m) xs
    count-modify_key m [] = refl
    count-modify_key m (x ∷ xs) = ground (arith, keeps x, count-modify_key m xs)

    pub modify_key-IsKeyed : (xs : List A) → IsKeyed xs → IsKeyed (modify_key n f xs)
    modify_key-IsKeyed xs h m = ground (arith, count-modify_key m xs, h m)
