-- ===== src/Base/Decimal.antt =====
-- `parseInt` on a run of digits, and `String(n)`.
use Prim.Native.Nat.{ℕ, zero, suc, ◌+◌, ◌*◌, ◌-◌, ◌/◌, ◌%◌, ◌<◌}
use mathlib.Core.Path.{◌≡◌, refl}
use mathlib.Core.Logic.{inl, inr}
use mathlib.Core.Bool.{true, false}
use mathlib.Core.List.{[], ◌∷◌, ◌++◌}
use native.Mathlib.Omega.{arith}
use mawster.Base.Tests.{ltb, if◌then◌else◌, Bool-cases}
use mawster.Base.Lists.{All, All-append}
use mawster.Base.Texts.{Text, is_digit, is_empty, span_digits}

-- `parseInt(s, 10)` where `s` is a run of digits, read from the left.
unfoldable parse_from : ℕ → Text → ℕ
parse_from acc [] = acc
parse_from acc (c ∷ s) = parse_from (acc * 10 + (c - b'0')) s

unfoldable pub parse_int : Text → ℕ
unfolding parse_from
parse_int s = parse_from 0 s

-- The digits of `n`; `fuel` bounds their number.
unfoldable print_digits : ℕ → ℕ → Text
print_digits zero n = []
print_digits (suc fuel) n =
    let more = print_digits fuel (n / 10) ++ (b'0' + n % 10) ∷ [] in
    if ltb n 10 then (b'0' + n) ∷ [] else more

-- `String(n)`; a number has fewer digits than its value plus one.
unfoldable pub to_decimal : ℕ → Text
unfolding print_digits
to_decimal n = print_digits (suc n) n

abbrev pub AreDigits : Text → Type 0
AreDigits = All (λ c. is_digit c ≡ true)

parse_from-append :
    (acc : ℕ) (s : Text) (c : ℕ) → parse_from acc (s ++ c ∷ []) ≡ parse_from acc s * 10 + (c - b'0')
unfolding parse_from
parse_from-append acc [] c = refl
parse_from-append acc (d ∷ s) c = parse_from-append (acc * 10 + (d - b'0')) s c

parse_int-print_digits : (fuel n : ℕ) → n < fuel → parse_int (print_digits fuel n) ≡ n
unfolding parse_int print_digits
parse_int-print_digits zero n h = absurd (omega arith)
parse_int-print_digits (suc fuel) n h = ground (
  arith,
  parse_from-append 0 (print_digits fuel (n / 10)) (b'0' + n % 10),
  parse_int-print_digits fuel (n / 10),
)

print_digits-AreDigits : (fuel n : ℕ) → AreDigits (print_digits fuel n)
unfolding print_digits
print_digits-AreDigits zero n = tt
print_digits-AreDigits (suc fuel) n = elim (Bool-cases (ltb n 10)) [
  | inl small ↦ rw small (ground arith, tt)
  | inr large ↦ rw large (
      All-append (λ c. is_digit c ≡ true) (print_digits fuel (n / 10)) ((b'0' + n % 10) ∷ [])
        (print_digits-AreDigits fuel (n / 10)) (ground arith, tt))
]

pub parse_int-to_decimal : (n : ℕ) → parse_int (to_decimal n) ≡ n
unfolding to_decimal
parse_int-to_decimal n = parse_int-print_digits (suc n) n (omega arith)

pub to_decimal-AreDigits : (n : ℕ) → AreDigits (to_decimal n)
unfolding to_decimal
to_decimal-AreDigits n = print_digits-AreDigits (suc n) n

is_empty-concat : (s : Text) (c : ℕ) → is_empty (s ++ c ∷ []) ≡ false
is_empty-concat [] c = refl
is_empty-concat (d ∷ s) c = refl

-- A printed number is not empty, and a greedy `\d*` takes all of it.
pub is_empty-to_decimal : (n : ℕ) → is_empty (to_decimal n) ≡ false
unfolding to_decimal
is_empty-to_decimal n = ground (arith, is_empty-concat (print_digits n (n / 10)) (b'0' + n % 10))

pub span_digits-AreDigits : (s : Text) → AreDigits s → span_digits s ≡ (s, [])
unfolding span_digits
span_digits-AreDigits [] h = refl
span_digits-AreDigits (c ∷ s) h = rw (h.0, span_digits-AreDigits s h.1)
