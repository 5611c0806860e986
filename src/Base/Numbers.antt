-- ===== src/Base/Numbers.antt =====
-- JavaScript numbers as far as the program compares them: a finite number is its floor and the
-- rank of its fractional part among those that occur, 0 for a whole number.
use Prim.Native.Nat.{ℕ}
use mathlib.Core.Path.{◌≡◌}
use mathlib.Core.Logic.{◌↔◌}
use mathlib.Core.Bool.{Bool, true, false, ◌&&◌, ◌||◌}
use native.Mathlib.Omega.{arith}
use mawster.Base.Tests.{ltb, nat_beq, Eq}

-- `negsuc n` is -(n + 1).
pub data ℤ : Type 0 where
  pos : ℕ → ℤ
  negsuc : ℕ → ℤ

abbrev int_beq : ℤ → ℤ → Bool
int_beq (pos m) (pos n) = nat_beq m n
int_beq (pos m) (negsuc n) = false
int_beq (negsuc m) (pos n) = false
int_beq (negsuc m) (negsuc n) = nat_beq m n

abbrev int_lt : ℤ → ℤ → Bool
int_lt (pos m) (pos n) = ltb m n
int_lt (pos m) (negsuc n) = false
int_lt (negsuc m) (pos n) = true
int_lt (negsuc m) (negsuc n) = ltb n m

pub record Num : Type 0 where
  pub floor : ℤ
  pub part : ℕ

abbrev num_beq : Num → Num → Bool
num_beq a b = int_beq a.floor b.floor && nat_beq a.part b.part

abbrev pub num_lt : Num → Num → Bool
num_lt a b = int_lt a.floor b.floor || int_beq a.floor b.floor && ltb a.part b.part

abbrev pub whole : ℕ → Num
whole n = record { floor = pos n; part = 0 }

pub num_beq_iff : (a b : Num) → (num_beq a b ≡ true) ↔ (a ≡ b)
num_beq_iff a b = ground arith

instance abbrev pub num_eq : Eq Num
num_eq = record { beq = num_beq; beq_iff = num_beq_iff }
