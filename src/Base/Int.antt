-- ===== src/Base/Int.antt =====
-- The type int: whole numbers, with the range that the language gives them.
use Prim.Native.Nat.{ℕ, ◌-◌, ◌^◌}
use mathlib.Core.Bool.{Bool, true, false, not, ◌&&◌}
use programmable_caching.Base.Tests.{ltb}

-- `negsuc n` is -(n + 1).
pub data ℤ : Type 0 where
  pos : ℕ → ℤ
  negsuc : ℕ → ℤ

abbrev pub ltz : ℤ → ℤ → Bool
ltz (pos a) (pos b) = ltb a b
ltz (pos a) (negsuc b) = false
ltz (negsuc a) (pos b) = true
ltz (negsuc a) (negsuc b) = ltb b a

abbrev pub same_int : ℤ → ℤ → Bool
same_int a b = not (ltz a b) && not (ltz b a)

-- The largest int.
abbrev pub int_max : ℕ
int_max = 2 ^ 31 - 1

-- max(0, a - b) for a count `b`, the rounds of `while (a - b > 0) b++`.
unfoldable pub room : ℤ → ℕ → ℕ
room (pos a) b = a - b
room (negsuc a) b = 0
