-- ===== src/Prelude/Int.antt =====
-- Go's `int64`, as an integer in [-2^63, 2^63). `negsuc n` is -(n + 1).
use Prim.Native.Nat.{ℕ, zero, suc, ◌+◌, ◌-◌, ◌^◌, ◌%◌}
use mathlib.Core.Path.{◌≡◌}
use mathlib.Core.Logic.{◌↔◌}
use mathlib.Core.Bool.{Bool, true, false, not}
use native.Mathlib.Omega.{arith}
use dtvn.Prelude.Tests.{ltb, nat_beq, if◌then◌else◌, Eq}

pub data ℤ : Type 0 where
  pos : ℕ → ℤ
  negsuc : ℕ → ℤ

abbrev pub beq_ℤ : ℤ → ℤ → Bool
beq_ℤ (pos a) (pos b) = nat_beq a b
beq_ℤ (negsuc a) (negsuc b) = nat_beq a b
beq_ℤ (pos a) (negsuc b) = false
beq_ℤ (negsuc a) (pos b) = false

pub beq_ℤ_iff : (a b : ℤ) → (beq_ℤ a b ≡ true) ↔ (a ≡ b)
beq_ℤ_iff (pos a) (pos b) = ground arith
beq_ℤ_iff (negsuc a) (negsuc b) = ground arith
beq_ℤ_iff (pos a) (negsuc b) = ground arith
beq_ℤ_iff (negsuc a) (pos b) = ground arith

instance abbrev pub int_eq : Eq ℤ
int_eq = record { beq = beq_ℤ; beq_iff = beq_ℤ_iff }

abbrev pub ltb_ℤ : ℤ → ℤ → Bool
ltb_ℤ (pos a) (pos b) = ltb a b
ltb_ℤ (negsuc a) (negsuc b) = ltb b a
ltb_ℤ (pos a) (negsuc b) = false
ltb_ℤ (negsuc a) (pos b) = true

abbrev pub leb_ℤ : ℤ → ℤ → Bool
leb_ℤ a b = not (ltb_ℤ b a)

-- `x++` on an `int64` wraps from 2^63 - 1 to -2^63.
abbrev pub incr_int64 : ℤ → ℤ
incr_int64 (pos n) = if nat_beq (n + 1) (2 ^ 63) then negsuc (2 ^ 63 - 1) else pos (n + 1)
incr_int64 (negsuc zero) = pos 0
incr_int64 (negsuc (suc n)) = negsuc n

-- Go's `x % m` for 0 < m takes the sign of `x`.
abbrev pub rem_ℤ : ℤ → ℕ → ℤ
rem_ℤ (pos n) m = pos (n % m)
rem_ℤ (negsuc n) m = let r = (n + 1) % m in if nat_beq r 0 then pos 0 else negsuc (r - 1)

pub ltb_ℤ_asym : (a b : ℤ) → ltb_ℤ a b ≡ true → ltb_ℤ b a ≡ false
ltb_ℤ_asym (pos a) (pos b) h = ground arith
ltb_ℤ_asym (pos a) (negsuc b) h = ground arith
ltb_ℤ_asym (negsuc a) (pos b) h = ground arith
ltb_ℤ_asym (negsuc a) (negsuc b) h = ground arith

pub ltb_ℤ_irrefl : (a : ℤ) → ltb_ℤ a a ≡ false
ltb_ℤ_irrefl (pos a) = ground arith
ltb_ℤ_irrefl (negsuc a) = ground arith

-- `x + y` on `int64`, which wraps.
abbrev pub add_int64 : ℤ → ℤ → ℤ
add_int64 (pos m) (pos n) =
    if ltb (m + n) (2 ^ 63) then pos (m + n) else negsuc (2 ^ 64 - (m + n) - 1)
add_int64 (pos m) (negsuc n) = if ltb n m then pos (m - n - 1) else negsuc (n - m)
add_int64 (negsuc m) (pos n) = if ltb m n then pos (n - m - 1) else negsuc (m - n)
add_int64 (negsuc m) (negsuc n) =
    if ltb (m + n + 1) (2 ^ 63) then negsuc (m + n + 1) else pos (2 ^ 64 - (m + n + 2))
