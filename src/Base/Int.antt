-- ===== src/Base/Int.antt =====
-- Go's `int32` arithmetic: integers that are wrapped into the 32-bit range after each operation.
use Prim.Native.Nat.{ℕ, suc, ◌+◌, ◌-◌, ◌*◌, ◌/◌, ◌%◌, ◌^◌, ◌<◌, ◌≤◌}
use mathlib.Core.Path.{◌≡◌}
use mathlib.Core.Bool.{Bool, true, false}
use native.Mathlib.Omega.{arith}
use alibaba_cloud_nlb_pool_o.Base.Tests.{ltb, leb, nat_eq, if◌then◌else◌}

-- `negsuc n` is -(n + 1).
pub data ℤ : Type 0 where
  pos : ℕ → ℤ
  negsuc : ℕ → ℤ

abbrev pub pos_part : ℤ → ℕ
pos_part (pos n) = n
pos_part (negsuc n) = 0

abbrev pub neg_part : ℤ → ℕ
neg_part (pos n) = 0
neg_part (negsuc n) = suc n

-- a - b, as an integer
abbrev pub sub_ℕ : ℕ → ℕ → ℤ
sub_ℕ a b = if leb b a then pos (a - b) else negsuc (b - a - 1)

infixl 65 ◌+ℤ◌ ◌-ℤ◌
infixl 70 ◌*ℤ◌
abbrev pub ◌+ℤ◌ : ℤ → ℤ → ℤ
a +ℤ b = sub_ℕ (pos_part a + pos_part b) (neg_part a + neg_part b)

abbrev pub ◌-ℤ◌ : ℤ → ℤ → ℤ
a -ℤ b = sub_ℕ (pos_part a + neg_part b) (neg_part a + pos_part b)

abbrev pub ◌*ℤ◌ : ℤ → ℤ → ℤ
a *ℤ b =
    sub_ℕ (pos_part a * pos_part b + neg_part a * neg_part b)
      (pos_part a * neg_part b + neg_part a * pos_part b)

abbrev pub ltb_ℤ : ℤ → ℤ → Bool
ltb_ℤ a b = ltb (pos_part a + neg_part b) (pos_part b + neg_part a)

abbrev pub leb_ℤ : ℤ → ℤ → Bool
leb_ℤ a b = leb (pos_part a + neg_part b) (pos_part b + neg_part a)

abbrev pub eq_ℤ : ℤ → ℤ → Bool
eq_ℤ a b = nat_eq (pos_part a + neg_part b) (pos_part b + neg_part a)

abbrev pub is_zero : ℤ → Bool
is_zero (pos n) = nat_eq n 0
is_zero (negsuc n) = false

-- |z|, and the integer with a given sign and absolute value
abbrev pub magnitude : ℤ → ℕ
magnitude z = pos_part z + neg_part z

abbrev pub is_negative : ℤ → Bool
is_negative (pos n) = false
is_negative (negsuc n) = true

abbrev pub signed : Bool → ℕ → ℤ
signed true n = sub_ℕ 0 n
signed false n = pos n

-- Go's conversion to `int32`: keep the low 32 bits and read them as two's complement
unfoldable pub wrap32 : ℤ → ℤ
wrap32 (pos n) = let r = n % 2 ^ 32 in if ltb r (2 ^ 31) then pos r else negsuc (2 ^ 32 - 1 - r)
wrap32 (negsuc n) = let r = n % 2 ^ 32 in if ltb r (2 ^ 31) then negsuc r else pos (2 ^ 32 - 1 - r)

unfoldable pub add32 : ℤ → ℤ → ℤ
unfolding wrap32
add32 a b = wrap32 (a +ℤ b)

unfoldable pub sub32 : ℤ → ℤ → ℤ
unfolding wrap32
sub32 a b = wrap32 (a -ℤ b)

unfoldable pub mul32 : ℤ → ℤ → ℤ
unfolding wrap32
mul32 a b = wrap32 (a *ℤ b)

-- Division truncates towards zero, and the remainder has the sign of the dividend. Go panics at a
-- zero divisor: the callers test for it first.
unfoldable pub quot32 : ℤ → ℤ → ℤ
unfolding wrap32
quot32 a b = wrap32 (signed (xor_sign (is_negative a) (is_negative b)) (magnitude a / magnitude b))
  where
    xor_sign : Bool → Bool → Bool
    xor_sign true b = elim b [ true ↦ false | false ↦ true ]
    xor_sign false b = b

unfoldable pub rem32 : ℤ → ℤ → ℤ
unfolding wrap32
rem32 a b = wrap32 (signed (is_negative a) (magnitude a % magnitude b))

-- In range nothing is wrapped.
pub wrap32_pos : (n : ℕ) → n < 2 ^ 31 → wrap32 (pos n) ≡ pos n
unfolding wrap32
wrap32_pos n h = ground arith

pub add32_pos : (a b : ℕ) → a + b < 2 ^ 31 → add32 (pos a) (pos b) ≡ pos (a + b)
unfolding add32
add32_pos a b h = ground arith

pub sub32_pos : (a b : ℕ) → b ≤ a → a < 2 ^ 31 → sub32 (pos a) (pos b) ≡ pos (a - b)
unfolding sub32
sub32_pos a b le h = ground arith

pub mul32_pos : (a b : ℕ) → a * b < 2 ^ 31 → mul32 (pos a) (pos b) ≡ pos (a * b)
unfolding mul32
mul32_pos a b h = ground arith

pub quot32_pos : (a b : ℕ) → a < 2 ^ 31 → quot32 (pos a) (pos b) ≡ pos (a / b)
unfolding quot32
quot32_pos a b h = ground arith

pub rem32_pos : (a b : ℕ) → a < 2 ^ 31 → rem32 (pos a) (pos b) ≡ pos (a % b)
unfolding rem32
rem32_pos a b h = ground arith
