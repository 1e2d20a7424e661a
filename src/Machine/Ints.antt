-- ===== src/Machine/Ints.antt =====
-- Signed integers over the native numbers, and the conversions between `int` and `size_t`.
use c_playground.Prelude.{
  ℕ, ◌+◌, ◌-◌, ◌%◌, ◌^◌, ◌<◌, ◌≡◌, Bool, true, false, arith, ltb, leb, if◌then◌else◌,
}

-- `negsuc n` is -(n + 1).
pub data ℤ : Type 0 where
  pos : ℕ → ℤ
  negsuc : ℕ → ℤ

-- a - b, as an integer.
abbrev pub sub_ℕ : ℕ → ℕ → ℤ
sub_ℕ a b = if leb b a then pos (a - b) else negsuc (b - a - 1)

infixl 65 ◌+ℤ◌ ◌-ℤ◌
abbrev pub ◌+ℤ◌ : ℤ → ℤ → ℤ
pos a +ℤ pos b = pos (a + b)
pos a +ℤ negsuc b = sub_ℕ a (b + 1)
negsuc a +ℤ pos b = sub_ℕ b (a + 1)
negsuc a +ℤ negsuc b = negsuc (a + b + 1)

abbrev pub ◌-ℤ◌ : ℤ → ℤ → ℤ
pos a -ℤ pos b = sub_ℕ a b
pos a -ℤ negsuc b = pos (a + b + 1)
negsuc a -ℤ pos b = negsuc (a + b)
negsuc a -ℤ negsuc b = sub_ℕ b a

abbrev pub ltb_ℤ : ℤ → ℤ → Bool
ltb_ℤ (pos a) (pos b) = ltb a b
ltb_ℤ (pos a) (negsuc b) = false
ltb_ℤ (negsuc a) (pos b) = true
ltb_ℤ (negsuc a) (negsuc b) = ltb b a

-- `x * 2` and the like: a product with a positive factor.
abbrev pub scale : ℤ → ℕ → ℤ
scale (pos a) k = pos (Prim.Native.Nat.◌*◌ a k)
scale (negsuc a) k = sub_ℕ 0 (Prim.Native.Nat.◌*◌ (a + 1) k)

-- Within the range of `int`.
abbrev pub fits_int : ℤ → Bool
fits_int (pos a) = ltb a (2 ^ 31)
fits_int (negsuc a) = ltb a (2 ^ 31)

-- `int` to `size_t`.
abbrev pub to_size : ℤ → ℕ
to_size (pos a) = a % 2 ^ 64
to_size (negsuc a) = 2 ^ 64 - 1 - a % 2 ^ 64

-- A 32-bit pattern read as an `int`.
abbrev pub signed32 : ℕ → ℤ
signed32 x = if ltb x (2 ^ 31) then pos x else negsuc (2 ^ 32 - 1 - x)

-- The 32-bit pattern of an `int`.
abbrev pub pattern32 : ℤ → ℕ
pattern32 (pos a) = a % 2 ^ 32
pattern32 (negsuc a) = 2 ^ 32 - 1 - a % 2 ^ 32

-- `size_t` to `int`: the low 32 bits.
abbrev pub to_int : ℕ → ℤ
to_int x = signed32 (x % 2 ^ 32)

pub signed32-pattern32 : (x : ℤ) → fits_int x ≡ true → signed32 (pattern32 x) ≡ x
signed32-pattern32 (pos a) h = ground arith
signed32-pattern32 (negsuc a) h = ground arith

pub pattern32-lt : (x : ℤ) → pattern32 x < 2 ^ 32
pattern32-lt (pos a) = omega arith
pattern32-lt (negsuc a) = omega arith
