-- ===== src/Prelude/Int.antt =====
-- Signed integers over the native numbers, under the library's names, and the wrap of `int32`.
use soj.Prelude.{
  ℕ, suc, ◌+◌, ◌-◌, ◌*◌, ◌%◌, ◌<◌, ◌≡◌, refl, Bool, arith, ltb, leb, ◌==◌, if◌then◌else◌,
}

-- `negsuc n` is -(n + 1).
pub data ℤ : Type 0 where
  pos : ℕ → ℤ
  negsuc : ℕ → ℤ

abbrev pub pos_part : ℤ → ℕ
pos_part (pos n) = n
pos_part (negsuc n) = 0

abbrev pub neg_part : ℤ → ℕ
neg_part (pos n) = 0
neg_part (negsuc n) = suc n

-- a - b, as an integer.
abbrev pub sub_ℕ : ℕ → ℕ → ℤ
sub_ℕ a b = if leb b a then pos (a - b) else negsuc (b - a - 1)

infixl 65 ◌+ℤ◌ ◌-ℤ◌
infixl 70 ◌*ℤ◌
unfoldable pub ◌+ℤ◌ : ℤ → ℤ → ℤ
a +ℤ b = sub_ℕ (pos_part a + pos_part b) (neg_part a + neg_part b)

unfoldable pub ◌-ℤ◌ : ℤ → ℤ → ℤ
a -ℤ b = sub_ℕ (pos_part a + neg_part b) (neg_part a + pos_part b)

unfoldable pub ◌*ℤ◌ : ℤ → ℤ → ℤ
a *ℤ b =
    sub_ℕ (pos_part a * pos_part b + neg_part a * neg_part b)
      (pos_part a * neg_part b + neg_part a * pos_part b)

abbrev pub ltb_ℤ : ℤ → ℤ → Bool
ltb_ℤ a b = ltb (pos_part a + neg_part b) (pos_part b + neg_part a)

abbrev pub leb_ℤ : ℤ → ℤ → Bool
leb_ℤ a b = leb (pos_part a + neg_part b) (pos_part b + neg_part a)

abbrev pub eqb_ℤ : ℤ → ℤ → Bool
eqb_ℤ a b = (pos_part a + neg_part b) == (pos_part b + neg_part a)

-- The residue of an integer modulo 2 ^ 32, and the `int32` that a residue stands for.
abbrev pub residue_32 : ℤ → ℕ
residue_32 (pos n) = n % 4294967296
residue_32 (negsuc n) = 4294967295 - n % 4294967296

abbrev pub signed_32 : ℕ → ℤ
signed_32 m = if ltb m 2147483648 then pos m else negsuc (4294967295 - m)

-- What an `int32` variable holds after an integer is stored into it.
unfoldable pub to_int32 : ℤ → ℤ
to_int32 z = signed_32 (residue_32 z)

abbrev pub IsInt32 : ℤ → Type 0
IsInt32 (pos n) = n < 2147483648
IsInt32 (negsuc n) = n < 2147483648

pub to_int32_of_IsInt32 : (z : ℤ) → IsInt32 z → to_int32 z ≡ z
unfolding to_int32
to_int32_of_IsInt32 (pos n) h = ground arith
to_int32_of_IsInt32 (negsuc n) h = ground arith

pub to_int32-IsInt32 : (z : ℤ) → IsInt32 (to_int32 z)
unfolding to_int32
to_int32-IsInt32 z = ground arith

-- The wraps of a sum's parts may be left to the end.
pub to_int32-add : (a b : ℤ) → to_int32 (to_int32 a +ℤ b) ≡ to_int32 (a +ℤ b)
unfolding to_int32 ◌+ℤ◌
to_int32-add (pos a) (pos b) = ground arith
to_int32-add (pos a) (negsuc b) = ground arith
to_int32-add (negsuc a) (pos b) = ground arith
to_int32-add (negsuc a) (negsuc b) = ground arith

pub eqb_ℤ_refl : (a : ℤ) → eqb_ℤ a a ≡ Bool.true
eqb_ℤ_refl a = ground arith

pub pos-add : (a b : ℕ) → pos a +ℤ pos b ≡ pos (a + b)
unfolding ◌+ℤ◌
pos-add a b = ground arith

pub to_int32_idem : (z : ℤ) → to_int32 (to_int32 z) ≡ to_int32 z
to_int32_idem z = to_int32_of_IsInt32 (to_int32 z) (to_int32-IsInt32 z)

pub +ℤ_comm : (a b : ℤ) → a +ℤ b ≡ b +ℤ a
unfolding ◌+ℤ◌
+ℤ_comm a b = ground arith

pub +ℤ_assoc : (a b c : ℤ) → a +ℤ b +ℤ c ≡ a +ℤ (b +ℤ c)
unfolding ◌+ℤ◌
+ℤ_assoc a b c = ground arith

pub to_int32-add_right : (a b : ℤ) → to_int32 (a +ℤ to_int32 b) ≡ to_int32 (a +ℤ b)
to_int32-add_right a b = rw (+ℤ_comm a (to_int32 b), +ℤ_comm a b) (to_int32-add b a)

pub +ℤ_zero : (a : ℤ) → a +ℤ pos 0 ≡ a
unfolding ◌+ℤ◌
+ℤ_zero a = ground arith

pub zero_+ℤ : (a : ℤ) → pos 0 +ℤ a ≡ a
unfolding ◌+ℤ◌
zero_+ℤ a = ground arith

pub to_int32_zero : to_int32 (pos 0) ≡ pos 0
unfolding to_int32
to_int32_zero = refl
