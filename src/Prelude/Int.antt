-- ===== src/Prelude/Int.antt =====
-- Signed integers over the native numbers, as far as Go's `int64` and its instants need them.
use sohocloud_protocol.Prelude.{
  ℕ, suc, ◌+◌, ◌-◌, ◌%◌, ◌^◌, ◌≤◌, ◌<◌, ◌≡◌, Bool, arith, ltb, ◌==◌, if◌then◌else◌, ◌↔◌, true,
}

-- `negsuc n` is -(n + 1).
pub data ℤ : Type 0 where
  pos : ℕ → ℤ
  negsuc : ℕ → ℤ

abbrev pub pos_part : ℤ → ℕ
pos_part (pos n) = n
pos_part (negsuc n) = 0

abbrev pub neg_part : ℤ → ℕ
neg_part (pos n) = 0
neg_part (negsuc n) = suc n

infix 50 ◌≤ℤ◌ ◌<ℤ◌
abbrev pub ◌≤ℤ◌ : ℤ → ℤ → Type 0
a ≤ℤ b = pos_part a + neg_part b ≤ pos_part b + neg_part a

abbrev pub ◌<ℤ◌ : ℤ → ℤ → Type 0
a <ℤ b = pos_part a + neg_part b < pos_part b + neg_part a

abbrev pub ltb_ℤ : ℤ → ℤ → Bool
ltb_ℤ a b = ltb (pos_part a + neg_part b) (pos_part b + neg_part a)

abbrev pub eqb_ℤ : ℤ → ℤ → Bool
eqb_ℤ a b = pos_part a + neg_part b == pos_part b + neg_part a

pub eqb_ℤ_iff : (a b : ℤ) → (eqb_ℤ a b ≡ true) ↔ (a ≡ b)
eqb_ℤ_iff a b = ground arith

-- The values of an `int64`.
abbrev pub min_int64 : ℤ
min_int64 = negsuc (2 ^ 63 - 1)

abbrev pub max_int64 : ℤ
max_int64 = pos (2 ^ 63 - 1)

abbrev pub IsI64 : ℤ → Type 0
IsI64 z = (min_int64 ≤ℤ z) × (z ≤ℤ max_int64)

abbrev pub IsU64 : ℕ → Type 0
IsU64 n = n < 2 ^ 64

-- Go's conversion `uint64(v)`: the residue of `v` modulo 2^64.
unfoldable pub to_u64 : ℤ → ℕ
to_u64 (pos n) = n % 2 ^ 64
to_u64 (negsuc n) = 2 ^ 64 - 1 - n % 2 ^ 64

-- Go's conversion `int64(v)` of a `uint64`: its bit pattern read as two's complement.
unfoldable pub to_i64 : ℕ → ℤ
to_i64 n = if ltb n (2 ^ 63) then pos n else negsuc (2 ^ 64 - 1 - n)

pub to_u64-IsU64 : (z : ℤ) → IsU64 (to_u64 z)
unfolding to_u64
to_u64-IsU64 (pos n) = omega arith
to_u64-IsU64 (negsuc n) = omega arith

pub to_i64-to_u64 : (z : ℤ) → IsI64 z → to_i64 (to_u64 z) ≡ z
unfolding to_u64 to_i64
to_i64-to_u64 (pos n) h = ground arith
to_i64-to_u64 (negsuc n) h = ground arith

pub to_u64-to_i64 : (n : ℕ) → IsU64 n → to_u64 (to_i64 n) ≡ n
unfolding to_u64 to_i64
to_u64-to_i64 n h = ground arith

-- `a + b` and `a - b` on `int64`, which wrap.
unfoldable pub add_i64 : ℤ → ℤ → ℤ
add_i64 a b = to_i64 ((to_u64 a + to_u64 b) % 2 ^ 64)

unfoldable pub sub_i64 : ℤ → ℤ → ℤ
sub_i64 a b = to_i64 ((to_u64 a + 2 ^ 64 - to_u64 b) % 2 ^ 64)
