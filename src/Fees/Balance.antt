-- ===== src/Fees/Balance.antt =====
-- `Terms.Balanced`.
use sohocloud_protocol.Prelude.{◌+◌, ◌^◌, ◌-◌, ◌%◌, ◌≡◌, ◌↔◌, ◌⊎◌, inl, inr, true, arith}
use sohocloud_protocol.Prelude.Int.{ℤ, pos, negsuc, pos_part, neg_part, IsI64, to_u64}
use sohocloud_protocol.Fees.{Terms, balanced}

-- `a + b = z` as integers.
abbrev pub SumsTo : ℤ → ℤ → ℤ → Type 0
SumsTo a b z = pos_part a + pos_part b + neg_part z ≡ pos_part z + neg_part a + neg_part b

abbrev WordSum : ℤ → ℤ → Type 0
WordSum a b = SumsTo a b (pos 10000) ⊎ SumsTo a b (negsuc (2 ^ 64 - 10001))

balanced_sound :
    (a b : ℤ) → IsI64 a → IsI64 b → (to_u64 a + to_u64 b) % 2 ^ 64 ≡ 10000 → WordSum a b
unfolding to_u64
balanced_sound (pos a) (pos b) h k e = inl (omega arith)
balanced_sound (pos a) (negsuc b) h k e = inl (omega arith)
balanced_sound (negsuc a) (pos b) h k e = inl (omega arith)
balanced_sound (negsuc a) (negsuc b) h k e = inr (omega arith)

balanced_complete :
    (a b : ℤ) → IsI64 a → IsI64 b → WordSum a b → (to_u64 a + to_u64 b) % 2 ^ 64 ≡ 10000
unfolding to_u64
balanced_complete (pos a) (pos b) h k e = omega arith
balanced_complete (pos a) (negsuc b) h k e = omega arith
balanced_complete (negsuc a) (pos b) h k e = omega arith
balanced_complete (negsuc a) (negsuc b) h k e = omega arith

-- For shares that are Go `int`s, `Balanced` holds exactly if they sum to 10000, or to 10000 - 2^64,
-- where the sum wraps.
pub balanced_iff :
    (t : Terms)
    → IsI64 t.contributor_share_bps
    → IsI64 t.platform_fee_bps
    → (balanced t ≡ true) ↔ (
        SumsTo t.contributor_share_bps t.platform_fee_bps (pos 10000)
        ⊎ SumsTo t.contributor_share_bps t.platform_fee_bps (negsuc (2 ^ 64 - 10001)))
unfolding balanced to_u64
balanced_iff t h k = (
  λ e. balanced_sound t.contributor_share_bps t.platform_fee_bps h k (ground arith),
  λ s. ground (arith, balanced_complete t.contributor_share_bps t.platform_fee_bps h k s),
)
