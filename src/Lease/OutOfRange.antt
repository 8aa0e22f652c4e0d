-- ===== src/Lease/OutOfRange.antt =====
-- What becomes of an instant that has no encoding: `CanonicalBytes` drops `Err()`, and `Verify` does not
-- read it.
use sohocloud_protocol.Prelude.{ℕ, ◌≡◌, ap, List, false, Bool-cases, inl, inr}
use sohocloud_protocol.Golang.Time.{Time}
use sohocloud_protocol.Golang.Ed25519.{Ed25519}
use sohocloud_protocol.Canon.{Buffer, valid_time, sum, time, uint64, verify_sig}
use sohocloud_protocol.Lease.StorageLease.{StorageLease, canonical_bytes, verify}

-- One instant is skipped, so its place does not show.
two_times :
    (buf : Buffer) (bad bad' t : Time) (n : ℕ)
    → valid_time bad ≡ false
    → valid_time bad' ≡ false
    → (uint64 (time (time buf bad) t) n).b ≡ (uint64 (time (time buf t) bad') n).b
unfolding time uint64
two_times buf bad bad' t n h h' = elim (Bool-cases (valid_time t)) [
  | inl v ↦ rw (h, h', v)
  | inr v ↦ rw (h, h', v)
]

-- Where two instants are out of the range of `ValidTime`, a storage lease issued at the first of
-- them and expiring at `t` has the same canonical bytes as one issued at `t` and expiring at the
-- second, and `Verify` gives the same answer to both under one signature.
pub lease_dates_interchange :
    (c : Ed25519) (key : List ℕ) (l : StorageLease) (bad bad' t : Time)
    → valid_time bad ≡ false
    → valid_time bad' ≡ false
    → (canonical_bytes (record l { issued_at = bad; expires_at = t })
        ≡ canonical_bytes (record l { issued_at = t; expires_at = bad' }))
      × (verify c key (record l { issued_at = bad; expires_at = t })
          ≡ verify c key (record l { issued_at = t; expires_at = bad' }))
unfolding verify canonical_bytes sum
lease_dates_interchange c key l bad bad' t h h' =
    let same = two_times _ bad bad' t l.seq h h' in
    (same, ap (λ msg. verify_sig c key msg l.signature) same)
