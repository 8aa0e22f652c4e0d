-- ===== src/Golang/Slice.antt =====
-- Slice expressions, and `crypto/sha256` as an interface.
use sohocloud_protocol.Prelude.{
  ℕ, ◌-◌, ◌≡◌, Option, none, some, List, length, take, drop, if◌then◌else◌, ◌&&◌,
}
use sohocloud_protocol.Prelude.Int.{ℤ, pos, pos_part, ltb_ℤ}
use mathlib.Core.Bool.{not}

-- `s[lo:hi]`: `none` is the panic. Go lets `hi` pass the length as far as the capacity; here a slice
-- has no capacity beyond its length.
unfoldable pub slice : {A : Type 0} → List A → ℤ → ℤ → Option (List A)
slice s lo hi =
    if not (ltb_ℤ lo (pos 0)) && not (ltb_ℤ hi lo) && not (ltb_ℤ (pos (length s)) hi)
    then some (take (pos_part hi - pos_part lo) (drop (pos_part lo) s))
    else none

-- The digest of the bytes written to the hash.
pub record Sha256 : Type 0 where
  pub digest : List ℕ → List ℕ
  pub length-digest : (l : List ℕ) → length (digest l) ≡ 32
