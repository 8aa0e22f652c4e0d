-- ===== src/Fees.antt =====
-- `fees/fees.go`: a coordinator's signed statement of its fee terms.
pub mod Wire
pub mod Balance
use sohocloud_protocol.Prelude.{ℕ, Bool, Option, some, List, ◌==◌, ◌+◌, ◌%◌, ◌^◌}
use sohocloud_protocol.Prelude.Int.{ℤ, pos, to_u64}
use sohocloud_protocol.Prelude.Bytes.{codes}
use sohocloud_protocol.Golang.Time.{Time}
use sohocloud_protocol.Golang.Ed25519.{Ed25519, sign as ed25519_sign}
use sohocloud_protocol.Canon
use sohocloud_protocol.Canon.{verify_sig}
use sohocloud_protocol.Canon.Codec.{◌>>=◌}

-- Go's `int` is 64 bits wide.
pub record Terms : Type 0 where
  pub contributor_share_bps : ℤ
  pub platform_fee_bps : ℤ

-- The sum wraps, as Go's does: two integers are equal modulo 2^64 where their words are.
unfoldable pub balanced : Terms → Bool
balanced t =
    (to_u64 t.contributor_share_bps + to_u64 t.platform_fee_bps) % 2 ^ 64 == to_u64 (pos 10000)

pub record FeeDeclaration : Type 0 where
  pub coordinator_id : List ℕ
  pub terms : Terms
  pub effective_at : Time
  pub seq : ℕ
  pub signature : List ℕ

abbrev pub domain_fee : List ℕ
domain_fee = codes "sohocloud/fee/v0"

unfoldable pub canonical_bytes : FeeDeclaration → List ℕ
canonical_bytes f =
    let b = Canon.new domain_fee in
    let b = Canon.string b f.coordinator_id in
    let b = Canon.int64 b f.terms.contributor_share_bps in
    let b = Canon.int64 b f.terms.platform_fee_bps in
    let b = Canon.time b f.effective_at in let b = Canon.uint64 b f.seq in Canon.sum b

unfoldable pub sign : Ed25519 → List ℕ → FeeDeclaration → Option FeeDeclaration
sign c priv f = do
  sig ← ed25519_sign c priv (canonical_bytes f)
  some (record f { signature = sig })

unfoldable pub verify : Ed25519 → List ℕ → FeeDeclaration → Option Bool
verify c pub_key f = verify_sig c pub_key (canonical_bytes f) f.signature
