-- ===== src/Operator/Conformance.antt =====
-- `operator/operator.go`: an operator's signed response to a conformance challenge.
pub mod Wire
use sohocloud_protocol.Prelude.{ℕ, Option, some, List, ◌==◌, if◌then◌else◌}
use sohocloud_protocol.Prelude.Int.{ℤ, to_u64}
use sohocloud_protocol.Prelude.Bytes.{codes}
use sohocloud_protocol.Golang.Ed25519.{Ed25519, sign as ed25519_sign}
use sohocloud_protocol.Canon
use sohocloud_protocol.Canon.Codec.{◌>>=◌}
use sohocloud_protocol.Operator.Keys.{
  default_algo, KeyMap, Verdict, rejected, unknown_algo, expected_sig_len, verify_pair,
}

pub record ConformanceResponse : Type 0 where
  pub operator_id : List ℕ
  pub challenge : List ℕ
  pub algo : List ℕ
  pub idx0 : ℤ
  pub idx1 : ℤ
  pub sig0 : List ℕ
  pub sig1 : List ℕ

abbrev pub domain_conformance : List ℕ
domain_conformance = codes "sohocloud/operator-conformance/v0"

unfoldable pub canonical_bytes : ConformanceResponse → List ℕ
canonical_bytes r =
    let b = Canon.new domain_conformance in
    let b = Canon.string b r.operator_id in
    let b = Canon.bytes b r.challenge in
    let b = Canon.string b r.algo in
    let b = Canon.uint64 b (to_u64 r.idx0) in let b = Canon.uint64 b (to_u64 r.idx1) in Canon.sum b

-- An empty `Algo` becomes "ed25519" before the canonical bytes are taken.
unfoldable pub sign :
    Ed25519 → List ℕ → List ℕ → ℤ → ℤ → ConformanceResponse → Option ConformanceResponse
sign c priv0 priv1 idx0 idx1 r =
    let r = record r { idx0 = idx0; idx1 = idx1; algo = default_algo r.algo } in
    let msg = canonical_bytes r in
    do
      sig0 ← ed25519_sign c priv0 msg
      sig1 ← ed25519_sign c priv1 msg
      some (record r { sig0 = sig0; sig1 = sig1 })

unfoldable pub verify : Ed25519 → KeyMap → ConformanceResponse → Verdict
verify c keymap r =
    if expected_sig_len r.algo == 0
    then rejected unknown_algo
    else verify_pair c keymap r.idx0 r.idx1 r.algo (canonical_bytes r) r.sig0 r.sig1
