-- ===== src/Operator/Transmission.antt =====
-- `operator/operator.go`: a frontend's transmission, signed with two of its seven keys.
pub mod Wire
use sohocloud_protocol.Prelude.{ℕ, Option, some, List, ◌==◌, if◌then◌else◌, length, ltb}
use sohocloud_protocol.Prelude.Int.{ℤ, to_u64}
use sohocloud_protocol.Prelude.Bytes.{codes}
use sohocloud_protocol.Golang.Ed25519.{Ed25519, sign as ed25519_sign}
use sohocloud_protocol.Canon
use sohocloud_protocol.Canon.Codec.{◌>>=◌}
use sohocloud_protocol.Operator.Keys.{
  default_algo, KeyMap, Verdict, rejected, nonce_too_short, unknown_algo, min_nonce_len,
  expected_sig_len, verify_pair,
}

pub record OperatorTransmission : Type 0 where
  pub operator_id : List ℕ
  pub ts_unix_nano : ℤ
  pub nonce : List ℕ
  pub seq : ℕ
  pub algo : List ℕ
  pub idx0 : ℤ
  pub idx1 : ℤ
  pub sig0 : List ℕ
  pub sig1 : List ℕ

abbrev pub domain_transmission : List ℕ
domain_transmission = codes "sohocloud/operator/v0"

unfoldable pub canonical_bytes : OperatorTransmission → List ℕ
canonical_bytes t =
    let b = Canon.new domain_transmission in
    let b = Canon.string b t.operator_id in
    let b = Canon.int64 b t.ts_unix_nano in
    let b = Canon.bytes b t.nonce in
    let b = Canon.uint64 b t.seq in
    let b = Canon.string b t.algo in
    let b = Canon.uint64 b (to_u64 t.idx0) in let b = Canon.uint64 b (to_u64 t.idx1) in Canon.sum b

-- An empty `Algo` becomes "ed25519" before the canonical bytes are taken.
unfoldable pub sign :
    Ed25519 → List ℕ → List ℕ → ℤ → ℤ → OperatorTransmission → Option OperatorTransmission
sign c priv0 priv1 idx0 idx1 t =
    let t = record t { idx0 = idx0; idx1 = idx1; algo = default_algo t.algo } in
    let msg = canonical_bytes t in
    do
      sig0 ← ed25519_sign c priv0 msg
      sig1 ← ed25519_sign c priv1 msg
      some (record t { sig0 = sig0; sig1 = sig1 })

unfoldable pub verify : Ed25519 → KeyMap → OperatorTransmission → Verdict
verify c keymap t =
    if ltb (length t.nonce) min_nonce_len
    then rejected nonce_too_short
    else if expected_sig_len t.algo == 0
    then rejected unknown_algo
    else verify_pair c keymap t.idx0 t.idx1 t.algo (canonical_bytes t) t.sig0 t.sig1
