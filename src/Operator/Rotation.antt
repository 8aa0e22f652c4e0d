-- ===== src/Operator/Rotation.antt =====
-- `operator/operator.go`: an operator puts a new public key at one of its seven indices.
pub mod Wire
use sohocloud_protocol.Prelude.{ℕ, Option, some, List, ◌==◌, if◌then◌else◌, length, ◌∷◌, [], ltb}
use sohocloud_protocol.Prelude.Int.{ℤ, to_u64, eqb_ℤ}
use sohocloud_protocol.Prelude.Bytes.{codes, bytes_equal}
use sohocloud_protocol.Golang.Ed25519.{Ed25519, sign as ed25519_sign}
use sohocloud_protocol.Canon
use sohocloud_protocol.Canon.Codec.{◌>>=◌}
use sohocloud_protocol.Operator.Keys.{
  default_algo, KeyMap, Verdict, and_then, rejected, accepted, nonce_too_short, unknown_algo,
  index_range, duplicate_signing_key, algo_mismatch, min_nonce_len, expected_sig_len,
  expected_pub_len, out_of_range, verify_pair,
}
use mathlib.Core.Bool.{not}

pub record OperatorRotation : Type 0 where
  pub operator_id : List ℕ
  pub key_index : ℤ
  pub new_public_key : List ℕ
  pub algo : List ℕ
  pub ts_unix_nano : ℤ
  pub nonce : List ℕ
  pub seq : ℕ
  pub idx0 : ℤ
  pub idx1 : ℤ
  pub sig0 : List ℕ
  pub sig1 : List ℕ

abbrev pub domain_rotation : List ℕ
domain_rotation = codes "sohocloud/operator-rotate/v0"

unfoldable pub canonical_bytes : OperatorRotation → List ℕ
canonical_bytes r =
    let b = Canon.new domain_rotation in
    let b = Canon.string b r.operator_id in
    let b = Canon.uint64 b (to_u64 r.key_index) in
    let b = Canon.bytes b r.new_public_key in
    let b = Canon.string b r.algo in
    let b = Canon.int64 b r.ts_unix_nano in
    let b = Canon.bytes b r.nonce in
    let b = Canon.uint64 b r.seq in
    let b = Canon.uint64 b (to_u64 r.idx0) in let b = Canon.uint64 b (to_u64 r.idx1) in Canon.sum b

-- An empty `Algo` becomes "ed25519" before the canonical bytes are taken.
unfoldable pub sign : Ed25519 → List ℕ → List ℕ → ℤ → ℤ → OperatorRotation → Option OperatorRotation
sign c priv0 priv1 idx0 idx1 r =
    let r = record r { idx0 = idx0; idx1 = idx1; algo = default_algo r.algo } in
    let msg = canonical_bytes r in
    do
      sig0 ← ed25519_sign c priv0 msg
      sig1 ← ed25519_sign c priv1 msg
      some (record r { sig0 = sig0; sig1 = sig1 })

-- The first loop over the map: a new key that is registered at another index.
unfoldable pub check_duplicate : KeyMap → ℤ → List ℕ → Verdict
check_duplicate [] key_index new_public_key = accepted
check_duplicate ((idx, rec) ∷ m) key_index new_public_key =
    let rest = check_duplicate m key_index new_public_key in
    if eqb_ℤ idx key_index
    then rest
    else if bytes_equal rec.public_key new_public_key
    then rejected duplicate_signing_key
    else rest

-- The second loop: another algorithm at another index.
unfoldable pub check_algo : KeyMap → ℤ → List ℕ → Verdict
check_algo [] key_index algo = accepted
check_algo ((idx, rec) ∷ m) key_index algo =
    let rest = check_algo m key_index algo in
    if eqb_ℤ idx key_index
    then rest
    else if not (bytes_equal rec.algo algo)
    then rejected algo_mismatch
    else rest

unfoldable pub verify : Ed25519 → KeyMap → OperatorRotation → Verdict
verify c keymap r =
    if ltb (length r.nonce) min_nonce_len
    then rejected nonce_too_short
    else if expected_sig_len r.algo == 0
    then rejected unknown_algo
    else if out_of_range r.key_index
    then rejected index_range
    else if not (length r.new_public_key == expected_pub_len r.algo)
    then rejected unknown_algo
    else and_then (check_duplicate keymap r.key_index r.new_public_key) (
        and_then (check_algo keymap r.key_index r.algo)
          (verify_pair c keymap r.idx0 r.idx1 r.algo (canonical_bytes r) r.sig0 r.sig1))
