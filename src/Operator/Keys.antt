-- ===== src/Operator/Keys.antt =====
-- `operator/operator.go` and `operator/signer.go`: registered keys and the two-of-seven check that
-- the three operator messages share. `ed25519.Verify` may panic, and so may what calls it.
use sohocloud_protocol.Prelude.{
  ℕ, Bool, true, false, ◌||◌, Option, none, some, List, [], ◌∷◌, length, ◌==◌, if◌then◌else◌,
}
use sohocloud_protocol.Prelude.Int.{ℤ, pos, ltb_ℤ, eqb_ℤ}
use sohocloud_protocol.Prelude.Bytes.{codes, bytes_equal}
use sohocloud_protocol.Golang.Ed25519.{
  Ed25519, public_key_size, signature_size, verify as ed25519_verify,
}
use mathlib.Core.Bool.{not}

abbrev pub algo_ed25519 : List ℕ
algo_ed25519 = codes "ed25519"

-- `if x.Algo == "" { x.Algo = AlgoEd25519 }`
unfoldable pub default_algo : List ℕ → List ℕ
default_algo algo = if bytes_equal algo [] then algo_ed25519 else algo

abbrev pub min_nonce_len : ℕ
min_nonce_len = 16

abbrev pub key_index_count : ℤ
key_index_count = pos 7

pub data OperatorError : Type 0 where
  same_index nonce_too_short unknown_algo algo_mismatch key_missing : OperatorError
  bad_signature bad_sig_length index_range duplicate_signing_key : OperatorError

-- An `error` result: nil, or an error. The last constructor is a panic.
pub data Verdict : Type 0 where
  accepted : Verdict
  rejected : OperatorError → Verdict
  panicked : Verdict

-- `if err := a; err != nil { return err }; b`
abbrev pub and_then : Verdict → Verdict → Verdict
and_then accepted b = b
and_then (rejected e) b = rejected e
and_then panicked b = panicked

pub record KeyRecord : Type 0 where
  pub public_key : List ℕ
  pub algo : List ℕ

-- A `map[int]KeyRecord`: its entries in an order of iteration, each index at most once.
abbrev pub KeyMap : Type 0
KeyMap = List (ℤ × KeyRecord)

unfoldable pub lookup : ℤ → KeyMap → Option KeyRecord
lookup idx [] = none
lookup idx ((i, rec) ∷ m) = if eqb_ℤ i idx then some rec else lookup idx m

unfoldable pub expected_sig_len : List ℕ → ℕ
expected_sig_len algo = if bytes_equal algo algo_ed25519 then signature_size else 0

unfoldable pub expected_pub_len : List ℕ → ℕ
expected_pub_len algo = if bytes_equal algo algo_ed25519 then public_key_size else 0

-- `Ed25519Verifier.Verify`
unfoldable pub verifier_verify : Ed25519 → List ℕ → List ℕ → List ℕ → Option Bool
verifier_verify c pub_key msg sig =
    if length pub_key == public_key_size
    then (if length sig == signature_size then ed25519_verify c pub_key msg sig else some false)
    else some false

abbrev pub out_of_range : ℤ → Bool
out_of_range idx = ltb_ℤ idx (pos 0) || not (ltb_ℤ idx key_index_count)

-- `if !(…) { return ErrBadSignature }; return nil`
abbrev pub signature_verdict : Option Bool → Verdict
signature_verdict none = panicked
signature_verdict (some true) = accepted
signature_verdict (some false) = rejected bad_signature

-- The part of `verifyAt` behind the lookup.
unfoldable pub verify_record : Ed25519 → Option KeyRecord → List ℕ → List ℕ → List ℕ → Verdict
verify_record c none algo msg sig = rejected key_missing
verify_record c (some rec) algo msg sig =
    if not (bytes_equal rec.algo algo)
    then rejected algo_mismatch
    else if not (length sig == expected_sig_len algo)
    then rejected bad_sig_length
    else if not (length rec.public_key == expected_pub_len algo)
    then rejected key_missing
    else signature_verdict (verifier_verify c rec.public_key msg sig)

unfoldable pub verify_at : Ed25519 → KeyMap → ℤ → List ℕ → List ℕ → List ℕ → Verdict
verify_at c keymap idx algo msg sig =
    if out_of_range idx
    then rejected index_range
    else verify_record c (lookup idx keymap) algo msg sig

-- `ok0 && ok1 && bytes.Equal(rec0.PublicKey, rec1.PublicKey)`
abbrev pub same_public_key : Option KeyRecord → Option KeyRecord → Bool
same_public_key (some rec0) (some rec1) = bytes_equal rec0.public_key rec1.public_key
same_public_key (some rec0) none = false
same_public_key none _ = false

unfoldable pub distinct_keys_at : KeyMap → ℤ → ℤ → Verdict
distinct_keys_at keymap idx0 idx1 =
    if out_of_range idx0 || out_of_range idx1
    then rejected index_range
    else if same_public_key (lookup idx0 keymap) (lookup idx1 keymap)
    then rejected duplicate_signing_key
    else accepted

unfoldable pub verify_pair : Ed25519 → KeyMap → ℤ → ℤ → List ℕ → List ℕ → List ℕ → List ℕ → Verdict
verify_pair c keymap idx0 idx1 algo msg sig0 sig1 =
    if eqb_ℤ idx0 idx1
    then rejected same_index
    else and_then (distinct_keys_at keymap idx0 idx1) (
        and_then (verify_at c keymap idx0 algo msg sig0)
          (and_then (verify_at c keymap idx1 algo msg sig1) accepted))
