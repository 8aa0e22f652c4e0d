-- ===== src/Coordinator/Trust.antt =====
-- What `coordinator/coordinator.go` and `identity/keylife.go` ask of one who keeps a node's key: the
-- trusted key of one node, and how a rotation or a revocation changes it.
use sohocloud_protocol.Prelude.{
  ℕ, ◌≡◌, ◌<◌, refl, Option, none, some, Bool, true, false, List, ltb, if◌then◌else◌, arith,
}
use sohocloud_protocol.Golang.Ed25519.{Ed25519}
use sohocloud_protocol.Identity.KeyRotation
use sohocloud_protocol.Identity.KeyRotation.{KeyRotation}
use sohocloud_protocol.Identity.KeyRevocation
use sohocloud_protocol.Identity.KeyRevocation.{KeyRevocation}

-- The trusted key, or none behind a revocation, and the last Seq of a rotation.
pub record Trust : Type 0 where
  pub key : Option (List ℕ)
  pub seq : ℕ

pub data KeyCall : Type 0 where
  rotate_call : KeyRotation → KeyCall
  revoke_call : KeyRevocation → KeyCall

abbrev pub call_node : KeyCall → List ℕ
call_node (rotate_call r) = r.node_id
call_node (revoke_call r) = r.node_id

abbrev pub if_verified : Option Bool → Trust → Option Trust
if_verified (some true) t = some t
if_verified (some false) t = none
if_verified none t = none

-- A rotation is verified with the key that is trusted now, and its Seq has to be above the last. A
-- revocation that verifies is honoured whatever its Seq. Behind a revocation there is no key with which
-- a message could be verified.
unfoldable pub step_key : Ed25519 → Option (List ℕ) → ℕ → KeyCall → Option Trust
step_key c none seq call = none
step_key c (some key) seq (rotate_call r) =
    if ltb seq r.seq
    then if_verified (KeyRotation.verify c key r)
        (record { key = some r.new_public_key; seq = r.seq })
    else none
step_key c (some key) seq (revoke_call r) =
    if_verified (KeyRevocation.verify c key r) (record { key = none; seq = seq })

unfoldable pub step : Ed25519 → Trust → KeyCall → Option Trust
unfolding step_key
step c t call = step_key c t.key t.seq call

if_verified-some :
    (o : Option Bool) (t t' : Trust) → if_verified o t ≡ some t' → (o ≡ some true) × (t ≡ t')
if_verified-some (some true) t t' h = (refl, cc)
if_verified-some (some false) t t' h = cc
if_verified-some none t t' h = cc

-- What an accepted rotation tells.
pub record Rotated (c : Ed25519) (key : Option (List ℕ)) (seq : ℕ) (r : KeyRotation) (t : Trust)
    : Type 0 where
  pub current : List ℕ
  pub trusted : key ≡ some current
  pub newer : seq < r.seq
  pub verified : KeyRotation.verify c current r ≡ some true
  pub becomes : record { key = some r.new_public_key; seq = r.seq } ≡ t

step-Rotated :
    (c : Ed25519) (key : Option (List ℕ)) (seq : ℕ) (r : KeyRotation) (t : Trust)
    → step_key c key seq (rotate_call r) ≡ some t
    → Rotated c key seq r t
unfolding step_key
step-Rotated c none seq r t h = absurd (ground arith)
step-Rotated c (some current) seq r t h =
    let next : Trust = record { key = some r.new_public_key; seq = r.seq } in
    let passed : if_verified (KeyRotation.verify c current r) next ≡ some t = ground arith in
    let (verified, becomes) = if_verified-some (KeyRotation.verify c current r) next t passed in
    record {
      current = current;
      trusted = refl;
      newer = ground arith;
      verified = verified;
      becomes = becomes;
    }

-- What an accepted revocation tells.
pub record Revoked (c : Ed25519) (key : Option (List ℕ)) (seq : ℕ) (r : KeyRevocation) (t : Trust)
    : Type 0 where
  pub current : List ℕ
  pub trusted : key ≡ some current
  pub verified : KeyRevocation.verify c current r ≡ some true
  pub becomes : record { key = none; seq = seq } ≡ t

step-Revoked :
    (c : Ed25519) (key : Option (List ℕ)) (seq : ℕ) (r : KeyRevocation) (t : Trust)
    → step_key c key seq (revoke_call r) ≡ some t
    → Revoked c key seq r t
unfolding step_key
step-Revoked c none seq r t h = absurd (ground arith)
step-Revoked c (some current) seq r t h =
    let next : Trust = record { key = none; seq = seq } in
    let (verified, becomes) = if_verified-some (KeyRevocation.verify c current r) next t h in
    record { current = current; trusted = refl; verified = verified; becomes = becomes }

pub rotate-Rotated :
    (c : Ed25519) (t t' : Trust) (r : KeyRotation)
    → step c t (rotate_call r) ≡ some t'
    → Rotated c t.key t.seq r t'
unfolding step
rotate-Rotated c t t' r h = step-Rotated c t.key t.seq r t' h

pub revoke-Revoked :
    (c : Ed25519) (t t' : Trust) (r : KeyRevocation)
    → step c t (revoke_call r) ≡ some t'
    → Revoked c t.key t.seq r t'
unfolding step
revoke-Revoked c t t' r h = step-Revoked c t.key t.seq r t' h
