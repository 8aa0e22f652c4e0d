-- ===== src/Coordinator/Custody.antt =====
-- The chain of custody of a node's key (SPEC.md §4.11 and §4.12): every key that is trusted was named
-- by the holder of the one before it.
use sohocloud_protocol.Prelude.{
  ℕ, ◌≡◌, ◌<◌, ◌∙◌, ap, refl, sym, Option, true, none, some, List, [], ◌∷◌, All, length, arith,
  Bool-cases, Option-cases, inl, inr,
}
use sohocloud_protocol.Prelude.Bytes.{codes, bytes_equal, bytes_equal_iff}
use sohocloud_protocol.Golang.Ed25519.{Ed25519}
use sohocloud_protocol.Identity.KeyRotation
use sohocloud_protocol.Identity.KeyRotation.{KeyRotation}
use sohocloud_protocol.Identity.KeyRevocation
use sohocloud_protocol.Identity.KeyRevocation.{KeyRevocation}
use sohocloud_protocol.Protocol
use sohocloud_protocol.Protocol.Decisions.{core_verify_iff}
use sohocloud_protocol.Canon.Signature.{Valid}
use sohocloud_protocol.Coordinator.{KeyLifecycleCoordinator}
use sohocloud_protocol.Coordinator.Trust.{
  Trust, KeyCall, rotate_call, revoke_call, call_node, step, rotate-Rotated, revoke-Revoked,
}
use sohocloud_protocol.Coordinator.KeyContract.{KeyContract, make, run}

-- How the trust in a node comes about by messages that were sent: a rotation for the node with a valid
-- signature by the key trusted before it, a well-formed successor and a Seq above the last, or a
-- revocation that names and is signed by that key.
pub data Custody (c : Ed25519) (Sent : KeyCall → Type 0) (node : List ℕ) (start : Trust)
    : Trust → Type 0 where
  enrolled : Custody c Sent node start start
  handed_on :
      {t : Trust} (key : List ℕ) (r : KeyRotation)
      → Custody c Sent node start t
      → Sent (rotate_call r)
      → r.node_id ≡ node
      → t.key ≡ some key
      → Valid c key (KeyRotation.canonical_bytes r) r.signature
      → (r.algo ≡ codes "ed25519") × (length r.new_public_key ≡ 32)
      → t.seq < r.seq
      → Custody c Sent node start (record { key = some r.new_public_key; seq = r.seq })
  given_up :
      {t : Trust} (key : List ℕ) (r : KeyRevocation)
      → Custody c Sent node start t
      → Sent (revoke_call r)
      → r.node_id ≡ node
      → t.key ≡ some key
      → Valid c key (KeyRevocation.canonical_bytes r) r.signature
      → r.revoked_public_key ≡ key
      → Custody c Sent node start (record { key = none; seq = t.seq })

module _ (c : Ed25519) (Sent : KeyCall → Type 0) (node : List ℕ) (start : Trust) where
  step-Custody :
      (t t' : Trust) (call : KeyCall)
      → Custody c Sent node start t
      → Sent call
      → call_node call ≡ node
      → step c t call ≡ some t'
      → Custody c Sent node start t'
  unfolding Protocol.verify Protocol.core_bytes Protocol.signature
  step-Custody t t' (rotate_call r) h sent e s =
      let f = rotate-Rotated c t t' r s in
      let (valid, formed) = (core_verify_iff c f.current (Protocol.rotate r)).0 f.verified in
      rw (← f.becomes) (handed_on f.current r h sent e f.trusted valid formed f.newer)
  step-Custody t t' (revoke_call r) h sent e s =
      let f = revoke-Revoked c t t' r s in
      let (valid, own) = (core_verify_iff c f.current (Protocol.revoke r)).0 f.verified in
      rw (← f.becomes) (given_up f.current r h sent e f.trusted valid own)

  module _ {S : Type 0} (k : KeyLifecycleCoordinator S) (h : KeyContract c k) where
    own-Custody :
        (s : S) (call : KeyCall)
        → Custody c Sent node start (h.trust s node)
        → Sent call
        → call_node call ≡ node
        → Custody c Sent node start (h.trust (make c k s call).0 node)
    own-Custody s call p sent e = elim (Option-cases (make c k s call).1) [
      | inl nil ↦
          let (t, f, now) = h.accepted s call nil in
          let becomes : h.trust (make c k s call).0 node ≡ t = rw (← e) now in
          rw becomes (step-Custody (h.trust s node) t call p sent e (rw (← e) f))
      | inr (err, refused) ↦
          let same : h.trust (make c k s call).0 node ≡ h.trust s node =
            rw (← e) (h.refused s call err refused) in
          rw same p
    ]

    make-Custody :
        (s : S) (call : KeyCall)
        → Custody c Sent node start (h.trust s node)
        → Sent call
        → Custody c Sent node start (h.trust (make c k s call).0 node)
    make-Custody s call p sent = elim (Bool-cases (bytes_equal node (call_node call))) [
      | inl test ↦ own-Custody s call p sent (sym ((bytes_equal_iff node (call_node call)).0 test))
      | inr other ↦
          rw (h.frame s call node (ground (arith, bytes_equal_iff node (call_node call)))) p
    ]

    onward-Custody :
        (s : S) (calls : List KeyCall)
        → Custody c Sent node start (h.trust s node)
        → All Sent calls
        → Custody c Sent node start (h.trust (run c k s calls) node)
    onward-Custody s [] p sent = p
    onward-Custody s (call ∷ calls) p sent =
        onward-Custody (make c k s call).0 calls (make-Custody s call p sent.0) sent.1

-- Whatever sequence of rotations and revocations a coordinator that keeps the contract is sent, its
-- trust in a node has come about from that at the beginning by a chain of messages among the sent ones
-- for this node: rotations to an "ed25519" key of 32 bytes, each with a signature of 64 bytes by the key
-- trusted just before it, which has 32 bytes, and with a Seq above the last, and at its end at most
-- one revocation, which names the key trusted then and has its signature.
pub run-Custody :
    {S : Type 0} (c : Ed25519) (k : KeyLifecycleCoordinator S) (h : KeyContract c k)
    (Sent : KeyCall → Type 0) (node : List ℕ) (s : S) (calls : List KeyCall)
    → All Sent calls
    → Custody c Sent node (h.trust s node) (h.trust (run c k s calls) node)
run-Custody c k h Sent node s calls sent =
    onward-Custody c Sent node (h.trust s node) k h s calls enrolled sent

abbrev pub call_bytes : KeyCall → List ℕ
call_bytes (rotate_call r) = KeyRotation.canonical_bytes r
call_bytes (revoke_call r) = KeyRevocation.canonical_bytes r

abbrev pub call_signature : KeyCall → List ℕ
call_signature (rotate_call r) = r.signature
call_signature (revoke_call r) = r.signature

-- Not a message for the node with a signature by the key.
abbrev pub IsForeign : Ed25519 → List ℕ → List ℕ → KeyCall → Type 0
IsForeign c node key call =
    call_node call ≡ node → ¬ (c.verify key (call_bytes call) (call_signature call) ≡ true)

some_key : {key key' : List ℕ} → ◌≡◌ {A = Option (List ℕ)} (some key) (some key') → key ≡ key'
some_key h = cc

module _ (c : Ed25519) (node key : List ℕ) where
  Custody-unmoved :
      {start t : Trust}
      → start.key ≡ some key
      → Custody c (IsForeign c node key) node start t
      → t ≡ start
  Custody-unmoved trusted enrolled = refl
  Custody-unmoved trusted (handed_on current r h sent e now valid _ _) =
      let unmoved = Custody-unmoved trusted h in
      let same = some_key (sym now ∙ ap (λ (u : Trust). u.key) unmoved ∙ trusted) in
      absurd (sent e (rw (← same) valid.verified))
  Custody-unmoved trusted (given_up current r h sent e now valid _) =
      let unmoved = Custody-unmoved trusted h in
      let same = some_key (sym now ∙ ap (λ (u : Trust). u.key) unmoved ∙ trusted) in
      absurd (sent e (rw (← same) valid.verified))

  -- If a coordinator that keeps the contract trusts a key for a node and then gets any sequence of
  -- rotations and revocations, of which none for this node has a signature that Ed25519 accepts for
  -- that key and the message's canonical bytes, its trust in the node is the same behind them, the key
  -- and the last Seq.
  pub run_unmoved :
      {S : Type 0} (k : KeyLifecycleCoordinator S) (h : KeyContract c k) (s : S)
      (calls : List KeyCall)
      → (h.trust s node).key ≡ some key
      → All (IsForeign c node key) calls
      → h.trust (run c k s calls) node ≡ h.trust s node
  run_unmoved k h s calls trusted foreign =
      Custody-unmoved trusted (run-Custody c k h (IsForeign c node key) node s calls foreign)
