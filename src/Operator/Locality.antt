-- ===== src/Operator/Locality.antt =====
-- Which keys of a registry `Verify` reads.
use sohocloud_protocol.Prelude.{ℕ, ◌≡◌, ◌≢◌, ◌∙◌, refl, List, [], ◌∷◌, arith, All}
use sohocloud_protocol.Prelude.Int.{ℤ, eqb_ℤ_iff}
use sohocloud_protocol.Golang.Ed25519.{Ed25519}
use sohocloud_protocol.Operator.Keys.{
  KeyMap, KeyRecord, Verdict, accepted, rejected, panicked, lookup, verify_pair, verify_at,
  distinct_keys_at,
}
use sohocloud_protocol.Operator.Transmission.{OperatorTransmission}
use sohocloud_protocol.Operator.Transmission
use sohocloud_protocol.Operator.Conformance.{ConformanceResponse}
use sohocloud_protocol.Operator.Conformance
use sohocloud_protocol.Operator.Rotation.{OperatorRotation, check_duplicate, check_algo}
use sohocloud_protocol.Operator.Rotation
use sohocloud_protocol.Operator.Install.{install, lookup-install, new_record}
use sohocloud_protocol.Operator.History.{history, receive, swap}

module _ (m : KeyMap) (i : ℤ) (key : KeyRecord) where
  lookup-elsewhere : (j : ℤ) → j ≢ i → lookup j (install i key m) ≡ lookup j m
  lookup-elsewhere j d = ground (arith, lookup-install i j key m, eqb_ℤ_iff i j)

  verify_pair-install :
      (c : Ed25519) (idx0 idx1 : ℤ) (algo msg sig0 sig1 : List ℕ)
      → idx0 ≢ i
      → idx1 ≢ i
      → verify_pair c (install i key m) idx0 idx1 algo msg sig0 sig1
        ≡ verify_pair c m idx0 idx1 algo msg sig0 sig1
  unfolding verify_pair distinct_keys_at verify_at
  verify_pair-install c idx0 idx1 algo msg sig0 sig1 d0 d1 =
      rw (lookup-elsewhere idx0 d0, lookup-elsewhere idx1 d1)

check_duplicate-install :
    (m : KeyMap) (i : ℤ) (key : KeyRecord) (new : List ℕ)
    → check_duplicate (install i key m) i new ≡ check_duplicate m i new
unfolding check_duplicate install
check_duplicate-install [] i key new = ground (arith, eqb_ℤ_iff i i)
check_duplicate-install ((j, old) ∷ m) i key new =
    ground (arith, eqb_ℤ_iff i i, eqb_ℤ_iff j i, check_duplicate-install m i key new)

check_algo-install :
    (m : KeyMap) (i : ℤ) (key : KeyRecord) (algo : List ℕ)
    → check_algo (install i key m) i algo ≡ check_algo m i algo
unfolding check_algo install
check_algo-install [] i key algo = ground (arith, eqb_ℤ_iff i i)
check_algo-install ((j, old) ∷ m) i key algo =
    ground (arith, eqb_ℤ_iff i i, eqb_ℤ_iff j i, check_algo-install m i key algo)

module _ (c : Ed25519) where
  rotation-install :
      (m : KeyMap) (key : KeyRecord) (r : OperatorRotation)
      → r.idx0 ≢ r.key_index
      → r.idx1 ≢ r.key_index
      → Rotation.verify c (install r.key_index key m) r ≡ Rotation.verify c m r
  unfolding Rotation.verify
  rotation-install m key r d0 d1 = rw (
    verify_pair-install m r.key_index key c r.idx0 r.idx1 r.algo (Rotation.canonical_bytes r) r.sig0
        r.sig1 d0 d1,
    check_duplicate-install m r.key_index key r.new_public_key,
    check_algo-install m r.key_index key r.algo,
  )

  -- Whatever key is put at the index of a rotation, `Verify` gives the same result, errors included,
  -- for the rotation, if two other indices sign it, and for every transmission and every conformance
  -- response that name two other indices.
  pub verify_elsewhere :
      (m : KeyMap) (key : KeyRecord) (r : OperatorRotation) (t : OperatorTransmission)
      (s : ConformanceResponse)
      → (r.idx0 ≢ r.key_index) × (r.idx1 ≢ r.key_index)
      → (t.idx0 ≢ r.key_index) × (t.idx1 ≢ r.key_index)
      → (s.idx0 ≢ r.key_index) × (s.idx1 ≢ r.key_index)
      → (Rotation.verify c (install r.key_index key m) r ≡ Rotation.verify c m r)
        × (Transmission.verify c (install r.key_index key m) t ≡ Transmission.verify c m t)
        × (Conformance.verify c (install r.key_index key m) s ≡ Conformance.verify c m s)
  unfolding Transmission.verify Conformance.verify
  verify_elsewhere m key r t s dr dt ds = (
    rotation-install m key r dr.0 dr.1,
    rw (
        verify_pair-install m r.key_index key c t.idx0 t.idx1 t.algo
          (Transmission.canonical_bytes t) t.sig0 t.sig1 dt.0 dt.1),
    rw (
        verify_pair-install m r.key_index key c s.idx0 s.idx1 s.algo (Conformance.canonical_bytes s)
          s.sig0 s.sig1 ds.0 ds.1),
  )

  receive-own :
      (m : KeyMap) (r later : OperatorRotation)
      → (r.idx0 ≢ r.key_index) × (r.idx1 ≢ r.key_index)
      → later.key_index ≡ r.key_index
      → Rotation.verify c (receive c m later) r ≡ Rotation.verify c m r
  receive-own m r later d e = swapped (Rotation.verify c m later)
    where
      swapped : (v : Verdict) → Rotation.verify c (swap v m later) r ≡ Rotation.verify c m r
      swapped accepted = rw e (rotation-install m (new_record later) r d.0 d.1)
      swapped (rejected _) = refl
      swapped panicked = refl

  -- `OperatorRotation.Verify` gives the same result, errors included, before and behind any sequence
  -- of rotation messages for the rotation's own index, of which those that `Verify` accepts are taken,
  -- if two other indices sign the rotation: one that was accepted is accepted again, whatever keys have
  -- been put at its index since.
  pub rotation_again :
      (m : KeyMap) (r : OperatorRotation) (rs : List OperatorRotation)
      → (r.idx0 ≢ r.key_index) × (r.idx1 ≢ r.key_index)
      → All (λ (later : OperatorRotation). later.key_index ≡ r.key_index) rs
      → Rotation.verify c (history c m rs) r ≡ Rotation.verify c m r
  rotation_again m r [] d own = refl
  rotation_again m r (later ∷ rs) d own =
      rotation_again (receive c m later) r rs d own.1 ∙ receive-own m r later d own.0
