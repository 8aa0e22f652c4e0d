-- ===== src/Protocol/SameView.antt =====
-- `Verify` reads the fields that are signed and the signature: the location and the monotonic reading
-- of an instant do not matter.
use sohocloud_protocol.Prelude.{
  ℕ, ◌≡◌, ◌≢◌, ◌↔◌, refl, sym, Bool, true, false, Option, some, none, List, length,
}
use sohocloud_protocol.Prelude.Bytes.{codes}
use sohocloud_protocol.Golang.Ed25519.{Ed25519}
use sohocloud_protocol.Protocol.{
  CoreMessage, core, core_bytes, signing_bytes, signature, verify, listing, heartbeat, assignment,
  decline, job_report, fee, storage_lease, lease_decline, lease_release, proof, rotate, revoke,
}
use sohocloud_protocol.Protocol.Reader.{
  View, core_view, view, IsCoreEncodable, rotate_fields, revoke_fields,
}
use sohocloud_protocol.Protocol.RoundTrip.{signing_bytes_iff}
use sohocloud_protocol.Protocol.Decisions.{IsWellFormed, core_verify_iff, core_verify-ne-none}

-- The same type, signed fields and signature.
pub record SameSigned (m m' : CoreMessage) : Type 0 where
  pub same_view : core_view m ≡ core_view m'
  pub same_signature : signature m ≡ signature m'

-- What `IsWellFormed` says, of the fields that are signed.
abbrev WellFormedView : List ℕ → View → Type 0
WellFormedView key (rotate_fields (_, (new_public_key, (algo, _)))) =
    (algo ≡ codes "ed25519") × (length new_public_key ≡ 32)
WellFormedView key (revoke_fields (_, (revoked_public_key, _))) = revoked_public_key ≡ key
WellFormedView key _ = Unit {0}

well_formed_view :
    (key : List ℕ) (m : CoreMessage) → IsWellFormed key m ↔ WellFormedView key (core_view m)
unfolding core_view
well_formed_view key (listing m) = (λ h. h, λ h. h)
well_formed_view key (heartbeat m) = (λ h. h, λ h. h)
well_formed_view key (assignment m) = (λ h. h, λ h. h)
well_formed_view key (decline m) = (λ h. h, λ h. h)
well_formed_view key (job_report m) = (λ h. h, λ h. h)
well_formed_view key (fee m) = (λ h. h, λ h. h)
well_formed_view key (storage_lease m) = (λ h. h, λ h. h)
well_formed_view key (lease_decline m) = (λ h. h, λ h. h)
well_formed_view key (lease_release m) = (λ h. h, λ h. h)
well_formed_view key (proof m) = (λ h. h, λ h. h)
well_formed_view key (rotate m) = (λ h. h, λ h. h)
well_formed_view key (revoke m) = (λ h. h, λ h. h)

yes_no :
    (v v' : Option Bool)
    → v ≢ none
    → v' ≢ none
    → (v ≡ some true → v' ≡ some true)
    → (v' ≡ some true → v ≡ some true)
    → v ≡ v'
yes_no none v' n n' f g = absurd (n refl)
yes_no v none n n' f g = absurd (n' refl)
yes_no (some true) (some true) n n' f g = refl
yes_no (some false) (some false) n n' f g = refl
yes_no (some true) (some false) n n' f g = sym (f refl)
yes_no (some false) (some true) n n' f g = g refl

module _ (c : Ed25519) (key : List ℕ) where
  same_bytes :
      (m m' : CoreMessage)
      → core_view m ≡ core_view m'
      → IsCoreEncodable m
      → core_bytes m ≡ core_bytes m'
  unfolding signing_bytes view
  same_bytes m m' v e = (signing_bytes_iff (core m) (core m') e (rw (← v) e)).1 v

  accepted_alike :
      (m m' : CoreMessage)
      → SameSigned m m'
      → IsCoreEncodable m
      → verify c key m ≡ some true
      → verify c key m' ≡ some true
  accepted_alike m m' same e h =
      let (valid, formed) = (core_verify_iff c key m).0 h in
      (core_verify_iff c key m').1 (
        rw (← same_bytes m m' same.same_view e, ← same.same_signature) valid,
        (well_formed_view key m').1 (rw (← same.same_view) ((well_formed_view key m).0 formed)),
      )

  -- `Verify` of each of the twelve messages under one key gives one answer for two messages of one
  -- type with the same signed fields and the same signature, in whatever locations and with whatever
  -- monotonic readings their instants are, if the first is encodable.
  pub verify-SameSigned :
      (m m' : CoreMessage) → SameSigned m m' → IsCoreEncodable m → verify c key m ≡ verify c key m'
  verify-SameSigned m m' same e =
      yes_no (verify c key m) (verify c key m') (core_verify-ne-none c key m)
        (core_verify-ne-none c key m') (accepted_alike m m' same e)
        (accepted_alike m' m
          (record { same_view = sym same.same_view; same_signature = sym same.same_signature })
          (rw (← same.same_view) e))
