-- ===== src/Protocol/Signatures.antt =====
-- What two messages with one signature have in common.
use sohocloud_protocol.Prelude.{ℕ, ◌≡◌, List, true, some}
use sohocloud_protocol.Golang.Ed25519.{Ed25519, Binds}
use sohocloud_protocol.Protocol.{CoreMessage, core, core_bytes, signing_bytes, signature, verify}
use sohocloud_protocol.Protocol.Decisions.{verify-accepts}
use sohocloud_protocol.Protocol.Reader.{view, core_view, IsCoreEncodable}
use sohocloud_protocol.Protocol.RoundTrip.{signing_bytes_iff}
use sohocloud_protocol.Protocol.Domains.{kind, signing_bytes_domain}

module _ (c : Ed25519) (key : List ℕ) where
  -- Two encodable messages that `Verify` accepts under one key with one signature, which for this
  -- key is valid on one byte string only, are of one type and have the same fields.
  pub signature-Binds_fields :
      (m m' : CoreMessage)
      → IsCoreEncodable m
      → IsCoreEncodable m'
      → verify c key m ≡ some true
      → verify c key m' ≡ some true
      → signature m ≡ signature m'
      → Binds c key (signature m)
      → view (core m) ≡ view (core m')
  unfolding signing_bytes view core_view
  signature-Binds_fields m m' e e' h h' s b = (signing_bytes_iff (core m) (core m') e e').0 (
      b (core_bytes m) (core_bytes m') (verify-accepts c key m h).0.verified
        (rw s (verify-accepts c key m' h').0.verified))

  -- Two messages, encodable or not, that `Verify` accepts under one key with one signature, which
  -- for this key is valid on one byte string only, are of one type.
  pub signature-Binds_type :
      (m m' : CoreMessage)
      → verify c key m ≡ some true
      → verify c key m' ≡ some true
      → signature m ≡ signature m'
      → Binds c key (signature m)
      → kind (core m) ≡ kind (core m')
  unfolding signing_bytes
  signature-Binds_type m m' h h' s b = signing_bytes_domain (core m) (core m') (
      b (core_bytes m) (core_bytes m') (verify-accepts c key m h).0.verified
        (rw s (verify-accepts c key m' h').0.verified))
