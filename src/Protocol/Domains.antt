-- ===== src/Protocol/Domains.antt =====
-- Domain separation: the domain tag at the front tells the messages of different types apart, also
-- those with values that have no encoding.
use sohocloud_protocol.Prelude.{
  ℕ, ◌≡◌, refl, sym, ap, ◌∙◌, List, [], ◌∷◌, ◌++◌, Option, some, none, length, if◌then◌else◌, arith,
}
use sohocloud_protocol.Prelude.Int.{IsU64}
use sohocloud_protocol.Prelude.Bytes.{bytes_equal}
use sohocloud_protocol.Canon
use sohocloud_protocol.Canon.{Buffer, new, sum}
use sohocloud_protocol.Canon.Codec.{encode-cancel}
use sohocloud_protocol.Canon.Wire.{text, text_encode}
use sohocloud_protocol.Canon.Append.{b-new}
use sohocloud_protocol.Canon.Extends.{Extends, extends, appending, Extends-string, Extends-int64}
use sohocloud_protocol.Protocol.{
  CoreMessage, Message, core, core_bytes, signing_bytes, core_tag, domain_tag, listing, heartbeat,
  assignment, decline, job_report, fee, storage_lease, lease_decline, lease_release, proof, rotate,
  revoke, transmission, rotation, conformance,
}
use sohocloud_protocol.Listing.{PrinterCapability, GpuCapability, put_printers, put_gpus}
use sohocloud_protocol.Employment.Assignment.{put_args}
use sohocloud_protocol.Listing
use sohocloud_protocol.Liveness
use sohocloud_protocol.Employment.Assignment
use sohocloud_protocol.Employment.Decline
use sohocloud_protocol.Employment.JobReport
use sohocloud_protocol.Fees
use sohocloud_protocol.Lease.StorageLease
use sohocloud_protocol.Lease.LeaseDecline
use sohocloud_protocol.Lease.LeaseRelease
use sohocloud_protocol.Lease.ProofResponse
use sohocloud_protocol.Identity.KeyRotation
use sohocloud_protocol.Identity.KeyRevocation
use sohocloud_protocol.Operator.Transmission
use sohocloud_protocol.Operator.Rotation
use sohocloud_protocol.Operator.Conformance

pub data Kind : Type 0 where
  listing_kind heartbeat_kind assignment_kind decline_kind job_report_kind fee_kind
        storage_lease_kind lease_decline_kind lease_release_kind proof_kind rotate_kind revoke_kind
        transmission_kind rotation_kind conformance_kind :
      Kind

unfoldable pub core_kind : CoreMessage → Kind
core_kind (listing m) = listing_kind
core_kind (heartbeat m) = heartbeat_kind
core_kind (assignment m) = assignment_kind
core_kind (decline m) = decline_kind
core_kind (job_report m) = job_report_kind
core_kind (fee m) = fee_kind
core_kind (storage_lease m) = storage_lease_kind
core_kind (lease_decline m) = lease_decline_kind
core_kind (lease_release m) = lease_release_kind
core_kind (proof m) = proof_kind
core_kind (rotate m) = rotate_kind
core_kind (revoke m) = revoke_kind

-- The type of a message.
unfoldable pub kind : Message → Kind
unfolding core_kind
kind (core m) = core_kind m
kind (transmission m) = transmission_kind
kind (rotation m) = rotation_kind
kind (conformance m) = conformance_kind

tag_of : Kind → List ℕ
tag_of listing_kind = Listing.domain_listing
tag_of heartbeat_kind = Liveness.domain_heartbeat
tag_of assignment_kind = Assignment.domain_assignment
tag_of decline_kind = Decline.domain_decline
tag_of job_report_kind = JobReport.domain_job_report
tag_of fee_kind = Fees.domain_fee
tag_of storage_lease_kind = StorageLease.domain_lease
tag_of lease_decline_kind = LeaseDecline.domain_lease_decline
tag_of lease_release_kind = LeaseRelease.domain_lease_release
tag_of proof_kind = ProofResponse.domain_proof
tag_of rotate_kind = KeyRotation.domain_rotate
tag_of revoke_kind = KeyRevocation.domain_revoke
tag_of transmission_kind = Transmission.domain_transmission
tag_of rotation_kind = Rotation.domain_rotation
tag_of conformance_kind = Conformance.domain_conformance

all_kinds : List Kind
all_kinds =
    listing_kind ∷ heartbeat_kind ∷ assignment_kind ∷ decline_kind ∷ job_report_kind ∷ fee_kind
    ∷ storage_lease_kind ∷ lease_decline_kind ∷ lease_release_kind ∷ proof_kind ∷ rotate_kind
    ∷ revoke_kind ∷ transmission_kind ∷ rotation_kind ∷ conformance_kind ∷ []

kind_of_tag : List ℕ → List Kind → Option Kind
unfolding tag_of
kind_of_tag tag [] = none
kind_of_tag tag (k ∷ ks) = if bytes_equal tag (tag_of k) then some k else kind_of_tag tag ks

-- A tag determines the type, so no two types share one.
core_kind_of_tag : (m : CoreMessage) → kind_of_tag (core_tag m) all_kinds ≡ some (core_kind m)
unfolding kind_of_tag all_kinds core_tag core_kind bytes_equal
core_kind_of_tag (listing m) = refl
core_kind_of_tag (heartbeat m) = refl
core_kind_of_tag (assignment m) = refl
core_kind_of_tag (decline m) = refl
core_kind_of_tag (job_report m) = refl
core_kind_of_tag (fee m) = refl
core_kind_of_tag (storage_lease m) = refl
core_kind_of_tag (lease_decline m) = refl
core_kind_of_tag (lease_release m) = refl
core_kind_of_tag (proof m) = refl
core_kind_of_tag (rotate m) = refl
core_kind_of_tag (revoke m) = refl

kind_of_domain_tag : (m : Message) → kind_of_tag (domain_tag m) all_kinds ≡ some (kind m)
unfolding kind_of_tag all_kinds domain_tag kind bytes_equal
kind_of_domain_tag (core m) = core_kind_of_tag m
kind_of_domain_tag (transmission m) = refl
kind_of_domain_tag (rotation m) = refl
kind_of_domain_tag (conformance m) = refl

Extends-put_printers :
    {l : List ℕ} (b : Buffer) (ps : List PrinterCapability)
    → Extends l b.b
    → Extends l (put_printers b ps).b
unfolding put_printers
Extends-put_printers b [] h = h
Extends-put_printers b (p ∷ ps) h =
    let b1 = Canon.string b p.kind in
    Extends-put_printers (Canon.string b1 p.model) ps
      (Extends-string b1 p.model (Extends-string b p.kind h))

Extends-put_gpus :
    {l : List ℕ} (b : Buffer) (gs : List GpuCapability)
    → Extends l b.b
    → Extends l (put_gpus b gs).b
unfolding put_gpus
Extends-put_gpus b [] h = h
Extends-put_gpus b (g ∷ gs) h =
    let b1 = Canon.string b g.api in
    let b2 = Canon.string b1 g.model in
    Extends-put_gpus (Canon.int64 b2 g.vram_mb) gs
      (Extends-int64 b2 g.vram_mb (Extends-string b1 g.model (Extends-string b g.api h)))

Extends-put_args :
    {l : List ℕ} (b : Buffer) (args : List (List ℕ)) → Extends l b.b → Extends l (put_args b args).b
unfolding put_args
Extends-put_args b [] h = h
Extends-put_args b (arg ∷ args) h =
    Extends-put_args (Canon.string b arg) args (Extends-string b arg h)

core_bytes-Extends : (m : CoreMessage) → Extends (new (core_tag m)).b (core_bytes m)
unfolding core_bytes core_tag sum Listing.canonical_bytes Liveness.canonical_bytes
    Assignment.canonical_bytes Decline.canonical_bytes JobReport.canonical_bytes
    Fees.canonical_bytes StorageLease.canonical_bytes LeaseDecline.canonical_bytes
    LeaseRelease.canonical_bytes ProofResponse.canonical_bytes KeyRotation.canonical_bytes
    KeyRevocation.canonical_bytes
core_bytes-Extends (listing m) = search (Extends-put_printers, Extends-put_gpus, appending) depth 20
core_bytes-Extends (heartbeat m) = search (appending) depth 20
core_bytes-Extends (assignment m) = search (Extends-put_args, appending) depth 20
core_bytes-Extends (decline m) = search (appending) depth 20
core_bytes-Extends (job_report m) = search (appending) depth 20
core_bytes-Extends (fee m) = search (appending) depth 20
core_bytes-Extends (storage_lease m) = search (appending) depth 20
core_bytes-Extends (lease_decline m) = search (appending) depth 20
core_bytes-Extends (lease_release m) = search (appending) depth 20
core_bytes-Extends (proof m) = search (appending) depth 20
core_bytes-Extends (rotate m) = search (appending) depth 20
core_bytes-Extends (revoke m) = search (appending) depth 20

signing_bytes-Extends : (m : Message) → Extends (new (domain_tag m)).b (signing_bytes m)
unfolding signing_bytes domain_tag sum Transmission.canonical_bytes Rotation.canonical_bytes
    Conformance.canonical_bytes
signing_bytes-Extends (core m) = core_bytes-Extends m
signing_bytes-Extends (transmission m) = search (appending) depth 20
signing_bytes-Extends (rotation m) = search (appending) depth 20
signing_bytes-Extends (conformance m) = search (appending) depth 20

core_tag_short : (m : CoreMessage) → IsU64 (length (core_tag m))
unfolding core_tag
core_tag_short (listing m) = omega arith
core_tag_short (heartbeat m) = omega arith
core_tag_short (assignment m) = omega arith
core_tag_short (decline m) = omega arith
core_tag_short (job_report m) = omega arith
core_tag_short (fee m) = omega arith
core_tag_short (storage_lease m) = omega arith
core_tag_short (lease_decline m) = omega arith
core_tag_short (lease_release m) = omega arith
core_tag_short (proof m) = omega arith
core_tag_short (rotate m) = omega arith
core_tag_short (revoke m) = omega arith

domain_tag_short : (m : Message) → IsU64 (length (domain_tag m))
unfolding domain_tag
domain_tag_short (core m) = core_tag_short m
domain_tag_short (transmission m) = omega arith
domain_tag_short (rotation m) = omega arith
domain_tag_short (conformance m) = omega arith

-- Canonical bytes begin with the domain tag as a string.
tagged_front : (m : Message) → (r : List ℕ) × (signing_bytes m ≡ text_encode (domain_tag m) ++ r)
tagged_front m = front (signing_bytes-Extends m)
  where
    front :
        Extends (new (domain_tag m)).b (signing_bytes m)
        → (r : List ℕ) × (signing_bytes m ≡ text_encode (domain_tag m) ++ r)
    front (extends r e) = (r, e ∙ ap (λ l. l ++ r) (b-new (domain_tag m) (domain_tag_short m)))

some_kind : {a b : Kind} → ◌≡◌ {A = Option Kind} (some a) (some b) → a ≡ b
some_kind h = cc

-- Two messages, encodable or not, whose canonical bytes are the same are of the same one of the
-- fifteen types.
pub signing_bytes_domain : (m m' : Message) → signing_bytes m ≡ signing_bytes m' → kind m ≡ kind m'
signing_bytes_domain m m' e =
    let (r, f) = tagged_front m in
    let (r', f') = tagged_front m' in
    let same =
      (encode-cancel text (domain_tag m) (domain_tag m') r r' (domain_tag_short m)
        (domain_tag_short m') (sym f ∙ e ∙ f')).0 in
    some_kind
      (sym (kind_of_domain_tag m) ∙ ap (λ t. kind_of_tag t all_kinds) same ∙ kind_of_domain_tag m')
