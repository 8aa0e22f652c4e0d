-- ===== src/Employment/Assignment/Wire.antt =====
-- The fields of an assignment under the signature (SPEC.md §4.3) and their format.
use sohocloud_protocol.Prelude.{
  ℕ, List, [], ◌∷◌, ◌++◌, ◌≡◌, ◌∙◌, sym, append_assoc, append-nil, length, All,
}
use sohocloud_protocol.Prelude.Int.{ℤ}
use sohocloud_protocol.Canon
use sohocloud_protocol.Canon.{sum, Buffer}
use sohocloud_protocol.Canon.Codec.{Codec, ◌⊗◌, counted, encode_all}
use sohocloud_protocol.Canon.Wire.{text, i64, tagged}
use sohocloud_protocol.Canon.Append.{b-new, b-string, b-count, b-int64, b-time}
use sohocloud_protocol.Employment.Assignment.{
  JobSpec, Assignment, domain_assignment, put_args, canonical_bytes,
}

abbrev pub SpecFields : Type 0
SpecFields = List ℕ × (List ℕ × (List (List ℕ) × (List ℕ × (List ℕ × ℤ))))

abbrev pub Fields : Type 0
Fields = List ℕ × (List ℕ × (SpecFields × ((ℤ × ℤ) × ℤ)))

abbrev pub spec_fields : JobSpec → SpecFields
spec_fields s = (s.workload, (s.image, (s.args, (s.printer_kind, (s.gpu_api, s.gpu_min_vram_mb)))))

abbrev pub fields : Assignment → Fields
fields a = (
  a.job_id,
  (
    a.node_id,
    (
      spec_fields a.spec,
      ((a.fee.contributor_share_bps, a.fee.platform_fee_bps), a.offered_at.nanos),
    ),
  ),
)

abbrev pub body : Codec Fields
body = text ⊗ text ⊗ (text ⊗ text ⊗ counted text ⊗ text ⊗ text ⊗ i64) ⊗ (i64 ⊗ i64) ⊗ i64

abbrev pub codec : Codec Fields
codec = tagged domain_assignment body

b-put_args :
    (b : Buffer) (args : List (List ℕ))
    → All text.Fits args
    → (put_args b args).b ≡ b.b ++ encode_all text args
unfolding put_args
b-put_args b [] h = sym (append-nil b.b)
b-put_args b (arg ∷ args) (k, h) =
    b-put_args (Canon.string b arg) args h ∙ simp (b-string _ arg k, append_assoc)

pub canonical_bytes-codec :
    (a : Assignment) → codec.Fits (fields a) → canonical_bytes a ≡ codec.encode (fields a)
unfolding canonical_bytes sum
canonical_bytes-codec a (t, (j, (n, ((w, (i, ((k, args), (p, (g, _))))), (_, o))))) = simp (
  b-time _ a.offered_at o,
  b-int64,
  b-string _ a.spec.gpu_api g,
  b-string _ a.spec.printer_kind p,
  b-put_args _ a.spec.args args,
  b-count _ (length a.spec.args) k,
  b-string _ a.spec.image i,
  b-string _ a.spec.workload w,
  b-string _ a.node_id n,
  b-string _ a.job_id j,
  b-new domain_assignment t,
  append_assoc,
)
