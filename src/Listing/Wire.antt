-- ===== src/Listing/Wire.antt =====
-- The fields of a listing under the signature (SPEC.md §4.1) and their format.
use sohocloud_protocol.Prelude.{
  ℕ, List, [], ◌∷◌, ◌++◌, Bool, ◌≡◌, ◌∙◌, refl, sym, append_assoc, append-nil, length, All, arith,
}
use sohocloud_protocol.Prelude.Int.{ℤ}
use sohocloud_protocol.Canon
use sohocloud_protocol.Canon.{sum, Buffer}
use sohocloud_protocol.Canon.Codec.{Codec, ◌⊗◌, counted, encode_all}
use sohocloud_protocol.Canon.Wire.{text, i64, u64, flag, tagged}
use sohocloud_protocol.Canon.Append.{b-new, b-string, b-count, b-int64, b-bool, b-time, b-uint64}
use sohocloud_protocol.Listing.{
  PrinterCapability, GpuCapability, CapabilityListing, domain_listing, put_printers, put_gpus,
  canonical_bytes,
}

abbrev pub PrinterFields : Type 0
PrinterFields = List ℕ × List ℕ

abbrev pub GpuFields : Type 0
GpuFields = List ℕ × (List ℕ × ℤ)

abbrev pub CapacityFields : Type 0
CapacityFields = ℤ × (ℤ × (ℤ × (ℤ × ℤ)))

abbrev pub OptInFields : Type 0
OptInFields = Bool × (Bool × Bool)

abbrev pub Fields : Type 0
Fields =
    List ℕ
    × (List ℕ
        × (List PrinterFields × (List GpuFields × (CapacityFields × (OptInFields × (ℤ × ℕ))))))

abbrev pub printer_fields : PrinterCapability → PrinterFields
printer_fields p = (p.kind, p.model)

abbrev pub gpu_fields : GpuCapability → GpuFields
gpu_fields g = (g.api, (g.model, g.vram_mb))

abbrev pub all_printer_fields : List PrinterCapability → List PrinterFields
all_printer_fields [] = []
all_printer_fields (p ∷ ps) = printer_fields p ∷ all_printer_fields ps

abbrev pub all_gpu_fields : List GpuCapability → List GpuFields
all_gpu_fields [] = []
all_gpu_fields (g ∷ gs) = gpu_fields g ∷ all_gpu_fields gs

abbrev pub fields : CapabilityListing → Fields
fields l =
    let c = l.capacity in
    let o = l.opt_in in
    (
      l.node_id,
      (
        l.class,
        (
          all_printer_fields l.printers,
          (
            all_gpu_fields l.gpus,
            (
              (c.vcpus, (c.mem_mb, (c.disk_mb, (c.storage_commit_mb, c.print_qps)))),
              ((o.compute, (o.print, o.storage)), (l.issued_at.nanos, l.seq)),
            ),
          ),
        ),
      ),
    )

abbrev pub printer_codec : Codec PrinterFields
printer_codec = text ⊗ text

abbrev pub gpu_codec : Codec GpuFields
gpu_codec = text ⊗ text ⊗ i64

abbrev pub body : Codec Fields
body =
    text
    ⊗ text
    ⊗ counted printer_codec
    ⊗ counted gpu_codec
    ⊗ (i64 ⊗ i64 ⊗ i64 ⊗ i64 ⊗ i64)
    ⊗ (flag ⊗ flag ⊗ flag)
    ⊗ i64
    ⊗ u64

abbrev pub codec : Codec Fields
codec = tagged domain_listing body

length-all_printer_fields :
    (ps : List PrinterCapability) → length (all_printer_fields ps) ≡ length ps
length-all_printer_fields [] = refl
length-all_printer_fields (p ∷ ps) = omega (arith, length-all_printer_fields ps)

length-all_gpu_fields : (gs : List GpuCapability) → length (all_gpu_fields gs) ≡ length gs
length-all_gpu_fields [] = refl
length-all_gpu_fields (g ∷ gs) = omega (arith, length-all_gpu_fields gs)

b-put_printers :
    (b : Buffer) (ps : List PrinterCapability)
    → All printer_codec.Fits (all_printer_fields ps)
    → (put_printers b ps).b ≡ b.b ++ encode_all printer_codec (all_printer_fields ps)
unfolding put_printers
b-put_printers b [] h = sym (append-nil b.b)
b-put_printers b (p ∷ ps) ((k, m), h) =
    b-put_printers (Canon.string (Canon.string b p.kind) p.model) ps h
    ∙ simp (b-string _ p.model m, b-string _ p.kind k, append_assoc)

b-put_gpus :
    (b : Buffer) (gs : List GpuCapability)
    → All gpu_codec.Fits (all_gpu_fields gs)
    → (put_gpus b gs).b ≡ b.b ++ encode_all gpu_codec (all_gpu_fields gs)
unfolding put_gpus
b-put_gpus b [] h = sym (append-nil b.b)
b-put_gpus b (g ∷ gs) ((a, (m, _)), h) =
    b-put_gpus (Canon.int64 (Canon.string (Canon.string b g.api) g.model) g.vram_mb) gs h
    ∙ simp (b-int64, b-string _ g.model m, b-string _ g.api a, append_assoc)

pub canonical_bytes-codec :
    (l : CapabilityListing) → codec.Fits (fields l) → canonical_bytes l ≡ codec.encode (fields l)
unfolding canonical_bytes sum
canonical_bytes-codec l (t, (n, (c, ((pn, p), ((gn, g), (_, (_, (s, _)))))))) = simp (
  b-uint64,
  b-time _ l.issued_at s,
  b-bool,
  b-int64,
  b-put_gpus _ l.gpus g,
  b-count _ (length l.gpus) (rw (← length-all_gpu_fields l.gpus) gn),
  b-put_printers _ l.printers p,
  b-count _ (length l.printers) (rw (← length-all_printer_fields l.printers) pn),
  b-string _ l.class c,
  b-string _ l.node_id n,
  b-new domain_listing t,
  length-all_printer_fields l.printers,
  length-all_gpu_fields l.gpus,
  append_assoc,
)
