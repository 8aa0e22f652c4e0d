-- ===== src/Listing.antt =====
-- `listing/listing.go`: a node's signed advertisement of the work that it accepts. The classes,
-- printer kinds and GPU interfaces are strings, of which the source names some.
pub mod Wire
use sohocloud_protocol.Prelude.{ℕ, Bool, Option, some, List, [], ◌∷◌, length}
use sohocloud_protocol.Identity.{NodeId}
use sohocloud_protocol.Prelude.Int.{ℤ, pos}
use sohocloud_protocol.Prelude.Bytes.{codes}
use sohocloud_protocol.Golang.Time.{Time}
use sohocloud_protocol.Golang.Ed25519.{Ed25519, sign as ed25519_sign}
use sohocloud_protocol.Canon
use sohocloud_protocol.Canon.{verify_sig, Buffer}
use sohocloud_protocol.Canon.Codec.{◌>>=◌}

-- Named strings: any value travels, and these are the ones the protocol names.
abbrev pub ComputeClass : Type 0
ComputeClass = List ℕ

abbrev pub class_micro : ComputeClass
class_micro = codes "micro"

abbrev pub class_standard : ComputeClass
class_standard = codes "standard"

abbrev pub class_server : ComputeClass
class_server = codes "server"

-- The kind of a printer.
abbrev pub PrinterKind : Type 0
PrinterKind = List ℕ

abbrev pub printer_traditional : PrinterKind
printer_traditional = codes "traditional"

abbrev pub printer_3d : PrinterKind
printer_3d = codes "threed"

-- The interface of a graphics card.
abbrev pub GpuApi : Type 0
GpuApi = List ℕ

abbrev pub gpu_vulkan : GpuApi
gpu_vulkan = codes "vulkan"

abbrev pub gpu_nnapi : GpuApi
gpu_nnapi = codes "nnapi"

abbrev pub gpu_cuda : GpuApi
gpu_cuda = codes "cuda"

abbrev pub gpu_metal : GpuApi
gpu_metal = codes "metal"

pub record PrinterCapability : Type 0 where
  pub kind : PrinterKind
  pub model : List ℕ

pub record GpuCapability : Type 0 where
  pub api : GpuApi
  pub model : List ℕ
  pub vram_mb : ℤ

pub record Capacity : Type 0 where
  pub vcpus : ℤ
  pub mem_mb : ℤ
  pub disk_mb : ℤ
  pub storage_commit_mb : ℤ
  pub print_qps : ℤ

pub record WorkloadOptIn : Type 0 where
  pub compute : Bool
  pub print : Bool
  pub storage : Bool

pub record CapabilityListing : Type 0 where
  pub node_id : NodeId
  pub class : ComputeClass
  pub printers : List PrinterCapability
  pub gpus : List GpuCapability
  pub capacity : Capacity
  pub opt_in : WorkloadOptIn
  pub issued_at : Time
  pub seq : ℕ
  pub signature : List ℕ

abbrev pub domain_listing : List ℕ
domain_listing = codes "sohocloud/listing/v0"

-- The loop over `l.Printers`.
unfoldable pub put_printers : Buffer → List PrinterCapability → Buffer
put_printers b [] = b
put_printers b (p ∷ ps) =
    let b = Canon.string b p.kind in let b = Canon.string b p.model in put_printers b ps

-- The loop over `l.GPUs`.
unfoldable pub put_gpus : Buffer → List GpuCapability → Buffer
put_gpus b [] = b
put_gpus b (g ∷ gs) =
    let b = Canon.string b g.api in
    let b = Canon.string b g.model in let b = Canon.int64 b g.vram_mb in put_gpus b gs

unfoldable pub canonical_bytes : CapabilityListing → List ℕ
canonical_bytes l =
    let b = Canon.new domain_listing in
    let b = Canon.string b l.node_id in
    let b = Canon.string b l.class in
    let b = Canon.count b (pos (length l.printers)) in
    let b = put_printers b l.printers in
    let b = Canon.count b (pos (length l.gpus)) in
    let b = put_gpus b l.gpus in
    let b = Canon.int64 b l.capacity.vcpus in
    let b = Canon.int64 b l.capacity.mem_mb in
    let b = Canon.int64 b l.capacity.disk_mb in
    let b = Canon.int64 b l.capacity.storage_commit_mb in
    let b = Canon.int64 b l.capacity.print_qps in
    let b = Canon.bool b l.opt_in.compute in
    let b = Canon.bool b l.opt_in.print in
    let b = Canon.bool b l.opt_in.storage in
    let b = Canon.time b l.issued_at in let b = Canon.uint64 b l.seq in Canon.sum b

unfoldable pub sign : Ed25519 → List ℕ → CapabilityListing → Option CapabilityListing
sign c priv l = do
  sig ← ed25519_sign c priv (canonical_bytes l)
  some (record l { signature = sig })

unfoldable pub verify : Ed25519 → List ℕ → CapabilityListing → Option Bool
verify c pub_key l = verify_sig c pub_key (canonical_bytes l) l.signature
