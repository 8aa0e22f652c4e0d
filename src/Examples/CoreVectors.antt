-- ===== src/Examples/CoreVectors.antt =====
-- The messages between nodes and coordinators in `testdata/vectors.json`: their canonical bytes.
use sohocloud_protocol.Prelude.{◌≡◌, refl, true, false, [], ◌∷◌}
use sohocloud_protocol.Prelude.Int.{pos, to_u64, to_i64}
use sohocloud_protocol.Prelude.Bytes.{codes}
use sohocloud_protocol.Golang.Binary.{put_uvarint, put_uint64}
use sohocloud_protocol.Golang.Time.{unix_nano}
use sohocloud_protocol.Canon
use sohocloud_protocol.Canon.{valid_time}
use sohocloud_protocol.Examples.Hex.{hex, hex_bytes, instant}
use sohocloud_protocol.Listing
use sohocloud_protocol.Liveness
use sohocloud_protocol.Employment.Assignment
use sohocloud_protocol.Employment.Decline
use sohocloud_protocol.Employment.JobReport
use sohocloud_protocol.Fees
use sohocloud_protocol.Listing.{
  CapabilityListing, class_server, printer_traditional, printer_3d, gpu_cuda, gpu_vulkan,
}
use sohocloud_protocol.Liveness.{Heartbeat}
use sohocloud_protocol.Employment.Assignment.{Assignment}
use sohocloud_protocol.Employment.Decline.{Decline}
use sohocloud_protocol.Employment.JobReport.{JobReport}
use sohocloud_protocol.Fees.{FeeDeclaration}

abbrev listing : CapabilityListing
listing = record {
  node_id = codes "node-alpha";
  class = class_server;
  printers =
      (record { kind = printer_traditional; model = codes "HP LaserJet" })
      ∷ (record { kind = printer_3d; model = codes "Prusa MK4" })
      ∷ [];
  gpus =
      (record { api = gpu_cuda; model = codes "RTX 4090"; vram_mb = pos 24576 })
      ∷ (record { api = gpu_vulkan; model = codes "Adreno 750"; vram_mb = pos 8192 })
      ∷ [];
  capacity = record {
    vcpus = pos 16;
    mem_mb = pos 65536;
    disk_mb = pos 2000000;
    storage_commit_mb = pos 500000;
    print_qps = pos 3;
  };
  opt_in = record { compute = true; print = false; storage = true };
  issued_at = instant 1700000000000000123;
  seq = 42;
  signature =
      hex
        "996279bd351b85d29164a572fdb9b7e2a43c740c4f1fcfe3588de98da8e751ca66c1ffc8d71500930265cdc16fc2c1aecd7076fcefae2a9d5d5e62274c718207";
}

listing_bytes :
    Listing.canonical_bytes listing
    ≡ hex
        "14736f686f636c6f75642f6c697374696e672f76300a6e6f64652d616c70686106736572766572020b747261646974696f6e616c0b4850204c617365724a657406746872656564095072757361204d4b3402046375646108525458203430393000000000000060000676756c6b616e0a416472656e6f2037353000000000000020000000000000000010000000000001000000000000001e8480000000000007a120000000000000000301000117979cfe362a007b000000000000002a"
unfolding Listing.canonical_bytes Listing.put_printers Listing.put_gpus Canon.new Canon.string
    Canon.bytes Canon.count Canon.bool Canon.int64 Canon.uint64 Canon.time Canon.sum valid_time
    put_uvarint put_uint64 unix_nano to_u64 to_i64 hex_bytes
listing_bytes = refl

abbrev heartbeat : Heartbeat
heartbeat = record {
  node_id = codes "node-alpha";
  sent_at = instant 1700000050500000000;
  seq = 43;
  signature =
      hex
        "4db2906112b0528e7c24b2502506f22af5669ff21be303a41e06c5d911d79b5fe9a459ddac0e262e1b6ae40aa385d88bfd8f74d539a0a4ac3909ff5bbf46d807";
}

heartbeat_bytes :
    Liveness.canonical_bytes heartbeat
    ≡ hex
        "16736f686f636c6f75642f6865617274626561742f76300a6e6f64652d616c70686117979d09f832d900000000000000002b"
unfolding Liveness.canonical_bytes Canon.new Canon.string Canon.bytes Canon.count Canon.bool
    Canon.int64 Canon.uint64 Canon.time Canon.sum valid_time put_uvarint put_uint64 unix_nano to_u64
    to_i64 hex_bytes
heartbeat_bytes = refl

abbrev assignment : Assignment
assignment = record {
  job_id = codes "job-7f3a";
  node_id = codes "node-alpha";
  spec = record {
    workload = codes "compute";
    image = codes "ghcr.io/ntari/render:1.2.3";
    args = (codes "--frames") ∷ (codes "120") ∷ (codes "--quality") ∷ (codes "high") ∷ [];
    printer_kind = [];
    gpu_api = gpu_cuda;
    gpu_min_vram_mb = pos 8192;
  };
  fee = record { contributor_share_bps = pos 6500; platform_fee_bps = pos 3500 };
  offered_at = instant 1700000100000000000;
  signature =
      hex
        "259a333aacd0f5a14ad66be5f3b0a2defb129545e8c46c8dbcf0df4064381e5e7996fb0dae42b149b07eeaf591d8f27e1550cea4d52739320140d72d1d9c6201";
}

assignment_bytes :
    Assignment.canonical_bytes assignment
    ≡ hex
        "17736f686f636c6f75642f61737369676e6d656e742f7630086a6f622d376633610a6e6f64652d616c70686107636f6d707574651a676863722e696f2f6e746172692f72656e6465723a312e322e3304082d2d6672616d657303313230092d2d7175616c6974790468696768000463756461000000000000200000000000000019640000000000000dac17979d157ea0e800"
unfolding Assignment.canonical_bytes Assignment.put_args Canon.new Canon.string Canon.bytes
    Canon.count Canon.bool Canon.int64 Canon.uint64 Canon.time Canon.sum valid_time put_uvarint
    put_uint64 unix_nano to_u64 to_i64 hex_bytes
assignment_bytes = refl

abbrev decline : Decline
decline = record {
  job_id = codes "job-7f3a";
  node_id = codes "node-alpha";
  reason = Decline.decline_local_policy;
  declined_at = instant 1699999990000000777;
  signature =
      hex
        "ed2a79b0d992f207b45b2250d1a8a99e0d6cdb8cd07e76ad5c0b21191b2d1780eaf545d64c14d8a48b08d16ab57bfcbca36f7992e1c39af97deb34bf062e530c";
}

decline_bytes :
    Decline.canonical_bytes decline
    ≡ hex
        "14736f686f636c6f75642f6465636c696e652f7630086a6f622d376633610a6e6f64652d616c7068610c6c6f63616c5f706f6c69637917979cfbe21e1f09"
unfolding Decline.canonical_bytes Canon.new Canon.string Canon.bytes Canon.count Canon.bool
    Canon.int64 Canon.uint64 Canon.time Canon.sum valid_time put_uvarint put_uint64 unix_nano to_u64
    to_i64 hex_bytes
decline_bytes = refl

abbrev report : JobReport
report = record {
  job_id = codes "job-7f3a";
  node_id = codes "node-alpha";
  exit_code = pos 137;
  failure_cause = codes "oom_killed";
  tmpfs_exhausted = true;
  started_at = instant 1700000000000000123;
  finished_at = instant 1700000100000000000;
  signature =
      hex
        "7f15ca7dd15a4c0bc85e14fa10336f0b225c54e4ba3bbc27db3bd6d1d86399114d767b5a0b07501f4d64c228b30d3349f7e1fe360ff55ae45e7cc822a2976f01";
}

report_bytes :
    JobReport.canonical_bytes report
    ≡ hex
        "16736f686f636c6f75642f6a6f627265706f72742f7630086a6f622d376633610a6e6f64652d616c70686100000000000000890a6f6f6d5f6b696c6c65640117979cfe362a007b17979d157ea0e800"
unfolding JobReport.canonical_bytes Canon.new Canon.string Canon.bytes Canon.count Canon.bool
    Canon.int64 Canon.uint64 Canon.time Canon.sum valid_time put_uvarint put_uint64 unix_nano to_u64
    to_i64 hex_bytes
report_bytes = refl

abbrev fee : FeeDeclaration
fee = record {
  coordinator_id = codes "coord-soholink";
  terms = record { contributor_share_bps = pos 7000; platform_fee_bps = pos 3000 };
  effective_at = instant 1700000050500000000;
  seq = 5;
  signature =
      hex
        "62bcba4a0bf06c6e6d29a3c9000899b19d9957a8713e32e25a9ec4e1541fb6868220d85b366f33ac57908ab8f1e01ecc577c04666fab4228dca2da91245d2108";
}

fee_bytes :
    Fees.canonical_bytes fee
    ≡ hex
        "10736f686f636c6f75642f6665652f76300e636f6f72642d736f686f6c696e6b0000000000001b580000000000000bb817979d09f832d9000000000000000005"
unfolding Fees.canonical_bytes Canon.new Canon.string Canon.bytes Canon.count Canon.bool Canon.int64
    Canon.uint64 Canon.time Canon.sum valid_time put_uvarint put_uint64 unix_nano to_u64 to_i64
    hex_bytes
fee_bytes = refl
