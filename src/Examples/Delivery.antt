-- ===== src/Examples/Delivery.antt =====
-- Messages whose instants come back from JSON in another location.
use sohocloud_protocol.Prelude.{ℕ, List, ◌≡◌, refl, none, some, true, inr, [], ◌∷◌, arith}
use sohocloud_protocol.Prelude.Int.{pos, to_u64, to_i64}
use sohocloud_protocol.Prelude.Bytes.{codes, bytes_equal}
use sohocloud_protocol.Golang.Url.{cut, query_escape}
use sohocloud_protocol.Golang.Time.{Time, unix_nano, utc}
use sohocloud_protocol.Golang.Binary.{put_uvarint, put_uint64}
use sohocloud_protocol.Golang.Ed25519.{Ed25519, sign as ed25519_sign, verify as ed25519_verify}
use sohocloud_protocol.Canon
use sohocloud_protocol.Canon.{valid_time, verify_sig}
use sohocloud_protocol.Liveness
use sohocloud_protocol.Liveness.{Heartbeat}
use sohocloud_protocol.Employment.Assignment
use sohocloud_protocol.Employment.Assignment.{Assignment, put_args}
use sohocloud_protocol.Coordinator.{Coordinator}
use sohocloud_protocol.Protocol
use sohocloud_protocol.Protocol.{heartbeat}
use sohocloud_protocol.Protocol.Reader.{core_view}
use sohocloud_protocol.Protocol.SameView.{SameSigned, verify-SameSigned}
use sohocloud_protocol.Transport.{Codecs}
use sohocloud_protocol.Transport.Client
use sohocloud_protocol.Transport.Server.{answer}
use sohocloud_protocol.Transport.Client.{Client, http_client, passed_on}
use sohocloud_protocol.Transport.EndToEnd.{deliver}
use sohocloud_protocol.Transport.Exchange.{heartbeat_notice, heartbeat_becomes, client_notice}
use sohocloud_protocol.Transport.Delivery.{
  AllVerify, SameJobs, signed_notice_arrives, polled_jobs_arrive,
}
use sohocloud_protocol.Transport.Unmarshalled.{jobs_unmarshalled}
use sohocloud_protocol.Examples.Toy.{toy, alice, pad, sent}
use sohocloud_protocol.Examples.Transport.{
  Log, toy_json, toy_codecs, toy_coordinator, toy_parse, not_found, nowhere, beat,
}

abbrev scheme : Ed25519
scheme = toy []

-- The clock of a process two hours east of Greenwich.
abbrev abroad : Time
abroad = record sent { zone = pos 7200; monotonic = some (pos 5) }

abbrev draft_abroad : Heartbeat
draft_abroad = record beat { sent_at = abroad }

abbrev beat_signature : List ℕ
beat_signature = scheme.sign alice (Liveness.canonical_bytes draft_abroad)

abbrev beat_abroad : Heartbeat
beat_abroad = record draft_abroad { signature = beat_signature }

abbrev job_draft : Assignment
job_draft = record {
  job_id = codes "job-1";
  node_id = codes "node-7";
  spec = record {
    workload = codes "render";
    image = codes "img";
    args = codes "x" ∷ [];
    printer_kind = [];
    gpu_api = [];
    gpu_min_vram_mb = pos 0;
  };
  fee = record { contributor_share_bps = pos 9000; platform_fee_bps = pos 1000 };
  offered_at = abroad;
  signature = [];
}

abbrev job : Assignment
job = record job_draft { signature = scheme.sign alice (Assignment.canonical_bytes job_draft) }

-- What JSON makes of them.
abbrev beat_decoded : Heartbeat
beat_decoded = record beat_abroad { sent_at = utc sent }

abbrev job_decoded : Assignment
job_decoded = record job { offered_at = utc sent }

beat_same : SameSigned (heartbeat beat_abroad) (heartbeat beat_decoded)
unfolding core_view Protocol.signature utc
beat_same = record { same_view = refl; same_signature = refl }

verify-SameSigned_example :
    Protocol.verify scheme (pad 32 alice) (heartbeat beat_abroad)
    ≡ Protocol.verify scheme (pad 32 alice) (heartbeat beat_decoded)
unfolding core_view
verify-SameSigned_example =
    verify-SameSigned scheme (pad 32 alice) (heartbeat beat_abroad) (heartbeat beat_decoded)
      beat_same (omega arith)

abbrev utc_codecs : Codecs
utc_codecs = record toy_codecs {
  heartbeat = toy_json beat_decoded (codes "{h}");
  assignments = toy_json (job_decoded ∷ []) (codes "[{a}]");
}

-- It offers one job to everyone.
abbrev offering : Coordinator Log
offering = record toy_coordinator { poll_jobs = λ s id. (id ∷ s, (job ∷ [], none)) }

abbrev utc_client : Client Log
utc_client = record {
  base_url = codes "http://c";
  http = some (deliver utc_codecs offering not_found);
}

signed_notice_arrives_example :
    (client_notice toy_parse nowhere utc_client utc_codecs [] (heartbeat_notice beat_abroad)
      ≡ (codes "node-7" ∷ [], none))
    × (Protocol.verify scheme (pad 32 alice) (heartbeat beat_decoded) ≡ some true)
unfolding cut bytes_equal http_client core_view Protocol.sign Liveness.sign ed25519_sign
signed_notice_arrives_example =
    signed_notice_arrives utc_codecs offering not_found toy_parse nowhere utc_client refl scheme
      alice [] (heartbeat_notice draft_abroad) (heartbeat_notice beat_abroad)
      (heartbeat_notice beat_decoded) refl refl (omega arith) refl
      (heartbeat_becomes (codes "{h}", refl, refl)) beat_same

job_same : SameJobs (job ∷ []) (job_decoded ∷ [])
unfolding core_view Protocol.signature utc
job_same = (record { same_view = refl; same_signature = refl }, omega arith, tt)

job_verifies : AllVerify scheme (pad 32 alice) (job ∷ [])
unfolding Protocol.verify Assignment.verify Assignment.canonical_bytes put_args verify_sig
    ed25519_verify bytes_equal Canon.new Canon.string Canon.count Canon.int64 Canon.uint64
    Canon.time Canon.sum valid_time put_uvarint put_uint64 unix_nano to_u64 to_i64 pad
job_verifies = (refl, tt)

polled_jobs_arrive_example :
    (Client.poll_jobs toy_parse nowhere utc_client utc_codecs [] (codes "node-7")
      ≡ (codes "node-7" ∷ [], (job_decoded ∷ [], none)))
    × AllVerify scheme (pad 32 alice) (job_decoded ∷ [])
unfolding cut bytes_equal http_client query_escape
polled_jobs_arrive_example =
    polled_jobs_arrive utc_codecs offering not_found toy_parse nowhere utc_client refl scheme
      (pad 32 alice) [] (codes "node-7") (job ∷ []) (job_decoded ∷ []) (omega arith) (λ e. cc) refl
      refl (codes "[{a}]", refl, refl) job_same job_verifies

-- A marshaller that fails, as on a year above 9999.
abbrev mute_codecs : Codecs
mute_codecs = record toy_codecs {
  assignments = record {
    zero_value = [];
    marshal = λ jobs. inr (codes "year outside of range");
    decode = λ text. ([], some (codes "EOF"));
  };
}

abbrev mute_client : Client Log
mute_client = record {
  base_url = codes "http://c";
  http = some (deliver mute_codecs offering not_found);
}

jobs_unmarshalled_example :
    ((answer mute_codecs.assignments (job ∷ [], none)).status ≡ 200)
    × ((answer mute_codecs.assignments (job ∷ [], none)).body ≡ [])
    × (Client.poll_jobs toy_parse nowhere mute_client mute_codecs [] (codes "node-7")
        ≡ (codes "node-7" ∷ [], ([], some (passed_on (codes "EOF")))))
unfolding cut bytes_equal http_client query_escape
jobs_unmarshalled_example =
    jobs_unmarshalled mute_codecs offering not_found toy_parse nowhere mute_client refl []
      (codes "node-7") (job ∷ []) [] (codes "year outside of range") (codes "EOF") (omega arith)
      (λ e. cc) refl refl refl refl
