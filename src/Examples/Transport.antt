-- ===== src/Examples/Transport.antt =====
-- The transport between a client and a coordinator that logs who was heard of.
use sohocloud_protocol.Prelude.{
  ℕ, ◌≡◌, refl, true, none, some, inl, inr, List, [], ◌∷◌, ◌++◌, ◌||◌, if◌then◌else◌, arith, drop,
}
use sohocloud_protocol.Prelude.Int.{pos}
use sohocloud_protocol.Prelude.Bytes.{codes, bytes_equal}
use sohocloud_protocol.Golang.Url.{cut, query_get, query_escape}
use sohocloud_protocol.Liveness.{Heartbeat}
use sohocloud_protocol.Listing.{CapabilityListing}
use sohocloud_protocol.Employment.Decline.{Decline}
use sohocloud_protocol.Employment.JobReport.{JobReport}
use sohocloud_protocol.Fees.{FeeDeclaration}
use sohocloud_protocol.Coordinator.{Coordinator}
use sohocloud_protocol.Transport.{Request, Json, ParseUrl, Codecs, method_post, newline}
use sohocloud_protocol.Transport.Server.{Handle, handler}
use sohocloud_protocol.Transport.Client
use sohocloud_protocol.Transport.Client.{Client, Network, http_client, status_error}
use sohocloud_protocol.Transport.Routes.{heartbeat_route, Outcome, handler-Outcome}
use sohocloud_protocol.Transport.Exchange.{decline_becomes, decline_notice, client_notice}
use sohocloud_protocol.Transport.EndToEnd.{deliver, notice_delivered, poll_jobs_delivered}
use sohocloud_protocol.Examples.Toy.{sent}

-- It knows one value and its text.
abbrev pub toy_json : {A : Type 0} → A → List ℕ → Json A
toy_json v text = record {
  zero_value = v;
  marshal = λ _. inl text;
  decode = λ t. (
    v,
    if bytes_equal t text || bytes_equal t (text ++ newline) then none else some (codes "EOF"),
  );
}

abbrev pub listing : CapabilityListing
listing = record {
  node_id = codes "node-7";
  class = codes "desktop";
  printers = [];
  gpus = [];
  capacity = record {
    vcpus = pos 4;
    mem_mb = pos 8000;
    disk_mb = pos 100;
    storage_commit_mb = pos 0;
    print_qps = pos 0;
  };
  opt_in = record { compute = true; print = true; storage = true };
  issued_at = sent;
  seq = 1;
  signature = [];
}

abbrev pub beat : Heartbeat
beat = record { node_id = codes "node-7"; sent_at = sent; seq = 2; signature = [] }

abbrev pub refusal : Decline
refusal = record {
  job_id = codes "job-1";
  node_id = codes "node-7";
  reason = codes "local_policy";
  declined_at = sent;
  signature = [];
}

abbrev pub outcome : JobReport
outcome = record {
  job_id = codes "job-1";
  node_id = codes "node-7";
  exit_code = pos 0;
  failure_cause = [];
  tmpfs_exhausted = true;
  started_at = sent;
  finished_at = sent;
  signature = [];
}

abbrev pub declaration : FeeDeclaration
declaration = record {
  coordinator_id = codes "c";
  terms = record { contributor_share_bps = pos 9000; platform_fee_bps = pos 1000 };
  effective_at = sent;
  seq = 1;
  signature = [];
}

abbrev pub toy_codecs : Codecs
toy_codecs = record {
  listing = toy_json listing (codes "{l}");
  heartbeat = toy_json beat (codes "{h}");
  assignments = toy_json [] (codes "null");
  decline = toy_json refusal (codes "{d}");
  report = toy_json outcome (codes "{r}");
  fees = toy_json declaration (codes "{f}");
}

abbrev pub Log : Type 0
Log = List (List ℕ)

abbrev pub toy_coordinator : Coordinator Log
toy_coordinator = record {
  submit_listing = λ s l. (l.node_id ∷ s, none);
  heartbeat = λ s h. (h.node_id ∷ s, none);
  poll_jobs = λ s id. (id ∷ s, ([], none));
  decline = λ s d. (s, some (codes "unknown job"));
  report_job = λ s r. (r.node_id ∷ s, none);
  fees = λ s. (s, (declaration, none));
}

abbrev pub not_found : Handle Log
not_found s r = (s, record { status = 404; content_type = []; body = [] })

abbrev pub toy_parse : ParseUrl
toy_parse url = inl (cut 63 (drop 8 url))

-- The network of a host that is not there.
abbrev pub nowhere : Network Log
nowhere s r = (s, inr (codes "no such host"))

abbrev pub client : Client Log
client = record {
  base_url = codes "http://c";
  http = some (deliver toy_codecs toy_coordinator not_found);
}

-- A query with a space, an ampersand and a percent sign.
escaped : query_escape (codes "a &%") ≡ codes "a+%26%25"
unfolding query_escape
escaped = refl

-- The first value counts, and a part that does not parse is passed over.
queried : query_get (codes "x=1&node_id=%zz&node_id=a+b&node_id=c") (codes "node_id") ≡ codes "a b"
unfolding query_get bytes_equal
queried = refl

-- A decline, to which this coordinator answers with an error.
notice_delivered_example :
    client_notice toy_parse nowhere client toy_codecs [] (decline_notice refusal) ≡ (
      [],
      some (status_error method_post (codes "/v0/decline") 500 (codes "unknown job" ++ newline)),
    )
unfolding cut bytes_equal http_client
notice_delivered_example =
    notice_delivered toy_codecs toy_coordinator not_found toy_parse nowhere client refl []
      (decline_notice refusal) (decline_notice refusal) refl
      (decline_becomes (codes "{d}", refl, refl))

poll_jobs_delivered_example :
    Client.poll_jobs toy_parse nowhere client toy_codecs [] (codes "a b")
    ≡ (codes "a b" ∷ [], ([], none))
unfolding cut bytes_equal query_escape http_client
poll_jobs_delivered_example =
    poll_jobs_delivered toy_codecs toy_coordinator not_found toy_parse nowhere client refl []
      (codes "a b") [] (omega arith) (λ e. cc) refl (codes "null", refl, refl)

abbrev pub beat_request : Request
beat_request = record {
  method = method_post;
  path = codes "/v0/heartbeat";
  query = [];
  body = codes "{h}";
}

handler-Outcome_example :
    Outcome toy_codecs toy_coordinator [] heartbeat_route beat_request
      (handler toy_codecs toy_coordinator not_found [] beat_request)
handler-Outcome_example =
    handler-Outcome toy_codecs toy_coordinator not_found [] beat_request heartbeat_route refl
