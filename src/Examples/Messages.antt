-- ===== src/Examples/Messages.antt =====
-- The worked example of SPEC.md §10.3, and the theorems on messages with one signature.
use sohocloud_protocol.Prelude.{
  ℕ, ◌≡◌, ◌↔◌, refl, sym, List, [], ◌∷◌, ◌++◌, some, none, true, false, arith, ◌⊎◌, ◌^◌, ◌-◌,
}
use sohocloud_protocol.Prelude.Int.{pos, negsuc, to_u64, to_i64}
use sohocloud_protocol.Prelude.Bytes.{codes}
use sohocloud_protocol.Golang.Binary.{put_uvarint, put_uint64}
use sohocloud_protocol.Golang.Time.{unix_nano}
use sohocloud_protocol.Canon
use sohocloud_protocol.Canon.{valid_time}
use sohocloud_protocol.Canon.Chain.{
  Call, call, bool_call, count_call, string_call, time_call, err-chain_iff, IsRepresentable, chain,
}
use sohocloud_protocol.Identity.{binds_to}
use sohocloud_protocol.Identity.Binding.{node_of, binds_to-node_of}
use sohocloud_protocol.Liveness
use sohocloud_protocol.Liveness.{Heartbeat}
use sohocloud_protocol.Employment.Decline.{Decline}
use sohocloud_protocol.Fees.{Terms, balanced}
use sohocloud_protocol.Fees.Balance.{SumsTo, balanced_iff}
use sohocloud_protocol.Protocol.{
  CoreMessage, core, heartbeat, decline, core_bytes, signing_bytes, signature, sign, verify,
}
use sohocloud_protocol.Protocol.Reader.{view, read, core_view}
use sohocloud_protocol.Protocol.RoundTrip.{read-signing_bytes, signing_bytes_iff}
use sohocloud_protocol.Protocol.Domains.{kind, signing_bytes_domain}
use sohocloud_protocol.Protocol.Decisions.{core_verify_decides, core_verify_iff}
use sohocloud_protocol.Protocol.Signatures.{signature-Binds_fields}
use sohocloud_protocol.Protocol.Signing.{sign_then_verify}
use sohocloud_protocol.Canon.Collisions.{Alike, SameValues, ends, strings, then_, sum-chain_iff}
use sohocloud_protocol.Canon.Count.{Counted, count-Counted}
use sohocloud_protocol.Canon.Signature.{Valid}
use sohocloud_protocol.Examples.Toy.{
  pad, toy, toy-Binds, toy_signed, alice_signature, alice, sent, far_future,
}

abbrev beat : Heartbeat
beat = record { node_id = codes "node-alpha"; sent_at = sent; seq = 43; signature = [] }

-- SPEC.md §10.3, byte for byte.
beat_bytes :
    Liveness.canonical_bytes beat
    ≡ 0x16
      ∷ (codes "sohocloud/heartbeat/v0"
          ++ (0x0a
              ∷ (codes "node-alpha"
                  ++ (0x17 ∷ 0x97 ∷ 0x9d ∷ 0x09 ∷ 0xf8 ∷ 0x32 ∷ 0xd9 ∷ 0x00 ∷ 0 ∷ 0 ∷ 0 ∷ 0 ∷ 0 ∷ 0
                      ∷ 0 ∷ 0x2b ∷ []))))
unfolding Liveness.canonical_bytes Canon.new Canon.string Canon.time Canon.uint64 Canon.sum
    valid_time put_uvarint put_uint64 unix_nano to_u64 to_i64
beat_bytes = refl

-- SPEC.md §3: 300 is AC 02.
three_hundred : put_uvarint 300 ≡ 0xac ∷ 0x02 ∷ []
unfolding put_uvarint
three_hundred = refl

abbrev refusal : Decline
refusal = record {
  job_id = codes "job-1";
  node_id = codes "node-alpha";
  reason = codes "local_policy";
  declined_at = sent;
  signature = [];
}

read-signing_bytes_example :
    read (signing_bytes (core (heartbeat beat)) ++ (1 ∷ []))
    ≡ some (view (core (heartbeat beat)), 1 ∷ [])
unfolding view core_view
read-signing_bytes_example = read-signing_bytes (core (heartbeat beat)) (1 ∷ []) (omega arith)

signing_bytes_iff_example :
    (signing_bytes (core (heartbeat beat)) ≡ signing_bytes (core (decline refusal)))
    ↔ (view (core (heartbeat beat)) ≡ view (core (decline refusal)))
unfolding view core_view
signing_bytes_iff_example =
    signing_bytes_iff (core (heartbeat beat)) (core (decline refusal)) (omega arith) (omega arith)

-- The heartbeat of another time zone, with the same bytes.
abbrev beat_elsewhere : Heartbeat
beat_elsewhere = record {
  node_id = codes "node-alpha";
  sent_at = record sent { zone = pos 0 };
  seq = 43;
  signature = [];
}

same_bytes : signing_bytes (core (heartbeat beat)) ≡ signing_bytes (core (heartbeat beat_elsewhere))
unfolding view core_view
same_bytes =
    (signing_bytes_iff (core (heartbeat beat)) (core (heartbeat beat_elsewhere)) (omega arith)
        (omega arith)).1
      refl

signing_bytes_domain_example : kind (core (heartbeat beat)) ≡ kind (core (heartbeat beat_elsewhere))
signing_bytes_domain_example =
    signing_bytes_domain (core (heartbeat beat)) (core (heartbeat beat_elsewhere)) same_bytes

abbrev marked : List ℕ
marked = core_bytes (heartbeat beat)

abbrev signed : CoreMessage
signed = heartbeat (record beat { signature = alice_signature })

abbrev signed_elsewhere : CoreMessage
signed_elsewhere = heartbeat (record beat_elsewhere { signature = alice_signature })

signed_accepted : verify (toy marked) (pad 32 alice) signed ≡ some true
unfolding core_bytes signature Liveness.canonical_bytes
signed_accepted =
    (core_verify_iff (toy marked) (pad 32 alice) signed).1 (toy_signed marked signed refl refl, tt)

signed_elsewhere_accepted : verify (toy marked) (pad 32 alice) signed_elsewhere ≡ some true
unfolding core_bytes signing_bytes signature Liveness.canonical_bytes
signed_elsewhere_accepted =
    (core_verify_iff (toy marked) (pad 32 alice) signed_elsewhere).1
      (toy_signed marked signed_elsewhere (sym same_bytes) refl, tt)

-- With an empty key.
core_verify_decides_example :
    ((verify (toy []) [] (heartbeat beat) ≡ some true)
      ↔ (Valid (toy []) [] (core_bytes (heartbeat beat)) (signature (heartbeat beat)) × Unit {0}))
    × ((verify (toy []) [] (heartbeat beat) ≡ some false) ↔ (
        ¬ (
          Valid (toy []) [] (core_bytes (heartbeat beat)) (signature (heartbeat beat)) × Unit {0})))
core_verify_decides_example = core_verify_decides (toy []) [] (heartbeat beat)

signature-Binds_fields_example : view (core signed) ≡ view (core signed_elsewhere)
unfolding signature core_view
signature-Binds_fields_example =
    signature-Binds_fields (toy marked) (pad 32 alice) signed signed_elsewhere (omega arith)
      (omega arith) signed_accepted signed_elsewhere_accepted refl
      (toy-Binds marked (pad 32 alice) (pad 63 (pad 32 alice)))

sign_then_verify_example :
    (m' : CoreMessage) × (sign (toy []) alice (decline refusal) ≡ some m')
    × (core_view m' ≡ core_view (decline refusal))
    × (verify (toy []) (pad 32 alice) m' ≡ some true)
sign_then_verify_example = sign_then_verify (toy []) alice (decline refusal) refl tt

-- One text cut at two places.
abbrev cut_early : List Call
cut_early = string_call (codes "a") ∷ string_call (codes "bc") ∷ []

abbrev cut_late : List Call
cut_late = string_call (codes "ab") ∷ string_call (codes "c") ∷ []

abbrev cuts : Alike cut_early cut_late
cuts = then_ (strings (codes "a") (codes "ab")) (then_ (strings (codes "bc") (codes "c")) ends)

sum-chain_iff_example :
    (Canon.sum (chain (Canon.new (codes "tag")) cut_early)
      ≡ Canon.sum (chain (Canon.new (codes "tag")) cut_late))
    ↔ ((codes "tag" ≡ codes "tag") × SameValues cuts)
sum-chain_iff_example =
    sum-chain_iff (codes "tag") (codes "tag") cut_early cut_late cuts (omega arith) (omega arith)
      (omega arith) (omega arith)

-- Other operations on other values may give the same bytes.
flag_as_count :
    Canon.sum (chain (Canon.new (codes "tag")) (bool_call true ∷ []))
    ≡ Canon.sum (chain (Canon.new (codes "tag")) (count_call (pos 1) ∷ []))
unfolding chain call Canon.new Canon.string Canon.bool Canon.count Canon.sum put_uvarint to_u64
flag_as_count = refl

-- The largest varint: a count of -1 wraps to 2^64 - 1.
count-Counted_example :
    Counted (Canon.new (codes "tag")) (Canon.count (Canon.new (codes "tag")) (negsuc 0)) (negsuc 0)
count-Counted_example = count-Counted (Canon.new (codes "tag")) (negsuc 0)

binds_to-node_of_example :
    (binds_to (codes "/node/node-alpha") (codes "node-alpha") ≡ true)
    ↔ (node_of (codes "/node/node-alpha") ≡ some (codes "node-alpha"))
binds_to-node_of_example = binds_to-node_of (codes "/node/node-alpha") (codes "node-alpha")

err-chain_iff_example :
    (Canon.err
        (chain (Canon.new (codes "tag")) (string_call (codes "a") ∷ time_call far_future ∷ []))
      ≡ none)
    ↔ (Unit {0} × (IsRepresentable (time_call far_future) × Unit {0}))
err-chain_iff_example =
    err-chain_iff (codes "tag") (string_call (codes "a") ∷ time_call far_future ∷ [])

abbrev wrapping : Terms
wrapping = record {
  contributor_share_bps = negsuc (2 ^ 63 - 1);
  platform_fee_bps = negsuc (2 ^ 63 - 10001);
}

-- A split of two huge negative shares counts as balanced.
wrapping-balanced : balanced wrapping ≡ true
unfolding balanced to_u64
wrapping-balanced = refl

balanced_iff_example : (balanced wrapping ≡ true) ↔ (
    SumsTo wrapping.contributor_share_bps wrapping.platform_fee_bps (pos 10000)
    ⊎ SumsTo wrapping.contributor_share_bps wrapping.platform_fee_bps (negsuc (2 ^ 64 - 10001)))
balanced_iff_example = balanced_iff wrapping (omega arith) (omega arith)
