-- ===== src/Examples/Replay.antt =====
-- A heartbeat that a client sends, a stranger repeats and the client sends again.
use sohocloud_protocol.Prelude.{◌≢◌, refl, none, [], ◌∷◌, arith}
use sohocloud_protocol.Prelude.Int.{to_u64, to_i64}
use sohocloud_protocol.Prelude.Bytes.{codes, bytes_equal}
use sohocloud_protocol.Golang.Url.{cut}
use sohocloud_protocol.Liveness.{Heartbeat}
use sohocloud_protocol.Coordinator.{Coordinator}
use sohocloud_protocol.Transport.{Codecs}
use sohocloud_protocol.Transport.Server.{Handle, handler}
use sohocloud_protocol.Transport.Client
use sohocloud_protocol.Transport.Client.{Client, http_client}
use sohocloud_protocol.Transport.Routes.{heartbeat_route}
use sohocloud_protocol.Transport.EndToEnd.{deliver}
use sohocloud_protocol.Transport.Exchange.{heartbeat_becomes}
use sohocloud_protocol.Canon
use sohocloud_protocol.Canon.{valid_time, verify_sig}
use sohocloud_protocol.Golang.Binary.{put_uvarint, put_uint64}
use sohocloud_protocol.Golang.Time.{unix_nano}
use sohocloud_protocol.Golang.Ed25519.{verify as ed25519_verify}
use sohocloud_protocol.Liveness
use sohocloud_protocol.Coordinator.SeqContract.{heartbeat_signal}
use sohocloud_protocol.Transport.Replay.{Sendable, Visit, send, visited, stale_signal_refused}
use sohocloud_protocol.Examples.SeqBook.{Floors, seq_book, take_signal, seq_book-SeqContract}
use sohocloud_protocol.Examples.Toy.{toy, alice, pad}
use sohocloud_protocol.Examples.Transport.{
  toy_json, beat, declaration, toy_codecs, toy_parse, beat_request,
}

abbrev seq_coordinator : Coordinator Floors
seq_coordinator = seq_book (toy []) (pad 32 alice) declaration

abbrev unseen : Floors
unseen q node = 0

abbrev seq_client : Client Floors
seq_client = record { base_url = codes "http://c"; http = none }

abbrev absent : Handle Floors
absent s r = (s, record { status = 404; content_type = []; body = [] })

abbrev signed_beat : Heartbeat
signed_beat = record beat { signature = (toy []).sign alice (Liveness.canonical_bytes beat) }

abbrev beat_codecs : Codecs
beat_codecs = record toy_codecs { heartbeat = toy_json signed_beat (codes "{h}") }

abbrev beat_visit : Visit
beat_visit = record { request = beat_request; route = heartbeat_route; aimed = refl }

beat-Sendable :
    Sendable beat_codecs seq_coordinator absent toy_parse
      (deliver beat_codecs seq_coordinator absent)
      seq_client
      (heartbeat_signal signed_beat)
unfolding cut bytes_equal
beat-Sendable = record {
  arrives = heartbeat_signal signed_beat;
  routed = refl;
  becomes = heartbeat_becomes (codes "{h}", refl, refl);
  same_series = refl;
  same_node = refl;
  same_seq = refl;
}

stale_signal_refused_example :
    (send beat_codecs seq_coordinator absent toy_parse
      (deliver beat_codecs seq_coordinator absent)
      seq_client
      (visited beat_codecs seq_coordinator absent
        (send beat_codecs seq_coordinator absent toy_parse
          (deliver beat_codecs seq_coordinator absent)
          seq_client
          unseen
          (heartbeat_signal signed_beat)).0
        (beat_visit ∷ []))
      (heartbeat_signal signed_beat)).1
    ≢ none
unfolding cut http_client bytes_equal take_signal verify_sig ed25519_verify Liveness.verify
    Liveness.canonical_bytes Canon.new Canon.string Canon.uint64 Canon.time Canon.sum valid_time
    put_uvarint put_uint64 unix_nano to_u64 to_i64 pad Client.heartbeat handler
stale_signal_refused_example =
    stale_signal_refused beat_codecs seq_coordinator absent toy_parse
      (deliver beat_codecs seq_coordinator absent) seq_client refl (toy [])
      (seq_book-SeqContract (toy []) (pad 32 alice) declaration) unseen
      (heartbeat_signal signed_beat) (heartbeat_signal signed_beat) (beat_visit ∷ []) beat-Sendable
      beat-Sendable refl refl refl (omega arith)
