-- ===== src/Transport/Relay.antt =====
-- `var _ coordinator.Coordinator = (*Client)(nil)`: a client can stand behind a handler, and another
-- client in front of that, to any depth.
use sohocloud_protocol.Prelude.{ℕ, ◌≡◌, inl, List, [], ◌++◌}
use sohocloud_protocol.Prelude.Bytes.{codes, IsBytes}
use sohocloud_protocol.Golang.Url.{query_escape}
use sohocloud_protocol.Coordinator.{Coordinator}
use sohocloud_protocol.Transport.{ParseUrl, Codecs, method_get, method_post}
use sohocloud_protocol.Transport.Server.{Handle}
use sohocloud_protocol.Transport.Client
use sohocloud_protocol.Transport.Client.{Client, http_client, Network, as_coordinator, error_text}
use sohocloud_protocol.Transport.Routes.{Route, route_path, fees_route}
use sohocloud_protocol.Transport.Exchange.{
  Notice, listing_notice, heartbeat_notice, decline_notice, report_notice, notice_route,
  client_notice, coordinator_notice, NoticeCarries,
}
use sohocloud_protocol.Transport.EndToEnd.{
  deliver, notice_delivered, poll_jobs_delivered, fees_delivered,
}
use mathlib.Core.Option
use sohocloud_protocol.Transport.Agreement.{
  AnswerCarries-kept_answer, SameNotice, Agrees, SameNotice-reported, SameAnswer-fetched,
  Agrees-trans,
}

-- The client's URLs parse to the path and the query that the methods put behind the root.
pub record Routed (parse : ParseUrl) (base_url : List ℕ) : Type 0 where
  pub plain : (k : Route) → parse (base_url ++ route_path k) ≡ inl (route_path k, [])
  pub named :
      (id : List ℕ)
      → IsBytes id
      → parse (base_url ++ (codes "/v0/jobs?node_id=" ++ query_escape id))
        ≡ inl (codes "/v0/jobs", codes "node_id=" ++ query_escape id)

module _ {S : Type 0} (j : Codecs) where
  module _ (far : Coordinator S) (other : Handle S) (parse : ParseUrl) (default_client : Network S)
      (client : Client S) (delivers : http_client default_client client ≡ deliver j far other)
      (routed : Routed parse client.base_url) where
    sent :
        (s : S) (n : Notice)
        → NoticeCarries j n
        → SameNotice
            (
              (client_notice parse default_client client j s n).0,
              Option.map error_text (client_notice parse default_client client j s n).1,
            )
            (coordinator_notice far s n)
    sent s n h =
        SameNotice-reported (client_notice parse default_client client j s n)
          (coordinator_notice far s n) method_post (route_path (notice_route n))
          (notice_delivered j far other parse default_client client delivers s n n
            (routed.plain (notice_route n)) h)

    SameNotice-client :
        (s : S) (n : Notice)
        → NoticeCarries j n
        → SameNotice
            (coordinator_notice (as_coordinator parse default_client client j) s n)
            (coordinator_notice far s n)
    SameNotice-client s (listing_notice l) h = sent s (listing_notice l) h
    SameNotice-client s (heartbeat_notice b) h = sent s (heartbeat_notice b) h
    SameNotice-client s (decline_notice d) h = sent s (decline_notice d) h
    SameNotice-client s (report_notice r) h = sent s (report_notice r) h

    client-Agrees : Agrees j (as_coordinator parse default_client client j) far
    client-Agrees = record {
      same_notices = SameNotice-client;
      same_jobs = λ s id b d h.
          SameAnswer-fetched j.assignments (Client.poll_jobs parse default_client client j s id)
            (far.poll_jobs s id) method_get (codes "/v0/jobs")
            (poll_jobs_delivered j far other parse default_client client delivers s id _ b d
              (routed.named id b) (AnswerCarries-kept_answer j.assignments _ h));
      same_fees = λ s h.
          SameAnswer-fetched j.fees (Client.fees parse default_client client j s) (far.fees s)
            method_get (codes "/v0/fees")
            (fees_delivered j far other parse default_client client delivers s _
              (routed.plain fees_route) (AnswerCarries-kept_answer j.fees _ h));
    }

-- A client whose HTTP client, its own or the default one, hands every request to the handler of a
-- coordinator.
pub record Hop {S : Type 0} (j : Codecs) (far : Coordinator S) : Type 0 where
  pub other : Handle S
  pub parse : ParseUrl
  pub default_client : Network S
  pub client : Client S
  pub delivers : http_client default_client client ≡ deliver j far other
  pub routed : Routed parse client.base_url

module _ {S : Type 0} (j : Codecs) (far : Coordinator S) where
  abbrev pub relay : (k : Coordinator S) → Hop j k → Coordinator S
  relay k hop = as_coordinator hop.parse hop.default_client hop.client j

  -- The clients that reach a coordinator: through its handler, or through the handler of a client that
  -- reaches it.
  pub data Reaches : Coordinator S → Type 0 where
    direct : (hop : Hop j far) → Reaches (relay far hop)
    through : {k : Coordinator S} → Reaches k → (hop : Hop j k) → Reaches (relay k hop)

  relay-Agrees : (k : Coordinator S) (hop : Hop j k) → Agrees j (relay k hop) k
  relay-Agrees k hop =
      client-Agrees j k hop.other hop.parse hop.default_client hop.client hop.delivers hop.routed

  -- A client that reaches a coordinator, be it through handlers of any number of other clients, does
  -- what the coordinator does: the same state behind every operation, an error exactly where the
  -- coordinator returns one, the same jobs and the same fees without an error, and their zero values
  -- with one. JSON carries what is sent and what the coordinator returns, and the node whose jobs are
  -- asked for has a nonempty identifier.
  pub Reaches-Agrees : {near : Coordinator S} → Reaches near → Agrees j near far
  Reaches-Agrees (direct hop) = relay-Agrees far hop
  Reaches-Agrees (through {k} path hop) =
      Agrees-trans j (relay k hop) k far (relay-Agrees k hop) (Reaches-Agrees path)
