-- ===== src/Examples/Relays.antt =====
-- Two clients, one behind the handler of the other.
use sohocloud_protocol.Prelude.{◌≡◌, refl, none, inl, [], ◌++◌}
use sohocloud_protocol.Prelude.Bytes.{codes}
use sohocloud_protocol.Golang.Url.{cut}
use sohocloud_protocol.Golang.Decimal.{decimal}
use sohocloud_protocol.Coordinator.{Coordinator}
use sohocloud_protocol.Transport.Client.{http_client, status_error, error_text}
use sohocloud_protocol.Transport.Routes.{
  Route, route_path, listing_route, heartbeat_route, decline_route, report_route, jobs_route,
  fees_route,
}
use sohocloud_protocol.Transport.EndToEnd.{deliver}
use sohocloud_protocol.Transport.Relay.{Hop, Routed, direct, through, relay, Reaches-Agrees}
use sohocloud_protocol.Transport.Agreement.{Agrees}
use sohocloud_protocol.Examples.Transport.{Log, toy_codecs, toy_coordinator, toy_parse, not_found}

error_printed :
    error_text (status_error (codes "POST") (codes "/v0/decline") 500 (codes "unknown job"))
    ≡ codes "sohocloud: POST /v0/decline: status 500: unknown job"
unfolding error_text decimal
error_printed = refl

toy-Routed : Routed toy_parse (codes "http://c")
unfolding cut
toy-Routed = record { plain = plain; named = λ id b. refl }
  where
    plain : (k : Route) → toy_parse (codes "http://c" ++ route_path k) ≡ inl (route_path k, [])
    plain listing_route = refl
    plain heartbeat_route = refl
    plain decline_route = refl
    plain report_route = refl
    plain jobs_route = refl
    plain fees_route = refl

-- A client over the handler of any coordinator.
abbrev hop : (k : Coordinator Log) → Hop toy_codecs k
unfolding http_client
hop k = record {
  other = not_found;
  parse = toy_parse;
  default_client = deliver toy_codecs k not_found;
  client = record { base_url = codes "http://c"; http = none };
  delivers = refl;
  routed = toy-Routed;
}

-- The second client stands before the handler of the first.
abbrev second : Coordinator Log
second = relay toy_codecs toy_coordinator toy_coordinator (hop toy_coordinator)

Reaches-Agrees_example :
    Agrees toy_codecs (relay toy_codecs toy_coordinator second (hop second)) toy_coordinator
Reaches-Agrees_example =
    Reaches-Agrees toy_codecs toy_coordinator (through (direct (hop toy_coordinator)) (hop second))
