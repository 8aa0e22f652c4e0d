-- ===== src/Transport/Replay.antt =====
-- Replays against the handler of a coordinator that keeps its promise on Seq.
use sohocloud_protocol.Prelude.{
  ℕ, ◌≡◌, ◌≢◌, ◌≤◌, ◌∙◌, refl, sym, ap, Option, none, some, inl, List, [], ◌∷◌, ◌++◌, arith,
}
use sohocloud_protocol.Golang.Ed25519.{Ed25519}
use sohocloud_protocol.Coordinator.{Coordinator, Error}
use sohocloud_protocol.Coordinator.SeqContract.{
  SeqContract, Series, Signal, listing_signal, heartbeat_signal, series, signal_node, signal_seq,
  submit,
}
use sohocloud_protocol.Transport.{Request, Response, ParseUrl, Codecs, method_post}
use sohocloud_protocol.Transport.Server.{Handle, handler}
use sohocloud_protocol.Transport.Client.{Client, Network, ClientError, http_client}
use sohocloud_protocol.Transport.Routes.{
  Route, route_path, Payload, perform, Outcome, wrong_method, unreadable, called, handler-Outcome,
  listing_route, heartbeat_route, decline_route, report_route, jobs_route, fees_route,
}
use sohocloud_protocol.Transport.Exchange.{
  Notice, listing_notice, heartbeat_notice, notice_route, client_notice, NoticeBecomes,
  coordinator_notice, reported as reported_error,
}
use sohocloud_protocol.Transport.EndToEnd.{deliver, notice_delivered}

-- A request of anyone for one of the handler's paths, with whatever method, query and body.
pub record Visit : Type 0 where
  pub request : Request
  pub route : Route
  pub aimed : request.path ≡ route_path route

abbrev pub notice : Signal → Notice
notice (listing_signal l) = listing_notice l
notice (heartbeat_signal h) = heartbeat_notice h

module _ {S : Type 0} (j : Codecs) (k : Coordinator S) (other : Handle S) where
  -- The state behind a sequence of requests.
  abbrev pub visited : S → List Visit → S
  visited s [] = s
  visited s (v ∷ vs) = visited (handler j k other s v.request).0 vs

  module _ (c : Ed25519) (h : SeqContract c k) where
    performed-floor :
        (s : S) (k' : Route) (v : Payload k') (q : Series) (node : List ℕ)
        → h.floor s q node ≤ h.floor (perform j k s k' v).0 q node
    performed-floor s listing_route l = h.submit_keeps s (listing_signal l)
    performed-floor s heartbeat_route b = h.submit_keeps s (heartbeat_signal b)
    performed-floor s decline_route d = h.decline_keeps s d
    performed-floor s report_route o = h.report_keeps s o
    performed-floor s jobs_route id = h.poll_keeps s id
    performed-floor s fees_route _ = h.fees_keeps s

    Outcome-floor :
        (s : S) (route : Route) (r : Request) (got : S × Response) (q : Series) (node : List ℕ)
        → Outcome j k s route r got
        → h.floor s q node ≤ h.floor got.0 q node
    Outcome-floor s route r got q node (wrong_method _ e) = rw e (omega arith)
    Outcome-floor s route r got q node (unreadable _ _ _ e) = rw e (omega arith)
    Outcome-floor s route r got q node (called v _ _ e) = rw e (performed-floor s route v q node)

    visited-floor :
        (s : S) (vs : List Visit) (q : Series) (node : List ℕ)
        → h.floor s q node ≤ h.floor (visited s vs) q node
    visited-floor s [] q node = omega arith
    visited-floor s (v ∷ vs) q node =
        let one =
          Outcome-floor s v.route v.request (handler j k other s v.request) q node
            (handler-Outcome j k other s v.request v.route v.aimed) in
        let rest = visited-floor (handler j k other s v.request).0 vs q node in
        omega (arith, one, rest)

reported_none :
    (method path : List ℕ) (err : Option Error) → reported_error method path err ≡ none → err ≡ none
reported_none method path none e = refl
reported_none method path (some err) e = cc

module _ {S : Type 0} (j : Codecs) (k : Coordinator S) (other : Handle S) (parse : ParseUrl)
    (default_client : Network S) (client : Client S) where
  -- The client can send the signal: its URL parses to the route's path, and JSON makes of it a signal
  -- of the same series, node and Seq.
  pub record Sendable (g : Signal) : Type 0 where
    pub arrives : Signal
    pub routed :
        parse (client.base_url ++ route_path (notice_route (notice g)))
        ≡ inl (route_path (notice_route (notice g)), [])
    pub becomes : NoticeBecomes j (notice g) (notice arrives)
    pub same_series : series arrives ≡ series g
    pub same_node : signal_node arrives ≡ signal_node g
    pub same_seq : signal_seq arrives ≡ signal_seq g

  -- The client's method for the signal.
  abbrev pub send : S → Signal → S × Option ClientError
  send s g = client_notice parse default_client client j s (notice g)

  module _ (delivers : http_client default_client client ≡ deliver j k other) where
    notice-submit : (s : S) (g : Signal) → coordinator_notice k s (notice g) ≡ submit k s g
    notice-submit s (listing_signal l) = refl
    notice-submit s (heartbeat_signal b) = refl

    sent-submit :
        (s : S) (g : Signal) (p : Sendable g)
        → (send s g).1 ≡ none
        → ((submit k s p.arrives).1 ≡ none) × ((send s g).0 ≡ (submit k s p.arrives).0)
    sent-submit s g p e =
        let made =
          notice_delivered j k other parse default_client client delivers s (notice g)
            (notice p.arrives) p.routed p.becomes in
        let same = notice-submit s p.arrives in
        (
          reported_none method_post (route_path (notice_route (notice g))) (submit k s p.arrives).1
              (rw (← same) (sym (ap (λ (o : S × Option ClientError). o.1) made) ∙ e)),
          ap (λ (o : S × Option ClientError). o.0) made ∙ ap (λ (o : S × Option Error). o.0) same,
        )

    -- A listing or a heartbeat for which the client got nil from a coordinator that keeps its promise
    -- on Seq is never taken again: behind any sequence of requests for the handler's paths, by anyone
    -- and with any method, query and body, the client gets an error for it, and for every listing, or
    -- heartbeat, of that node whose Seq is not above it. The client's HTTP client, its own or the
    -- default one, hands every request to the handler, and it can send the two messages: the URL
    -- parses to the route's path, and what JSON makes of them is of the same kind, node and Seq.
    pub stale_signal_refused :
        (c : Ed25519)
        → SeqContract c k
        → (s : S) (g g' : Signal) (visits : List Visit) → Sendable g
        → Sendable g'
        → (send s g).1 ≡ none
        → series g' ≡ series g
        → signal_node g' ≡ signal_node g
        → signal_seq g' ≤ signal_seq g
        → (send (visited j k other (send s g).0 visits) g').1 ≢ none
    stale_signal_refused c h s g g' visits p p' e q n stale again =
        let a = p.arrives in
        let a' = p'.arrives in
        let (taken, state) = sent-submit s g p e in
        let first = (h.above s a taken).1 in
        let later =
          visited-floor j k other c h (submit k s a).0 visits (series a) (signal_node a) in
        let behind = visited j k other (send s g).0 visits in
        let second = (h.above behind a' (sent-submit behind g' p' again).0).0 in
        let same : h.floor behind (series a') (signal_node a')
            ≡ h.floor (visited j k other (submit k s a).0 visits) (series a) (signal_node a) =
          ap (λ x. h.floor behind x (signal_node a')) (p'.same_series ∙ q ∙ sym p.same_series)
          ∙ ap (λ x. h.floor behind (series a) x) (p'.same_node ∙ n ∙ sym p.same_node)
          ∙ ap (λ u. h.floor (visited j k other u visits) (series a) (signal_node a)) state in
        omega (arith, same, first, later, second, stale, p.same_seq, p'.same_seq)
