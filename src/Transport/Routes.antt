-- ===== src/Transport/Routes.antt =====
-- The handler's answers on its routes.
use sohocloud_protocol.Prelude.{
  ℕ, ap, ◌++◌, ◌≡◌, ◌≢◌, refl, Option, none, some, inl, inr, List, [], arith, Bool-cases, ◌⊎◌,
}
use sohocloud_protocol.Prelude.Bytes.{codes, bytes_equal, bytes_equal_iff}
use sohocloud_protocol.Golang.Url.{query_get}
use sohocloud_protocol.Coordinator.{Coordinator, Error}
use sohocloud_protocol.Listing.{CapabilityListing}
use sohocloud_protocol.Liveness.{Heartbeat}
use sohocloud_protocol.Employment.Decline.{Decline}
use sohocloud_protocol.Employment.JobReport.{JobReport}
use sohocloud_protocol.Transport.{
  Request, Response, Json, Codecs, http_error, method_get, method_post, newline,
}
use sohocloud_protocol.Transport.Server.{
  Handle, method_not_allowed, reply, forward, post, answer, jobs, fees, handler, write_json,
}

pub data Route : Type 0 where
  listing_route heartbeat_route decline_route report_route jobs_route fees_route : Route

abbrev pub route_path : Route → List ℕ
route_path listing_route = codes "/v0/listing"
route_path heartbeat_route = codes "/v0/heartbeat"
route_path decline_route = codes "/v0/decline"
route_path report_route = codes "/v0/report"
route_path jobs_route = codes "/v0/jobs"
route_path fees_route = codes "/v0/fees"

abbrev pub route_method : Route → List ℕ
route_method listing_route = method_post
route_method heartbeat_route = method_post
route_method decline_route = method_post
route_method report_route = method_post
route_method jobs_route = method_get
route_method fees_route = method_get

module _ {S : Type 0} (j : Codecs) (c : Coordinator S) (other : Handle S) (s : S)
    (r : Request) where
  -- What serves a route.
  abbrev pub serve : Route → S × Response
  serve listing_route = post j.listing c.submit_listing s r
  serve heartbeat_route = post j.heartbeat c.heartbeat s r
  serve decline_route = post j.decline c.decline s r
  serve report_route = post j.report c.report_job s r
  serve jobs_route = jobs j c s r
  serve fees_route = fees j c s r

  pub handler-route : (k : Route) → r.path ≡ route_path k → handler j c other s r ≡ serve k
  unfolding handler bytes_equal
  handler-route listing_route e = rw e refl
  handler-route heartbeat_route e = rw e refl
  handler-route decline_route e = rw e refl
  handler-route report_route e = rw e refl
  handler-route jobs_route e = rw e refl
  handler-route fees_route e = rw e refl

-- What the response to a notice says of the coordinator's error.
abbrev pub notice_response : Option Error → Response
notice_response none = record { status = 204; content_type = []; body = [] }
notice_response (some err) = http_error err 500

-- The JSON of a value and a newline, or nothing where it has none.
abbrev pub json_text : List ℕ ⊎ Error → List ℕ
json_text (inl text) = text ++ newline
json_text (inr err) = []

-- What the response to a question says of the coordinator's value and error.
abbrev pub value_response : {A : Type 0} → Json A → A × Option Error → Response
value_response j (v, none) = record {
  status = 200;
  content_type = codes "application/json";
  body = json_text (j.marshal v);
}
value_response j (v, some err) = http_error err 500

-- How a request is served by what a route reads off it: with another method than the route's it is
-- refused with 405, and where it does not read with 400 and a text, and either leaves the state as it
-- was; else the coordinator performs what was read.
pub data Served {S P : Type 0} (method : List ℕ) (Reads : P → Type 0) (Unreadable : List ℕ → Type 0)
    (perform : P → S × Response) (s : S) (r : Request) (got : S × Response) : Type 0 where
  wrong_method :
      r.method ≢ method
      → got ≡ (s, http_error (codes "method not allowed") 405)
      → Served method Reads Unreadable perform s r got
  unreadable :
      (text : List ℕ)
      → r.method ≡ method
      → Unreadable text
      → got ≡ (s, http_error text 400)
      → Served method Reads Unreadable perform s r got
  called :
      (v : P)
      → r.method ≡ method
      → Reads v
      → got ≡ perform v
      → Served method Reads Unreadable perform s r got

-- What a route reads off a request.
abbrev pub Payload : Route → Type 0
Payload listing_route = CapabilityListing
Payload heartbeat_route = Heartbeat
Payload decline_route = Decline
Payload report_route = JobReport
Payload jobs_route = List ℕ
Payload fees_route = Unit {0}

-- The body does not decode.
abbrev pub BadJson : {A : Type 0} → Json A → List ℕ → List ℕ → Type 0
BadJson {A} j body text =
    (v : A) × (err : Error) × (j.decode body ≡ (v, some err)) × (text ≡ codes "bad json: " ++ err)

module _ (j : Codecs) (r : Request) where
  abbrev pub Reads : (k : Route) → Payload k → Type 0
  Reads listing_route l = j.listing.decode r.body ≡ (l, none)
  Reads heartbeat_route h = j.heartbeat.decode r.body ≡ (h, none)
  Reads decline_route d = j.decline.decode r.body ≡ (d, none)
  Reads report_route o = j.report.decode r.body ≡ (o, none)
  Reads jobs_route id = (id ≢ []) × (query_get r.query (codes "node_id") ≡ id)
  Reads fees_route _ = Unit {0}

  abbrev pub Unreadable : Route → List ℕ → Type 0
  Unreadable listing_route text = BadJson j.listing r.body text
  Unreadable heartbeat_route text = BadJson j.heartbeat r.body text
  Unreadable decline_route text = BadJson j.decline r.body text
  Unreadable report_route text = BadJson j.report r.body text
  Unreadable jobs_route text =
      (query_get r.query (codes "node_id") ≡ []) × (text ≡ codes "missing node_id")
  Unreadable fees_route text = ⊥

module _ {S : Type 0} (j : Codecs) (c : Coordinator S) (s : S) where
  -- The one call of the coordinator, and the response to what it returns.
  abbrev pub perform : (k : Route) → Payload k → S × Response
  perform listing_route l = ((c.submit_listing s l).0, notice_response (c.submit_listing s l).1)
  perform heartbeat_route h = ((c.heartbeat s h).0, notice_response (c.heartbeat s h).1)
  perform decline_route d = ((c.decline s d).0, notice_response (c.decline s d).1)
  perform report_route o = ((c.report_job s o).0, notice_response (c.report_job s o).1)
  perform jobs_route id = ((c.poll_jobs s id).0, value_response j.assignments (c.poll_jobs s id).1)
  perform fees_route _ = ((c.fees s).0, value_response j.fees (c.fees s).1)

  abbrev pub Outcome : Route → Request → S × Response → Type 0
  Outcome k r got = Served (route_method k) (Reads j r k) (Unreadable j r k) (perform k) s r got

reply_eq : (err : Option Error) → reply err ≡ notice_response err
unfolding reply
reply_eq none = refl
reply_eq (some err) = refl

marshal-cases :
    {A : Type 0} (x : A ⊎ Error) → ((a : A) × (x ≡ inl a)) ⊎ ((err : Error) × (x ≡ inr err))
marshal-cases (inl a) = inl (a, refl)
marshal-cases (inr err) = inr (err, refl)

answer_eq : {A : Type 0} (j : Json A) (out : A × Option Error) → answer j out ≡ value_response j out
unfolding answer write_json
answer_eq j (v, none) = elim (marshal-cases (j.marshal v)) [
  | inl (text, e) ↦ rw e refl
  | inr (err, e) ↦ rw e refl
]
answer_eq j (v, some err) = refl

module _ {S A : Type 0} (j : Json A) (call : S → A → S × Option Error) (s : S) (r : Request) where
  abbrev Posted : S × Response → Type 0
  Posted got =
      Served method_post (λ v. j.decode r.body ≡ (v, none)) (BadJson j r.body)
        (λ v. ((call s v).0, notice_response (call s v).1)) s r got

  forward-Posted :
      (d : A × Option Error)
      → r.method ≡ method_post
      → j.decode r.body ≡ d
      → Posted (forward call s d)
  unfolding forward
  forward-Posted (v, none) m e = called v m e (ap (λ x. ((call s v).0, x)) (reply_eq (call s v).1))
  forward-Posted (v, some err) m e = unreadable _ m (v, err, e, refl) refl

  post-Posted : Posted (post j call s r)
  unfolding post method_not_allowed
  post-Posted = elim (Bool-cases (bytes_equal r.method method_post)) [
    | inl e ↦
        rw e (forward-Posted (j.decode r.body) ((bytes_equal_iff r.method method_post).0 e) refl)
    | inr e ↦ rw e (wrong_method (ground (arith, bytes_equal_iff r.method method_post)) refl)
  ]

module _ {S : Type 0} (j : Codecs) (c : Coordinator S) (other : Handle S) (s : S)
    (r : Request) where
  serve-Outcome : (k : Route) → Outcome j c s k r (serve j c other s r k)
  unfolding jobs fees method_not_allowed
  serve-Outcome listing_route = post-Posted j.listing c.submit_listing s r
  serve-Outcome heartbeat_route = post-Posted j.heartbeat c.heartbeat s r
  serve-Outcome decline_route = post-Posted j.decline c.decline s r
  serve-Outcome report_route = post-Posted j.report c.report_job s r
  serve-Outcome jobs_route = elim (Bool-cases (bytes_equal r.method method_get)) [
    | inl e ↦
        let m = (bytes_equal_iff r.method method_get).0 e in
        let id = query_get r.query (codes "node_id") in
        elim (Bool-cases (bytes_equal id [])) [
          | inl f ↦
              rw (e, f)
                (unreadable (codes "missing node_id") m ((bytes_equal_iff id []).0 f, refl) refl)
          | inr f ↦
              rw (e, f)
                (called id m (ground (arith, bytes_equal_iff id []), refl)
                  (ap (λ x. ((c.poll_jobs s id).0, x))
                    (answer_eq j.assignments (c.poll_jobs s id).1)))
        ]
    | inr e ↦ rw e (wrong_method (ground (arith, bytes_equal_iff r.method method_get)) refl)
  ]
  serve-Outcome fees_route = elim (Bool-cases (bytes_equal r.method method_get)) [
    | inl e ↦ rw e (
        called tt ((bytes_equal_iff r.method method_get).0 e) tt
          (ap (λ x. ((c.fees s).0, x)) (answer_eq j.fees (c.fees s).1)))
    | inr e ↦ rw e (wrong_method (ground (arith, bytes_equal_iff r.method method_get)) refl)
  ]

  -- A request for one of the six paths with another method than the path's, POST for a listing, a
  -- heartbeat, a decline or a report and GET for jobs or fees, gets 405 and "method not allowed". With
  -- the path's method, a body that does not decode gets 400 and "bad json: " with the decoder's error,
  -- and a query for jobs without a node_id 400 and "missing node_id". These leave the coordinator's
  -- state as it was. Every other request is one call of the path's operation with the message that the
  -- body decodes to or the node that the query names, answered with 204, with 200 and the JSON of the
  -- value, or with 500 and the text of the coordinator's error.
  pub handler-Outcome :
      (k : Route) → r.path ≡ route_path k → Outcome j c s k r (handler j c other s r)
  handler-Outcome k e = rw (handler-route j c other s r k e) (serve-Outcome k)
