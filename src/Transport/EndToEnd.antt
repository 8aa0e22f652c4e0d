-- ===== src/Transport/EndToEnd.antt =====
-- The client over a network that hands every request to the handler of one coordinator.
use sohocloud_protocol.Prelude.{
  ℕ, ◌≡◌, ◌≢◌, ◌∙◌, refl, ap, false, Option, none, some, inl, List, [], ◌++◌, arith,
}
use sohocloud_protocol.Prelude.Bytes.{codes, bytes_equal, bytes_equal_iff, IsBytes}
use sohocloud_protocol.Golang.Url.{query_escape}
use sohocloud_protocol.Golang.Url.RoundTrip.{get-escape}
use sohocloud_protocol.Coordinator.{Coordinator, Error}
use sohocloud_protocol.Employment.Assignment.{Assignment}
use sohocloud_protocol.Fees.{FeeDeclaration}
use sohocloud_protocol.Transport.{
  Request, Json, ParseUrl, Codecs, http_error, method_get, method_post, newline,
}
use sohocloud_protocol.Transport.Server
use sohocloud_protocol.Transport.Server.{Handle, handler, reply, forward, post, answer}
use sohocloud_protocol.Transport.Client
use sohocloud_protocol.Transport.Client.{
  Client, ClientError, http_client, Network, status_error, check_status, read_out, done_into,
  do_get, post_marshalled, new_request, do_post, post_json, get_json,
}
use sohocloud_protocol.Transport.Routes.{
  Route, listing_route, heartbeat_route, decline_route, report_route, jobs_route, fees_route,
  route_path, serve, handler-route,
}
use sohocloud_protocol.Transport.Exchange.{
  Notice, notice_route, client_notice, coordinator_notice, Becomes, NoticeBecomes, listing_becomes,
  heartbeat_becomes, decline_becomes, report_becomes, reported, fetched, AnswerBecomes, done-reply,
  done_into-answer,
}

ne_test : (l : List ℕ) → l ≢ [] → bytes_equal l [] ≡ false
ne_test l d = ground (arith, bytes_equal_iff l [])

posted : Route → List ℕ → Request
posted k text = record { method = method_post; path = route_path k; query = []; body = text }

abbrev pub asked : Route → List ℕ → Request
asked k query = record { method = method_get; path = route_path k; query = query; body = [] }

module _ {S : Type 0} (j : Codecs) (c : Coordinator S) (other : Handle S) where
  -- Every request reaches the handler, and its response the client.
  abbrev pub deliver : Network S
  deliver s r = let (s', resp) = handler j c other s r in (s', inl resp)

  module _ (parse : ParseUrl) (default_client : Network S) (client : Client S)
      (delivers : http_client default_client client ≡ deliver) where
    handled_post :
        {A : Type 0} (js : Json A) (call : S → A → S × Option Error) (k : Route) (s : S) (v' : A)
        (text : List ℕ)
        → ((r : Request) → serve j c other s r k ≡ post js call s r)
        → js.decode text ≡ (v', none)
        → handler j c other s (posted k text) ≡ ((call s v').0, reply (call s v').1)
    unfolding posted post forward bytes_equal
    handled_post js call k s v' text e d =
        handler-route j c other s (posted k text) k refl ∙ e (posted k text) ∙ ap (forward call s) d

    delivered_post :
        {A : Type 0} (js : Json A) (call : S → A → S × Option Error) (k : Route) (s : S) (v v' : A)
        → parse (client.base_url ++ route_path k) ≡ inl (route_path k, [])
        → ((r : Request) → serve j c other s r k ≡ post js call s r)
        → Becomes js v v'
        → post_json parse default_client client js s (route_path k) v
          ≡ ((call s v').0, reported method_post (route_path k) (call s v').1)
    unfolding post_json post_marshalled new_request do_post posted
    delivered_post js call k s v v' p e (text, m, d) =
        rw (m, p, delivers, handled_post js call k s v' text e d)
          (ap (λ o. ((call s v').0, o)) (done-reply (posted k text) (call s v').1))

    -- With a client whose HTTP client, its own or the default one, hands every request to the
    -- handler, posting a listing, a heartbeat, a decline or a report is the coordinator's own
    -- operation on what JSON makes of the message: the same state behind it, nil for nil, and for an
    -- error the status 500 with at most 4096 bytes of the error's text. The URL parses to the path
    -- of the route.
    pub notice_delivered :
        (s : S) (n n' : Notice)
        → parse (client.base_url ++ route_path (notice_route n))
          ≡ inl (route_path (notice_route n), [])
        → NoticeBecomes j n n'
        → client_notice parse default_client client j s n ≡ (
          (coordinator_notice c s n').0,
          reported method_post (route_path (notice_route n)) (coordinator_notice c s n').1,
        )
    unfolding Client.submit_listing Client.heartbeat Client.decline Client.report_job
    notice_delivered s _ _ p (listing_becomes {l} {l'} h) =
        delivered_post j.listing c.submit_listing listing_route s l l' p (λ r. refl) h
    notice_delivered s _ _ p (heartbeat_becomes {h} {h'} e) =
        delivered_post j.heartbeat c.heartbeat heartbeat_route s h h' p (λ r. refl) e
    notice_delivered s _ _ p (decline_becomes {d} {d'} h) =
        delivered_post j.decline c.decline decline_route s d d' p (λ r. refl) h
    notice_delivered s _ _ p (report_becomes {r} {r'} h) =
        delivered_post j.report c.report_job report_route s r r' p (λ r. refl) h

    delivered_get :
        {A : Type 0} (ja : Json A) (k : Route) (path query : List ℕ) (s s' : S)
        (out : A × Option Error) (res : A × Option ClientError)
        → parse (client.base_url ++ path) ≡ inl (route_path k, query)
        → handler j c other s (asked k query) ≡ (s', answer ja out)
        → done_into ja (asked k query) (inl (answer ja out)) ≡ res
        → get_json parse default_client client ja s path ≡ (s', res)
    unfolding get_json new_request do_get
    delivered_get ja k path query s s' out res p e h = rw (p, delivers, e) (ap (λ o. (s', o)) h)

    handled_jobs :
        (s : S) (id : List ℕ)
        → IsBytes id
        → id ≢ []
        → handler j c other s (asked jobs_route (codes "node_id=" ++ query_escape id))
          ≡ ((c.poll_jobs s id).0, answer j.assignments (c.poll_jobs s id).1)
    unfolding Server.jobs bytes_equal
    handled_jobs s id b d =
        handler-route j c other s (asked jobs_route (codes "node_id=" ++ query_escape id))
          jobs_route refl
        ∙ rw (get-escape id b, ne_test id d) refl

    -- The state and the response are the coordinator's.
    pub polled_result :
        (s : S) (id : List ℕ) (res : List Assignment × Option ClientError)
        → IsBytes id
        → id ≢ []
        → parse (client.base_url ++ (codes "/v0/jobs?node_id=" ++ query_escape id))
          ≡ inl (codes "/v0/jobs", codes "node_id=" ++ query_escape id)
        → done_into j.assignments
            (asked jobs_route (codes "node_id=" ++ query_escape id))
            (inl (answer j.assignments (c.poll_jobs s id).1))
          ≡ res
        → Client.poll_jobs parse default_client client j s id ≡ ((c.poll_jobs s id).0, res)
    unfolding Client.poll_jobs
    polled_result s id res b d p h =
        delivered_get j.assignments jobs_route (codes "/v0/jobs?node_id=" ++ query_escape id)
          (codes "node_id=" ++ query_escape id) s (c.poll_jobs s id).0 (c.poll_jobs s id).1 res p
          (handled_jobs s id b d) h

    -- With a client whose HTTP client, its own or the default one, hands every request to the
    -- handler, polling for the jobs of a node with a nonempty identifier is the coordinator's own
    -- operation for exactly that identifier, whatever bytes it has: the same state behind it, what
    -- JSON makes of its assignments without an error, and for an error no assignments and the status
    -- 500 with at most 4096 bytes of the error's text. The URL parses to the path and the escaped
    -- query.
    pub poll_jobs_delivered :
        (s : S) (id : List ℕ) (out : List Assignment)
        → IsBytes id
        → id ≢ []
        → parse (client.base_url ++ (codes "/v0/jobs?node_id=" ++ query_escape id))
          ≡ inl (codes "/v0/jobs", codes "node_id=" ++ query_escape id)
        → AnswerBecomes j.assignments (c.poll_jobs s id).1 out
        → Client.poll_jobs parse default_client client j s id
          ≡ ((c.poll_jobs s id).0, fetched method_get (codes "/v0/jobs") out (c.poll_jobs s id).1.1)
    poll_jobs_delivered s id out b d p h = polled_result s id _ b d p (
        done_into-answer j.assignments (asked jobs_route (codes "node_id=" ++ query_escape id))
          (c.poll_jobs s id).1 out h)

    -- With a client whose HTTP client, its own or the default one, hands every request to the handler,
    -- polling for the jobs of a node with an empty identifier gives the status 400 and does not reach
    -- the coordinator, if the URL parses to the path and the query.
    pub poll_jobs_unnamed :
        (s : S)
        → parse (client.base_url ++ codes "/v0/jobs?node_id=")
          ≡ inl (codes "/v0/jobs", codes "node_id=")
        → Client.poll_jobs parse default_client client j s [] ≡ (
          s,
          (
            j.assignments.zero_value,
            some (
                status_error method_get
                  (codes "/v0/jobs")
                  400
                  (codes "missing node_id" ++ newline)),
          ),
        )
    unfolding Client.poll_jobs get_json new_request do_get done_into check_status read_out
        query_escape Server.jobs bytes_equal http_error
    poll_jobs_unnamed s p = rw (
      p,
      delivers,
      handler-route j c other s (asked jobs_route (codes "node_id=")) jobs_route refl,
      get-escape [] tt,
    )

    -- With a client whose HTTP client, its own or the default one, hands every request to the
    -- handler, asking for the fees is the coordinator's own operation: the same state behind it,
    -- what JSON makes of its declaration without an error, and for an error the zero declaration and
    -- the status 500 with at most 4096 bytes of the error's text. The URL parses to the path.
    pub fees_delivered :
        (s : S) (out : FeeDeclaration)
        → parse (client.base_url ++ codes "/v0/fees") ≡ inl (codes "/v0/fees", [])
        → AnswerBecomes j.fees (c.fees s).1 out
        → Client.fees parse default_client client j s
          ≡ ((c.fees s).0, fetched method_get (codes "/v0/fees") out (c.fees s).1.1)
    unfolding Client.fees Server.fees bytes_equal
    fees_delivered s out p h =
        delivered_get j.fees fees_route (codes "/v0/fees") [] s (c.fees s).0 (c.fees s).1 _ p
          (handler-route j c other s (asked fees_route []) fees_route refl)
          (done_into-answer j.fees (asked fees_route []) (c.fees s).1 out h)
