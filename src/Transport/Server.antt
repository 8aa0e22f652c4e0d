-- ===== src/Transport/Server.antt =====
-- `transport/httpjson/server.go`: the handler in front of a coordinator. A handler takes the
-- coordinator's state and a request to the state behind it and the response.
use sohocloud_protocol.Prelude.{ℕ, Option, none, some, inl, inr, List, [], ◌++◌, if◌then◌else◌, ◌⊎◌}
use sohocloud_protocol.Prelude.Bytes.{codes, bytes_equal}
use sohocloud_protocol.Golang.Url.{query_get}
use sohocloud_protocol.Coordinator.{Coordinator, Error}
use sohocloud_protocol.Transport.{
  Request, Response, Json, Codecs, http_error, method_get, method_post, newline,
}

abbrev pub Handle : Type 0 → Type 0
Handle S = S → Request → S × Response

unfoldable pub method_not_allowed : Response
unfolding http_error
method_not_allowed = http_error (codes "method not allowed") 405

unfoldable pub fail : Error → Response
unfolding http_error
fail err = http_error err 500

-- `Encode` writes the value and a newline, or nothing where it fails; the status is 200 either way.
unfoldable pub write_json : {A : Type 0} → Json A → A → Response
write_json j v = record {
  status = 200;
  content_type = codes "application/json";
  body = encoded (j.marshal v);
}
  where
    encoded : List ℕ ⊎ Error → List ℕ
    encoded (inl text) = text ++ newline
    encoded (inr e) = []

abbrev pub no_content : Response
no_content = record { status = 204; content_type = []; body = [] }

-- `if err := call(...); err != nil { fail(w, err); return }; w.WriteHeader(http.StatusNoContent)`
unfoldable pub reply : Option Error → Response
unfolding fail
reply none = no_content
reply (some err) = fail err

-- `decode(w, r, &v)` and what follows it.
unfoldable pub forward :
    {S A : Type 0} → (S → A → S × Option Error) → S → A × Option Error → S × Response
unfolding http_error reply
forward call s (v, none) = let (s', err) = call s v in (s', reply err)
forward call s (v, some err) = (s, http_error (codes "bad json: " ++ err) 400)

unfoldable pub post : {S A : Type 0} → Json A → (S → A → S × Option Error) → Handle S
unfolding forward method_not_allowed
post j call s r =
    if bytes_equal r.method method_post
    then forward call s (j.decode r.body)
    else (s, method_not_allowed)

-- `if err != nil { fail(w, err); return }; writeJSON(w, out)`
unfoldable pub answer : {A : Type 0} → Json A → A × Option Error → Response
unfolding fail write_json
answer j (out, none) = write_json j out
answer j (out, some err) = fail err

unfoldable pub jobs : {S : Type 0} → Codecs → Coordinator S → Handle S
unfolding method_not_allowed http_error answer
jobs j c s r =
    if bytes_equal r.method method_get
    then (let id = query_get r.query (codes "node_id") in
        if bytes_equal id []
        then (s, http_error (codes "missing node_id") 400)
        else (let (s', out) = c.poll_jobs s id in (s', answer j.assignments out)))
    else (s, method_not_allowed)

unfoldable pub fees : {S : Type 0} → Codecs → Coordinator S → Handle S
unfolding method_not_allowed answer
fees j c s r =
    if bytes_equal r.method method_get
    then (let (s', out) = c.fees s in (s', answer j.fees out))
    else (s, method_not_allowed)

-- The mux, on a path that is one of its patterns. `other` is what it does with any other path.
unfoldable pub handler : {S : Type 0} → Codecs → Coordinator S → Handle S → Handle S
unfolding post jobs fees
handler j c other s r =
    if bytes_equal r.path (codes "/v0/listing")
    then post j.listing c.submit_listing s r
    else if bytes_equal r.path (codes "/v0/heartbeat")
    then post j.heartbeat c.heartbeat s r
    else if bytes_equal r.path (codes "/v0/decline")
    then post j.decline c.decline s r
    else if bytes_equal r.path (codes "/v0/report")
    then post j.report c.report_job s r
    else if bytes_equal r.path (codes "/v0/jobs")
    then jobs j c s r
    else if bytes_equal r.path (codes "/v0/fees")
    then fees j c s r
    else other s r
