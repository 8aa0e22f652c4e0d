-- ===== src/Transport/Client.antt =====
-- `transport/httpjson/client.go`: a coordinator that talks to an endpoint. What `http.Client.Do` does
-- is a parameter: it takes the state of the world behind the network to the state after the exchange.
use sohocloud_protocol.Prelude.{
  ℕ, Option, none, some, inl, inr, List, [], ◌++◌, if◌then◌else◌, ◌⊎◌, ltb, leb, ◌||◌, take,
}
use sohocloud_protocol.Prelude.Bytes.{codes}
use sohocloud_protocol.Golang.Url.{query_escape}
use sohocloud_protocol.Golang.Decimal.{decimal}
use sohocloud_protocol.Identity.{NodeId}
use sohocloud_protocol.Coordinator.{Coordinator, Error}
use sohocloud_protocol.Listing.{CapabilityListing}
use sohocloud_protocol.Liveness.{Heartbeat}
use sohocloud_protocol.Employment.Assignment.{Assignment}
use sohocloud_protocol.Employment.Decline.{Decline}
use sohocloud_protocol.Employment.JobReport.{JobReport}
use sohocloud_protocol.Fees.{FeeDeclaration}
use mathlib.Core.Option
use sohocloud_protocol.Transport.{
  Request, Response, Json, ParseUrl, Codecs, method_get, method_post,
}

-- An error of a callee by its text, or the error that `do` formats out of these parts: the method,
-- the path, the status and at most 4096 bytes of the body.
pub data ClientError : Type 0 where
  passed_on : Error → ClientError
  status_error : List ℕ → List ℕ → ℕ → List ℕ → ClientError

-- The text of `Error()`.
unfoldable pub error_text : ClientError → Error
error_text (passed_on err) = err
error_text (status_error method path status msg) =
    codes "sohocloud: "
    ++ method
    ++ codes " "
    ++ path
    ++ codes ": status "
    ++ decimal status
    ++ codes ": "
    ++ msg

abbrev pub Network : Type 0 → Type 0
Network W = W → Request → W × (Response ⊎ Error)

-- `HTTP` is optional.
pub record Client (W : Type 0) : Type 0 where
  pub base_url : List ℕ
  pub http : Option (Network W)

abbrev or_default : {W : Type 0} → Network W → Option (Network W) → Network W
or_default default_client none = default_client
or_default default_client (some http) = http

-- The first argument is `http.DefaultClient`.
unfoldable pub http_client : {W : Type 0} → Network W → Client W → Network W
http_client default_client c = or_default default_client c.http

unfoldable pub check_status : Request → Response → Option ClientError
check_status req resp =
    if ltb resp.status 200 || leb 300 resp.status
    then some (status_error req.method req.path resp.status (take 4096 resp.body))
    else none

-- The part of `do` behind the exchange, where `out` is nil.
unfoldable pub done : Request → Response ⊎ Error → Option ClientError
unfolding check_status
done req (inl resp) = check_status req resp
done req (inr err) = some (passed_on err)

-- The error of `Decode` as that of `do`.
unfoldable pub decoded : {A : Type 0} → A × Option Error → A × Option ClientError
decoded (v, none) = (v, none)
decoded (v, some err) = (v, some (passed_on err))

unfoldable pub read_out :
    {A : Type 0} → Json A → Response → Option ClientError → A × Option ClientError
unfolding decoded
read_out j resp none = decoded (j.decode resp.body)
read_out j resp (some e) = (j.zero_value, some e)

-- The part of `do` behind the exchange, where `out` points to a zero value.
unfoldable pub done_into :
    {A : Type 0} → Json A → Request → Response ⊎ Error → A × Option ClientError
unfolding check_status read_out
done_into j req (inl resp) = read_out j resp (check_status req resp)
done_into j req (inr err) = (j.zero_value, some (passed_on err))

module _ {W : Type 0} (parse : ParseUrl) (default_client : Network W) (c : Client W) where
  -- The request, or the error, of `http.NewRequestWithContext`.
  unfoldable pub new_request : List ℕ → List ℕ → List ℕ → Request ⊎ Error
  new_request method path body = made (parse (c.base_url ++ path))
    where
      made : (List ℕ × List ℕ) ⊎ Error → Request ⊎ Error
      made (inl (path, query)) =
          inl (record { method = method; path = path; query = query; body = body })
      made (inr err) = inr err

  unfoldable pub do_post : W → Request ⊎ Error → W × Option ClientError
  unfolding done http_client
  do_post w (inr err) = (w, some (passed_on err))
  do_post w (inl req) = let (w', got) = http_client default_client c w req in (w', done req got)

  unfoldable pub post_marshalled : W → List ℕ → List ℕ ⊎ Error → W × Option ClientError
  unfolding do_post new_request
  post_marshalled w path (inr err) = (w, some (passed_on err))
  post_marshalled w path (inl body) = do_post w (new_request method_post path body)

  unfoldable pub post_json : {A : Type 0} → Json A → W → List ℕ → A → W × Option ClientError
  unfolding post_marshalled
  post_json j w path v = post_marshalled w path (j.marshal v)

  unfoldable pub do_get : {A : Type 0} → Json A → W → Request ⊎ Error → W × (A × Option ClientError)
  unfolding done_into http_client
  do_get j w (inr err) = (w, (j.zero_value, some (passed_on err)))
  do_get j w (inl req) =
      let (w', got) = http_client default_client c w req in (w', done_into j req got)

  unfoldable pub get_json : {A : Type 0} → Json A → W → List ℕ → W × (A × Option ClientError)
  unfolding do_get new_request
  get_json j w path = do_get j w (new_request method_get path [])

  module _ (j : Codecs) where
    unfoldable pub submit_listing : W → CapabilityListing → W × Option ClientError
    unfolding post_json
    submit_listing w l = post_json j.listing w (codes "/v0/listing") l

    unfoldable pub heartbeat : W → Heartbeat → W × Option ClientError
    unfolding post_json
    heartbeat w h = post_json j.heartbeat w (codes "/v0/heartbeat") h

    unfoldable pub poll_jobs : W → NodeId → W × (List Assignment × Option ClientError)
    unfolding get_json
    poll_jobs w id = get_json j.assignments w (codes "/v0/jobs?node_id=" ++ query_escape id)

    unfoldable pub decline : W → Decline → W × Option ClientError
    unfolding post_json
    decline w d = post_json j.decline w (codes "/v0/decline") d

    unfoldable pub report_job : W → JobReport → W × Option ClientError
    unfolding post_json
    report_job w r = post_json j.report w (codes "/v0/report") r

    unfoldable pub fees : W → W × (FeeDeclaration × Option ClientError)
    unfolding get_json
    fees w = get_json j.fees w (codes "/v0/fees")

    -- A pointer to a client is a `coordinator.Coordinator`.
    abbrev pub as_coordinator : Coordinator W
    as_coordinator = record {
      submit_listing = λ w l. noticed (submit_listing w l);
      heartbeat = λ w h. noticed (heartbeat w h);
      poll_jobs = λ w id. fetched (poll_jobs w id);
      decline = λ w d. noticed (decline w d);
      report_job = λ w r. noticed (report_job w r);
      fees = λ w. fetched (fees w);
    }
      where
        noticed : W × Option ClientError → W × Option Error
        noticed (w, err) = (w, Option.map error_text err)

        fetched : {A : Type 0} → W × (A × Option ClientError) → W × (A × Option Error)
        fetched (w, (v, err)) = (w, (v, Option.map error_text err))
