-- ===== src/Transport/Exchange.antt =====
-- One exchange between the client and a coordinator: what is sent, what comes back, and how the
-- client reads the handler's answers.
use sohocloud_protocol.Prelude.{ℕ, ◌≡◌, refl, Option, none, some, inl, List, ◌++◌, take}
use sohocloud_protocol.Coordinator.{Coordinator, Error}
use sohocloud_protocol.Listing.{CapabilityListing}
use sohocloud_protocol.Liveness.{Heartbeat}
use sohocloud_protocol.Employment.Decline.{Decline}
use sohocloud_protocol.Employment.JobReport.{JobReport}
use sohocloud_protocol.Transport.{Request, Json, ParseUrl, Codecs, http_error, newline}
use sohocloud_protocol.Transport.Server.{reply, write_json, fail, answer}
use sohocloud_protocol.Transport.Client
use sohocloud_protocol.Transport.Client.{
  Client, Network, ClientError, status_error, done, check_status, read_out, decoded, done_into,
}
use sohocloud_protocol.Transport.Routes.{
  Route, listing_route, heartbeat_route, decline_route, report_route,
}

-- The four messages that a node posts.
pub data Notice : Type 0 where
  listing_notice : CapabilityListing → Notice
  heartbeat_notice : Heartbeat → Notice
  decline_notice : Decline → Notice
  report_notice : JobReport → Notice

abbrev pub notice_route : Notice → Route
notice_route (listing_notice _) = listing_route
notice_route (heartbeat_notice _) = heartbeat_route
notice_route (decline_notice _) = decline_route
notice_route (report_notice _) = report_route

abbrev pub client_notice :
    {W : Type 0} → ParseUrl → Network W → Client W → Codecs → W → Notice → W × Option ClientError
client_notice parse default_client c j w (listing_notice l) =
    Client.submit_listing parse default_client c j w l
client_notice parse default_client c j w (heartbeat_notice h) =
    Client.heartbeat parse default_client c j w h
client_notice parse default_client c j w (decline_notice d) =
    Client.decline parse default_client c j w d
client_notice parse default_client c j w (report_notice r) =
    Client.report_job parse default_client c j w r

abbrev pub coordinator_notice : {S : Type 0} → Coordinator S → S → Notice → S × Option Error
coordinator_notice c s (listing_notice l) = c.submit_listing s l
coordinator_notice c s (heartbeat_notice h) = c.heartbeat s h
coordinator_notice c s (decline_notice d) = c.decline s d
coordinator_notice c s (report_notice r) = c.report_job s r

-- What `encoding/json` makes of a value: what `Marshal` writes is decoded to it. It may differ from the
-- value, as an instant comes back in another location and without the monotonic reading.
abbrev pub Becomes : {A : Type 0} → Json A → A → A → Type 0
Becomes j v v' = (text : List ℕ) × (j.marshal v ≡ inl text) × (j.decode text ≡ (v', none))

-- The same behind the newline of an encoder.
abbrev pub Returns : {A : Type 0} → Json A → A → A → Type 0
Returns j v v' =
    (text : List ℕ) × (j.marshal v ≡ inl text) × (j.decode (text ++ newline) ≡ (v', none))

pub data NoticeBecomes (j : Codecs) : Notice → Notice → Type 0 where
  listing_becomes :
      {l l' : CapabilityListing}
      → Becomes j.listing l l'
      → NoticeBecomes j (listing_notice l) (listing_notice l')
  heartbeat_becomes :
      {h h' : Heartbeat}
      → Becomes j.heartbeat h h'
      → NoticeBecomes j (heartbeat_notice h) (heartbeat_notice h')
  decline_becomes :
      {d d' : Decline}
      → Becomes j.decline d d'
      → NoticeBecomes j (decline_notice d) (decline_notice d')
  report_becomes :
      {r r' : JobReport}
      → Becomes j.report r r'
      → NoticeBecomes j (report_notice r) (report_notice r')

abbrev pub NoticeCarries : Codecs → Notice → Type 0
NoticeCarries j n = NoticeBecomes j n n

-- The error that the client reports where the coordinator returns one.
abbrev pub reported : List ℕ → List ℕ → Option Error → Option ClientError
reported method path none = none
reported method path (some err) = some (status_error method path 500 (take 4096 (err ++ newline)))

abbrev pub fetched : {A : Type 0} → List ℕ → List ℕ → A → Option Error → A × Option ClientError
fetched method path v' err = (v', reported method path err)

pub done-reply :
    (req : Request) (err : Option Error)
    → done req (inl (reply err)) ≡ reported req.method req.path err
unfolding done check_status reply fail http_error
done-reply req none = refl
done-reply req (some err) = refl

-- What JSON makes of the coordinator's answer. With an error nothing is decoded.
abbrev pub AnswerBecomes : {A : Type 0} → Json A → A × Option Error → A → Type 0
AnswerBecomes j (v, none) v' = Returns j v v'
AnswerBecomes j (v, some err) v' = v' ≡ j.zero_value

abbrev pub AnswerCarries : {A : Type 0} → Json A → A × Option Error → Type 0
AnswerCarries j (v, none) = Returns j v v
AnswerCarries j (v, some err) = Unit {0}

pub done_into-answer :
    {A : Type 0} (ja : Json A) (req : Request) (out : A × Option Error) (v' : A)
    → AnswerBecomes ja out v'
    → done_into ja req (inl (answer ja out)) ≡ fetched req.method req.path v' out.1
unfolding done_into check_status read_out decoded answer write_json fail http_error
done_into-answer ja req (v, none) v' (text, m, d) = rw (m, d) refl
done_into-answer ja req (v, some err) v' h = rw h refl
