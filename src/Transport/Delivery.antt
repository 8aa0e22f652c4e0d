-- ===== src/Transport/Delivery.antt =====
-- Signed messages over the transport: what one end signs, the other end verifies, although JSON brings
-- an instant back in another location and without its monotonic reading.
use sohocloud_protocol.Prelude.{
  ℕ, ◌≡◌, ◌≢◌, ◌∙◌, sym, ap, Option, none, some, true, inl, List, [], ◌∷◌, ◌++◌, All, length,
}
use sohocloud_protocol.Prelude.Bytes.{codes, IsBytes}
use sohocloud_protocol.Golang.Ed25519.{Ed25519}
use sohocloud_protocol.Golang.Url.{query_escape}
use sohocloud_protocol.Coordinator.{Coordinator, Error}
use sohocloud_protocol.Employment.Assignment.{Assignment}
use sohocloud_protocol.Protocol.{
  CoreMessage, sign, verify, listing, heartbeat, decline, job_report, assignment,
}
use sohocloud_protocol.Protocol.Reader.{IsCoreEncodable}
use sohocloud_protocol.Protocol.Decisions.{IsWellFormed}
use sohocloud_protocol.Protocol.Signing.{sign_then_verify}
use sohocloud_protocol.Protocol.SameView.{SameSigned, verify-SameSigned}
use sohocloud_protocol.Transport.{ParseUrl, Codecs, method_get, method_post}
use sohocloud_protocol.Transport.Server.{Handle}
use sohocloud_protocol.Transport.Client
use sohocloud_protocol.Transport.Client.{Client, http_client, Network}
use sohocloud_protocol.Transport.Routes.{route_path}
use sohocloud_protocol.Transport.Exchange.{
  Notice, listing_notice, heartbeat_notice, decline_notice, report_notice, notice_route,
  client_notice, coordinator_notice, NoticeBecomes, Returns, reported, fetched,
}
use sohocloud_protocol.Transport.EndToEnd.{deliver, notice_delivered, poll_jobs_delivered}

abbrev pub message : Notice → CoreMessage
message (listing_notice l) = listing l
message (heartbeat_notice h) = heartbeat h
message (decline_notice d) = decline d
message (report_notice r) = job_report r

message-IsWellFormed : (key : List ℕ) (n : Notice) → IsWellFormed key (message n)
message-IsWellFormed key (listing_notice l) = tt
message-IsWellFormed key (heartbeat_notice h) = tt
message-IsWellFormed key (decline_notice d) = tt
message-IsWellFormed key (report_notice r) = tt

signed_verifies :
    (c : Ed25519) (priv : List ℕ) (n₀ n : Notice)
    → length priv ≡ 64
    → sign c priv (message n₀) ≡ some (message n)
    → verify c (c.public priv) (message n) ≡ some true
signed_verifies c priv n₀ n l h =
    let (m, made, _, good) =
      sign_then_verify c priv (message n₀) l (message-IsWellFormed (c.public priv) n₀) in
    rw (some_inj (sym h ∙ made)) good
  where
    some_inj : {m m' : CoreMessage} → ◌≡◌ {A = Option CoreMessage} (some m) (some m') → m ≡ m'
    some_inj e = cc

-- Job by job, the same signed fields and the same signature, and an encoding.
abbrev pub SameJobs : List Assignment → List Assignment → Type 0
SameJobs [] [] = Unit {0}
SameJobs (a ∷ jobs) (a' ∷ jobs') =
    SameSigned (assignment a) (assignment a') × IsCoreEncodable (assignment a) × SameJobs jobs jobs'
SameJobs [] (_ ∷ _) = ⊥
SameJobs (_ ∷ _) [] = ⊥

abbrev pub AllVerify : Ed25519 → List ℕ → List Assignment → Type 0
AllVerify c key jobs = All (λ a. verify c key (assignment a) ≡ some true) jobs

AllVerify-SameJobs :
    (c : Ed25519) (key : List ℕ) (jobs jobs' : List Assignment)
    → SameJobs jobs jobs'
    → AllVerify c key jobs
    → AllVerify c key jobs'
AllVerify-SameJobs c key [] [] same h = tt
AllVerify-SameJobs c key (a ∷ jobs) (a' ∷ jobs') (one, fits, same) (h, hs) = (
  sym (verify-SameSigned c key (assignment a) (assignment a') one fits) ∙ h,
  AllVerify-SameJobs c key jobs jobs' same hs,
)
AllVerify-SameJobs c key [] (_ ∷ _) same h = absurd same
AllVerify-SameJobs c key (_ ∷ _) [] same h = absurd same

module _ {S : Type 0} (j : Codecs) (k : Coordinator S) (other : Handle S) (parse : ParseUrl)
    (default_client : Network S) (client : Client S)
    (delivers : http_client default_client client ≡ deliver j k other) (c : Ed25519) where
  -- A listing, a heartbeat, a decline or a report that `Sign` made with a private key of 64 bytes
  -- reaches the coordinator as a message that `Verify` accepts under the public key, and the client
  -- reports what the coordinator's operation returns for it. The client's HTTP client, its own or the
  -- default one, hands every request to the handler, the URL parses to the path of the route, the
  -- message is encodable, and what JSON makes of it has the same signed fields, with instants in
  -- whatever location and without a monotonic reading, and the same signature.
  pub signed_notice_arrives :
      (priv : List ℕ) (s : S) (n₀ n n' : Notice)
      → length priv ≡ 64
      → sign c priv (message n₀) ≡ some (message n)
      → IsCoreEncodable (message n)
      → parse (client.base_url ++ route_path (notice_route n))
        ≡ inl (route_path (notice_route n), [])
      → NoticeBecomes j n n'
      → SameSigned (message n) (message n')
      → (client_notice parse default_client client j s n ≡ (
        (coordinator_notice k s n').0,
        reported method_post (route_path (notice_route n)) (coordinator_notice k s n').1,
      ))
        × (verify c (c.public priv) (message n') ≡ some true)
  signed_notice_arrives priv s n₀ n n' l h fits p becomes same = (
    notice_delivered j k other parse default_client client delivers s n n' p becomes,
    sym (verify-SameSigned c (c.public priv) (message n) (message n') same fits)
        ∙ signed_verifies c priv n₀ n l h,
  )

  -- If the assignments that the coordinator offers a node verify under a key, so do those that the
  -- node's client returns, without an error, where JSON brings back as many, each with the same signed
  -- fields, with instants in whatever location and without a monotonic reading, and the same
  -- signature, and each is encodable. The client's HTTP client, its own or the default one, hands
  -- every request to the handler, the identifier is nonempty, and the URL parses to the path and the
  -- escaped query.
  pub polled_jobs_arrive :
      (key : List ℕ) (s : S) (id : List ℕ) (jobs out : List Assignment)
      → IsBytes id
      → id ≢ []
      → parse (client.base_url ++ (codes "/v0/jobs?node_id=" ++ query_escape id))
        ≡ inl (codes "/v0/jobs", codes "node_id=" ++ query_escape id)
      → (k.poll_jobs s id).1 ≡ (jobs, none)
      → Returns j.assignments jobs out
      → SameJobs jobs out
      → AllVerify c key jobs
      → (Client.poll_jobs parse default_client client j s id ≡ ((k.poll_jobs s id).0, (out, none)))
        × AllVerify c key out
  polled_jobs_arrive key s id jobs out b d p e becomes same h =
      let made =
        poll_jobs_delivered j k other parse default_client client delivers s id out b d p
          (rw e becomes) in
      (
        made
            ∙ ap
                (λ (o : List Assignment × Option Error).
                  ((k.poll_jobs s id).0, fetched method_get (codes "/v0/jobs") out o.1))
                e,
        AllVerify-SameJobs c key jobs out same h,
      )
