-- ===== src/Transport/Unmarshalled.antt =====
-- `writeJSON` where `Encode` fails: it drops the error, and the status is 200 already.
use sohocloud_protocol.Prelude.{ℕ, ◌≡◌, ◌≢◌, ◌∙◌, refl, ap, none, some, inl, inr, List, [], ◌++◌}
use sohocloud_protocol.Prelude.Bytes.{codes, IsBytes}
use sohocloud_protocol.Golang.Url.{query_escape}
use sohocloud_protocol.Coordinator.{Coordinator, Error}
use sohocloud_protocol.Employment.Assignment.{Assignment}
use sohocloud_protocol.Transport.{Request, Json, ParseUrl, Codecs}
use sohocloud_protocol.Transport.Server.{Handle, answer, write_json}
use sohocloud_protocol.Transport.Client
use sohocloud_protocol.Transport.Client.{
  Client, http_client, Network, passed_on, done_into, check_status, read_out, decoded,
}
use sohocloud_protocol.Transport.Routes.{jobs_route}
use sohocloud_protocol.Transport.EndToEnd.{deliver, asked, polled_result}

done_into-unmarshalled :
    {A : Type 0} (ja : Json A) (req : Request) (v v' : A) (err err' : Error)
    → ja.marshal v ≡ inr err
    → ja.decode [] ≡ (v', some err')
    → done_into ja req (inl (answer ja (v, none))) ≡ (v', some (passed_on err'))
unfolding done_into check_status read_out decoded answer write_json
done_into-unmarshalled ja req v v' err err' m d = rw (m, d) refl

module _ {S : Type 0} (j : Codecs) (k : Coordinator S) (other : Handle S) (parse : ParseUrl)
    (default_client : Network S) (client : Client S)
    (delivers : http_client default_client client ≡ deliver j k other) where
  -- If the coordinator offers a node assignments that `encoding/json` cannot marshal, the response has
  -- the status 200 and an empty body, and the client gets the coordinator's new state and whatever
  -- error its decoder has for an empty body, although the coordinator returned none. The client's HTTP
  -- client, its own or the default one, hands every request to the handler, the identifier is
  -- nonempty, and the URL parses to the path and the escaped query.
  pub jobs_unmarshalled :
      (s : S) (id : List ℕ) (jobs out : List Assignment) (err err' : Error)
      → IsBytes id
      → id ≢ []
      → parse (client.base_url ++ (codes "/v0/jobs?node_id=" ++ query_escape id))
        ≡ inl (codes "/v0/jobs", codes "node_id=" ++ query_escape id)
      → (k.poll_jobs s id).1 ≡ (jobs, none)
      → j.assignments.marshal jobs ≡ inr err
      → j.assignments.decode [] ≡ (out, some err')
      → ((answer j.assignments (k.poll_jobs s id).1).status ≡ 200)
        × ((answer j.assignments (k.poll_jobs s id).1).body ≡ [])
        × (Client.poll_jobs parse default_client client j s id
            ≡ ((k.poll_jobs s id).0, (out, some (passed_on err'))))
  unfolding answer write_json
  jobs_unmarshalled s id jobs out err err' b d p e m empty =
      let req = asked jobs_route (codes "node_id=" ++ query_escape id) in
      (
        rw e refl,
        rw (e, m) refl,
        polled_result j k other parse default_client client delivers s id
            (out, some (passed_on err')) b d p
            (ap (λ o. done_into j.assignments req (inl (answer j.assignments o))) e
              ∙ done_into-unmarshalled j.assignments req jobs out err err' m empty),
      )
