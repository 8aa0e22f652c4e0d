-- ===== src/Transport.antt =====
-- `transport/httpjson`: the reference transport. Here is what its two halves use of Go's `net/http`,
-- `net/url` and `encoding/json`.
pub mod Server
pub mod Client
pub mod Routes
pub mod Exchange
pub mod EndToEnd
pub mod Delivery
pub mod Unmarshalled
pub mod Replay
pub mod Agreement
pub mod Relay
use sohocloud_protocol.Prelude.{ℕ, Option, List, [], ◌∷◌, ◌++◌, ◌⊎◌}
use sohocloud_protocol.Prelude.Bytes.{codes}
use sohocloud_protocol.Coordinator.{Error}
use sohocloud_protocol.Listing.{CapabilityListing}
use sohocloud_protocol.Liveness.{Heartbeat}
use sohocloud_protocol.Employment.Assignment.{Assignment}
use sohocloud_protocol.Employment.Decline.{Decline}
use sohocloud_protocol.Employment.JobReport.{JobReport}
use sohocloud_protocol.Fees.{FeeDeclaration}

pub record Request : Type 0 where
  pub method : List ℕ
  pub path : List ℕ
  pub query : List ℕ
  pub body : List ℕ

pub record Response : Type 0 where
  pub status : ℕ
  pub content_type : List ℕ
  pub body : List ℕ

abbrev pub method_get : List ℕ
method_get = codes "GET"

abbrev pub method_post : List ℕ
method_post = codes "POST"

abbrev pub newline : List ℕ
newline = 10 ∷ []

-- `http.Error(w, msg, status)`
unfoldable pub http_error : List ℕ → ℕ → Response
http_error msg status = record {
  status = status;
  content_type = codes "text/plain; charset=utf-8";
  body = msg ++ newline;
}

-- `encoding/json` at one type: `json.Marshal`, and `Decode` of a decoder into a zero value, which may
-- fill a part of it before it fails.
pub record Json (A : Type 0) : Type 0 where
  pub zero_value : A
  pub marshal : A → List ℕ ⊎ Error
  pub decode : List ℕ → A × Option Error

-- `url.Parse`, which `http.NewRequestWithContext` calls: the path and the raw query, or an error.
abbrev pub ParseUrl : Type 0
ParseUrl = List ℕ → (List ℕ × List ℕ) ⊎ Error

-- The types that travel.
pub record Codecs : Type 0 where
  pub listing : Json CapabilityListing
  pub heartbeat : Json Heartbeat
  pub assignments : Json (List Assignment)
  pub decline : Json Decline
  pub report : Json JobReport
  pub fees : Json FeeDeclaration
