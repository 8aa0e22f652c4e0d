-- ===== src/Transport/Agreement.antt =====
-- When one coordinator does what another does.
use sohocloud_protocol.Prelude.{ℕ, ◌≡◌, ◌≢◌, ◌∙◌, ◌↔◌, refl, ap, Option, none, some, List, []}
use sohocloud_protocol.Prelude.Bytes.{IsBytes}
use sohocloud_protocol.Coordinator.{Coordinator, Error}
use sohocloud_protocol.Transport.{Json, Codecs}
use sohocloud_protocol.Transport.Client.{ClientError, error_text}
use sohocloud_protocol.Transport.Exchange.{
  Notice, coordinator_notice, NoticeCarries, AnswerCarries, AnswerBecomes, reported, fetched,
}
use mathlib.Core.Option

-- The same state, and an error where the other has one.
abbrev pub SameNotice : {S : Type 0} → S × Option Error → S × Option Error → Type 0
SameNotice near far = (near.0 ≡ far.0) × ((near.1 ≡ none) ↔ (far.1 ≡ none))

-- The same answer without an error, and the zero value with an error where the other has one.
abbrev pub SameFetched : {A : Type 0} → Json A → A × Option Error → A × Option Error → Type 0
SameFetched j near (v, none) = near ≡ (v, none)
SameFetched j near (v, some err) = (near.0 ≡ j.zero_value) × (near.1 ≢ none)

abbrev pub SameAnswer :
    {S A : Type 0} → Json A → S × (A × Option Error) → S × (A × Option Error) → Type 0
SameAnswer j near far = (near.0 ≡ far.0) × SameFetched j near.1 far.1

-- One coordinator does on the state what another does, if JSON carries what is said.
pub record Agrees {S : Type 0} (j : Codecs) (near far : Coordinator S) : Type 0 where
  pub same_notices :
      (s : S) (n : Notice)
      → NoticeCarries j n
      → SameNotice (coordinator_notice near s n) (coordinator_notice far s n)
  pub same_jobs :
      (s : S) (id : List ℕ)
      → IsBytes id
      → id ≢ []
      → AnswerCarries j.assignments (far.poll_jobs s id).1
      → SameAnswer j.assignments (near.poll_jobs s id) (far.poll_jobs s id)
  pub same_fees :
      (s : S) → AnswerCarries j.fees (far.fees s).1 → SameAnswer j.fees (near.fees s) (far.fees s)

noticed_iff :
    (method path : List ℕ) (err : Option Error)
    → (Option.map error_text (reported method path err) ≡ none) ↔ (err ≡ none)
noticed_iff method path none = (λ e. refl, λ e. refl)
noticed_iff method path (some err) = (λ e. absurd cc, λ e. absurd cc)

-- What the client has in hand when JSON carries the answer.
abbrev pub kept_answer : {A : Type 0} → Json A → A × Option Error → A
kept_answer ja (v, none) = v
kept_answer ja (v, some err) = ja.zero_value

pub AnswerCarries-kept_answer :
    {A : Type 0} (ja : Json A) (out : A × Option Error)
    → AnswerCarries ja out
    → AnswerBecomes ja out (kept_answer ja out)
AnswerCarries-kept_answer ja (v, none) h = h
AnswerCarries-kept_answer ja (v, some err) h = refl

SameFetched-fetched :
    {A : Type 0} (ja : Json A) (method path : List ℕ) (out : A × Option Error)
    → SameFetched ja
        (
          kept_answer ja out,
          Option.map error_text (fetched method path (kept_answer ja out) out.1).1,
        )
        out
SameFetched-fetched ja method path (v, none) = refl
SameFetched-fetched ja method path (v, some err) = (refl, λ e. cc)

SameNotice-trans :
    {S : Type 0} (near middle far : S × Option Error)
    → SameNotice near middle
    → SameNotice middle far
    → SameNotice near far
SameNotice-trans near middle far p q = (p.0 ∙ q.0, (λ e. q.1.0 (p.1.0 e), λ e. p.1.1 (q.1.1 e)))

SameFetched-trans :
    {A : Type 0} (ja : Json A) (near middle far : A × Option Error)
    → SameFetched ja near middle
    → SameFetched ja middle far
    → SameFetched ja near far
SameFetched-trans ja near (v', none) (v, none) p q = p ∙ q
SameFetched-trans ja near (v', some e') (v, none) p q = absurd cc
SameFetched-trans ja near (v', none) (v, some err) p q = absurd (q.1 refl)
SameFetched-trans ja near (v', some e') (v, some err) p q = p

-- JSON carries the one answer if it carries the other.
SameFetched-AnswerCarries :
    {A : Type 0} (ja : Json A) (near far : A × Option Error)
    → SameFetched ja near far
    → AnswerCarries ja far
    → AnswerCarries ja near
SameFetched-AnswerCarries ja (v', none) (v, none) q h = rw (ap (λ (o : _ × Option Error). o.0) q) h
SameFetched-AnswerCarries ja (v', some e') far q h = tt
SameFetched-AnswerCarries ja (v', none) (v, some err) q h = absurd (q.1 refl)

SameAnswer-trans :
    {S A : Type 0} (ja : Json A) (near middle far : S × (A × Option Error))
    → (AnswerCarries ja middle.1 → SameAnswer ja near middle)
    → AnswerCarries ja far.1
    → SameAnswer ja middle far
    → SameAnswer ja near far
SameAnswer-trans ja near middle far p h q =
    let first = p (SameFetched-AnswerCarries ja middle.1 far.1 q.1 h) in
    (first.0 ∙ q.0, SameFetched-trans ja near.1 middle.1 far.1 first.1 q.1)

pub SameNotice-reported :
    {S : Type 0} (got : S × Option ClientError) (far : S × Option Error) (method path : List ℕ)
    → got ≡ (far.0, reported method path far.1)
    → SameNotice (got.0, Option.map error_text got.1) far
SameNotice-reported got far method path e = rw e (refl, noticed_iff method path far.1)

pub SameAnswer-fetched :
    {S A : Type 0} (ja : Json A) (got : S × (A × Option ClientError)) (far : S × (A × Option Error))
    (method path : List ℕ)
    → got ≡ (far.0, fetched method path (kept_answer ja far.1) far.1.1)
    → SameAnswer ja (got.0, (got.1.0, Option.map error_text got.1.1)) far
SameAnswer-fetched ja got far method path e = rw e (refl, SameFetched-fetched ja method path far.1)

module _ {S : Type 0} (j : Codecs) where
  pub Agrees-trans :
      (near middle far : Coordinator S)
      → Agrees j near middle
      → Agrees j middle far
      → Agrees j near far
  Agrees-trans near middle far p q = record {
    same_notices = λ s n h.
        SameNotice-trans (coordinator_notice near s n) (coordinator_notice middle s n)
          (coordinator_notice far s n) (p.same_notices s n h) (q.same_notices s n h);
    same_jobs = λ s id b d h.
        SameAnswer-trans j.assignments (near.poll_jobs s id) (middle.poll_jobs s id)
          (far.poll_jobs s id) (p.same_jobs s id b d) h (q.same_jobs s id b d h);
    same_fees = λ s h.
        SameAnswer-trans j.fees (near.fees s) (middle.fees s) (far.fees s) (p.same_fees s) h
          (q.same_fees s h);
  }
