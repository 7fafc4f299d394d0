-- ===== src/Common/Outbox/Requests.antt =====
-- Which requests phase 2 of `process_pending_events` (common/services/outbox.py) makes, and what its
-- verdicts say of the answers.
use doorito.Base.{
  ℕ, ◌≡◌, refl, ◌∙◌, sym, ap, ◌↔◌, Bool, true, ◌==◌, ◌||◌, any, filter, length, str_eq, String,
  List, [], ◌∷◌, ◌++◌, map, arith, Bool-cases, inl, inr,
}
use mathlib.Core.List.{append_assoc, append-nil}
use doorito.World.{Request}
use doorito.Common.Models.{OutboxEvent, WebhookEndpoint}
use doorito.Common.Webhook.{
  Http, Outcome, response, request_error, other_error, Attempt, done, raised, compute_signature,
  delivery_request, read_outcome, deliver_to_endpoint,
}
use doorito.Common.Outbox.Fetch.{matching, subscribed}
use doorito.Common.Outbox.Deliver.{
  Posts, Progress, Ending, finished, out_of_time, crashed, after_attempt, after_event, post_each,
  deliver_events, verdict,
}

module _ (http : Http) where
  -- One request for each event and each endpoint that is subscribed to its type, events first.
  unfoldable pub all_requests : List WebhookEndpoint → List OutboxEvent → List Request
  all_requests endpoints [] = []
  all_requests endpoints (event ∷ events) =
      map (λ ep. delivery_request http ep event) (matching endpoints event)
      ++ all_requests endpoints events

  -- The endpoint takes the type of the event: it names no types, or this one among them.
  abbrev pub takes : OutboxEvent → WebhookEndpoint → Bool
  takes event ep = length ep.event_types == 0 || any (str_eq event.event_type) ep.event_types

  -- The POST of an event to an endpoint: the payload, under the endpoint's signature.
  abbrev pub signed_post : OutboxEvent → WebhookEndpoint → Request
  signed_post event ep = record {
    url = ep.url;
    content = http.dumps event.payload;
    headers =
        ("Content-Type", "application/json")
        ∷ (
          "X-Webhook-Signature",
          http.hmac_sha256 (http.encode ep.secret) (http.dumps event.payload),
        )
        ∷ ("X-Webhook-Event", event.event_type)
        ∷ ("X-Webhook-Delivery", http.str_uuid event.id)
        ∷ [];
  }

  -- One for each event and each endpoint that takes its type, events first.
  abbrev pub expected_requests : List WebhookEndpoint → List OutboxEvent → List Request
  expected_requests endpoints [] = []
  expected_requests endpoints (event ∷ events) =
      map (signed_post event) (filter (takes event) endpoints) ++ expected_requests endpoints events

  takes-eq :
      (event : OutboxEvent) (ep : WebhookEndpoint) (types : List String)
      → subscribed types event.event_type
        ≡ (length types == 0 || any (str_eq event.event_type) types)
  unfolding subscribed
  takes-eq event ep [] = refl
  takes-eq event ep (t ∷ types) = ground arith

  matching-takes :
      (event : OutboxEvent) (endpoints : List WebhookEndpoint)
      → matching endpoints event ≡ filter (takes event) endpoints
  unfolding matching
  matching-takes event [] = refl
  matching-takes event (ep ∷ endpoints) =
      rw (takes-eq event ep ep.event_types, matching-takes event endpoints) refl

  all_requests-expected :
      (endpoints : List WebhookEndpoint) (events : List OutboxEvent)
      → all_requests endpoints events ≡ expected_requests endpoints events
  unfolding all_requests delivery_request compute_signature
  all_requests-expected endpoints [] = refl
  all_requests-expected endpoints (event ∷ events) =
      rw (matching-takes event endpoints, all_requests-expected endpoints events) refl

  -- The client gives a response with a status of success.
  abbrev pub Answered : Outcome → Type 0
  Answered (response code body) = http.is_success code ≡ true
  Answered _ = ⊥

  -- Every endpoint in turn does, with the posts before it in the log.
  abbrev pub AllAnswer : List WebhookEndpoint → OutboxEvent → List Request → Type 0
  AllAnswer [] event log = Unit
  AllAnswer (ep ∷ eps) event log =
      Answered (http.post log (signed_post event ep))
      × AllAnswer eps event (log ++ signed_post event ep ∷ [])

  after_attempt-finished :
      (a : Attempt) (url : String) (log : List Request) (rest : Posts)
      → (after_attempt a url log rest).ending ≡ finished
      → ((after_attempt a url log rest).log ≡ rest.log) × (rest.ending ≡ finished)
  after_attempt-finished (done d) url log rest h = ground arith
  after_attempt-finished Attempt.time_limit url log rest h = (cc, cc)
  after_attempt-finished (raised m) url log rest h = (cc, cc)

  log-post_each :
      (eps : List WebhookEndpoint) (event : OutboxEvent) (log : List Request)
      → (post_each http eps event log).ending ≡ finished
      → (post_each http eps event log).log ≡ log ++ map (λ ep. delivery_request http ep event) eps
  unfolding post_each
  log-post_each [] event log h = sym (append-nil log)
  log-post_each (ep ∷ eps) event log h =
      let log' = log ++ delivery_request http ep event ∷ [] in
      let rest = post_each http eps event log' in
      let (same, over) =
        after_attempt-finished (deliver_to_endpoint http log ep event) ep.url log' rest h in
      same
      ∙ log-post_each eps event log' over
      ∙ append_assoc log (delivery_request http ep event ∷ [])
          (map (λ ep. delivery_request http ep event) eps)

  after_event-finished :
      (id : ℕ) (posts : Posts) (ending : Ending) (rest : Progress)
      → (after_event id posts ending rest).ending ≡ finished
      → (ending ≡ finished)
        × (rest.ending ≡ finished)
        × ((after_event id posts ending rest).log ≡ rest.log)
        × (map (λ r. r.0) (after_event id posts ending rest).results
            ≡ id ∷ map (λ r. r.0) rest.results)
  after_event-finished id posts finished rest h = (refl, h, refl, refl)
  after_event-finished id posts out_of_time rest h = absurd (cc)
  after_event-finished id posts (crashed m) rest h = absurd (cc)

  pub deliver_events_all :
      (endpoints : List WebhookEndpoint) (events : List OutboxEvent) (log : List Request)
      → (deliver_events http endpoints events log).ending ≡ finished
      → ((deliver_events http endpoints events log).log ≡ log ++ all_requests endpoints events)
        × (map (λ r. r.0) (deliver_events http endpoints events log).results
            ≡ map (λ e. e.id) events)
  unfolding deliver_events all_requests
  deliver_events_all endpoints [] log h = (sym (append-nil log), refl)
  deliver_events_all endpoints (event ∷ events) log h =
      let eps = matching endpoints event in
      let posts = post_each http eps event log in
      let (a, b, c, d) =
        after_event-finished event.id posts posts.ending
          (deliver_events http endpoints events posts.log) h in
      let (e, f) = deliver_events_all endpoints events posts.log b in
      (
        c
            ∙ e
            ∙ ap (λ l. l ++ all_requests endpoints events) (log-post_each eps event log a)
            ∙ append_assoc log (map (λ ep. delivery_request http ep event) eps)
                (all_requests endpoints events),
        d ∙ ap (λ ks. event.id ∷ ks) f,
      )

  -- If phase 2 ends by itself, it has sent for each event, in order, one POST to each endpoint that
  -- names no event types or the event's among them, in order, and nothing else: the payload of the
  -- event, to the endpoint's address, with the HMAC of this payload under the endpoint's secret, the
  -- event's type and its key in the headers; and it leaves one result for each event.
  pub deliver_events_requests :
      (endpoints : List WebhookEndpoint) (events : List OutboxEvent) (log : List Request)
      → (deliver_events http endpoints events log).ending ≡ finished
      → ((deliver_events http endpoints events log).log ≡ log ++ expected_requests endpoints events)
        × (map (λ r. r.0) (deliver_events http endpoints events log).results
            ≡ map (λ e. e.id) events)
  deliver_events_requests endpoints events log h =
      let (sent, kept) = deliver_events_all endpoints events log h in
      (sent ∙ ap (λ l. log ++ l) (all_requests-expected endpoints events), kept)

  attempt_verdict :
      (X : Type 0) (o : Outcome) (url : String) (log : List Request) (rest : Posts)
      → (after_attempt (read_outcome http.is_success o) url log rest).ending ≡ finished
      → ((verdict rest.errors).all_ok ≡ true) ↔ X
      → ((verdict (after_attempt (read_outcome http.is_success o) url log rest).errors).all_ok
          ≡ true)
        ↔ (Answered o × X)
  unfolding verdict read_outcome
  attempt_verdict X (response code body) url log rest h both =
      elim (Bool-cases (http.is_success code)) [
        | inl good ↦ rw good (λ v. (refl, both.0 v), λ p. both.1 p.1)
        | inr bad ↦ rw bad (λ v. absurd (cc), λ p. absurd (cc))
      ]
  attempt_verdict X (request_error kind message) url log rest h both =
      (λ v. absurd (cc), λ p. absurd p.0)
  attempt_verdict X Outcome.time_limit url log rest h both = absurd (cc)
  attempt_verdict X (other_error m) url log rest h both = absurd (cc)

  -- If the posts for an event all come back, its verdict is `all_ok` exactly if the client gave, for
  -- every endpoint in turn, a response with a status of success.
  pub verdict_all_ok :
      (eps : List WebhookEndpoint) (event : OutboxEvent) (log : List Request)
      → (post_each http eps event log).ending ≡ finished
      → ((verdict (post_each http eps event log).errors).all_ok ≡ true) ↔ AllAnswer eps event log
  unfolding post_each verdict deliver_to_endpoint delivery_request compute_signature
  verdict_all_ok [] event log h = (λ _. tt, λ _. refl)
  verdict_all_ok (ep ∷ eps) event log h =
      let log' = log ++ delivery_request http ep event ∷ [] in
      let rest = post_each http eps event log' in
      let o = http.post log (signed_post event ep) in
      attempt_verdict (AllAnswer eps event log') o ep.url log' rest h (
        verdict_all_ok eps event log'
          (after_attempt-finished (read_outcome http.is_success o) ep.url log' rest h).1)
