-- ===== src/Common/Outbox/Results.antt =====
-- The progress of phase 2 of `process_pending_events` (common/services/outbox.py): how it can end, and
-- how many results it leaves.
use doorito.Base.{
  ℕ, ◌+◌, ◌≤◌, ◌≡◌, refl, ◌⊎◌, inl, inr, Bool, false, String, List, [], ◌++◌, suc, ◌∷◌, arith,
  length,
}
use doorito.Base.Table.{has, Keyed}
use doorito.World.{Request}
use doorito.Common.Models.{OutboxEvent, WebhookEndpoint}
use doorito.Common.Webhook.{
  Http, Outcome, other_error, deliver_to_endpoint, delivery_request, read_outcome, Attempt, raised,
  done,
}
use doorito.Common.Outbox.Fetch.{matching}
use doorito.Common.Outbox.Deliver.{
  Verdict, Results, Progress, Posts, Ending, finished, out_of_time, crashed, after_attempt,
  after_event, post_each, deliver_events, verdict,
}
use doorito.Common.Outbox.Settle.{result_of}
use doorito.Common.Outbox.Rows.{event_pk, total_delivered, total_failed}

-- The HTTP client raises nothing but what `deliver_to_endpoint` catches, and the time limit.
abbrev pub RaisesNoOther : Http → Type 0
RaisesNoOther http =
    (log : List Request) (request : Request) (message : String)
    → http.post log request ≡ other_error message
    → ⊥

read_outcome-raised :
    (is_success : ℕ → Bool) (o : Outcome) (m : String)
    → read_outcome is_success o ≡ raised m
    → o ≡ other_error m
unfolding read_outcome
read_outcome-raised is_success (Outcome.response code body) m h = ground arith
read_outcome-raised is_success (Outcome.request_error kind text) m h = cc
read_outcome-raised is_success Outcome.time_limit m h = cc
read_outcome-raised is_success (other_error text) m h = ground arith

after_attempt-crashed :
    (a : Attempt) (url : String) (log : List Request) (rest : Posts) (m : String)
    → (after_attempt a url log rest).ending ≡ crashed m
    → (a ≡ raised m) ⊎ (rest.ending ≡ crashed m)
after_attempt-crashed (done d) url log rest m h = ground arith
after_attempt-crashed Attempt.time_limit url log rest m h = cc
after_attempt-crashed (raised text) url log rest m h = ground arith

after_event-crashed :
    (id : ℕ) (posts : Posts) (ending : Ending) (rest : Progress) (m : String)
    → (after_event id posts ending rest).ending ≡ crashed m
    → (ending ≡ crashed m) ⊎ (rest.ending ≡ crashed m)
after_event-crashed id posts finished rest m h = inr h
after_event-crashed id posts out_of_time rest m h = cc
after_event-crashed id posts (crashed text) rest m h = ground arith

module _ (http : Http) (no_other : RaisesNoOther http) where
  post_each-uncrashed :
      (endpoints : List WebhookEndpoint) (event : OutboxEvent) (log : List Request) (m : String)
      → (post_each http endpoints event log).ending ≡ crashed m
      → ⊥
  unfolding post_each deliver_to_endpoint
  post_each-uncrashed [] event log m h = cc
  post_each-uncrashed (ep ∷ eps) event log m h =
      let log' = log ++ delivery_request http ep event ∷ [] in
      elim (after_attempt-crashed (deliver_to_endpoint http log ep event) ep.url log'
        (post_each http eps event log') m h) [
          | inl e ↦ no_other log (delivery_request http ep event) m (
              read_outcome-raised http.is_success (http.post log (delivery_request http ep event)) m
                e)
          | inr e ↦ post_each-uncrashed eps event log' m e
        ]

  pub deliver_events-uncrashed :
      (endpoints : List WebhookEndpoint) (events : List OutboxEvent) (log : List Request)
      (m : String)
      → (deliver_events http endpoints events log).ending ≡ crashed m
      → ⊥
  unfolding deliver_events
  deliver_events-uncrashed endpoints [] log m h = cc
  deliver_events-uncrashed endpoints (event ∷ events) log m h =
      let posts = post_each http (matching endpoints event) event log in
      elim (after_event-crashed event.id posts posts.ending
        (deliver_events http endpoints events posts.log) m h) [
          | inl e ↦ post_each-uncrashed (matching endpoints event) event log m e
          | inr e ↦ deliver_events-uncrashed endpoints events posts.log m e
        ]

module _ (now saved : ℕ) (jitter : ℕ → ℕ) where
  -- The counters gain at most one for each entry of `results`.
  abbrev gained : Results → List OutboxEvent → ℕ
  gained results events =
      total_delivered now saved jitter results events + total_failed now saved jitter results events

  gained-nil : (events : List OutboxEvent) → gained [] events ≡ 0
  unfolding total_delivered total_failed result_of
  gained-nil [] = refl
  gained-nil (event ∷ events) = omega (arith, gained-nil events)

  -- An entry for another event changes nothing.
  gained-cons :
      (id : ℕ) (v : Verdict) (results : Results) (events : List OutboxEvent)
      → has event_pk id events ≡ false
      → gained ((id, v) ∷ results) events ≡ gained results events
  unfolding total_delivered total_failed result_of
  gained-cons id v results [] h = refl
  gained-cons id v results (event ∷ events) h = ground (arith, gained-cons id v results events)

  gained-after_event :
      (event : OutboxEvent) (events : List OutboxEvent) (posts : Posts) (ending : Ending)
      (rest : Progress)
      → has event_pk event.id events ≡ false
      → gained rest.results events ≤ length rest.results
      → let p = after_event event.id posts ending rest in
        gained p.results (event ∷ events) ≤ length p.results
  unfolding total_delivered total_failed result_of
  gained-after_event event events posts finished rest h le =
      ground (arith, gained-cons event.id (verdict posts.errors) rest.results events h)
  gained-after_event event events posts out_of_time rest h le = omega (arith, gained-nil events)
  gained-after_event event events posts (crashed m) rest h le = omega (arith, gained-nil events)

  pub gained-deliver_events :
      (http : Http) (endpoints : List WebhookEndpoint) (events : List OutboxEvent)
      (log : List Request)
      → Keyed event_pk events
      → let p = deliver_events http endpoints events log in
        gained p.results events ≤ length p.results
  unfolding deliver_events
  gained-deliver_events http endpoints [] log d = omega (arith, gained-nil [])
  gained-deliver_events http endpoints (event ∷ events) log d =
      let posts = post_each http (matching endpoints event) event log in
      gained-after_event event events posts posts.ending
        (deliver_events http endpoints events posts.log) d.0
        (gained-deliver_events http endpoints events posts.log d.1)

length-after_event :
    (id : ℕ) (posts : Posts) (ending : Ending) (rest : Progress)
    → length (after_event id posts ending rest).results ≤ suc (length rest.results)
length-after_event id posts finished rest = omega arith
length-after_event id posts out_of_time rest = omega arith
length-after_event id posts (crashed m) rest = omega arith

pub length-deliver_events :
    (http : Http) (endpoints : List WebhookEndpoint) (events : List OutboxEvent)
    (log : List Request)
    → length (deliver_events http endpoints events log).results ≤ length events
unfolding deliver_events
length-deliver_events http endpoints [] log = omega arith
length-deliver_events http endpoints (event ∷ events) log =
    let posts = post_each http (matching endpoints event) event log in
    let rest = deliver_events http endpoints events posts.log in
    omega (
      arith,
      length-after_event event.id posts posts.ending rest,
      length-deliver_events http endpoints events posts.log,
    )
