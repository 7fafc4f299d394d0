-- ===== src/Common/Outbox/Potential.antt =====
-- How many attempts the outbox has left, and that phase 3 of `process_pending_events`
-- (common/services/outbox.py) uses up at least one for each result.
use doorito.Base.{
  ℕ, ◌+◌, ◌-◌, ◌≤◌, ◌<◌, ◌≡◌, refl, true, false, Option, none, some, List, [], ◌∷◌, All, arith,
  length, if◌then◌else◌,
}
use doorito.Base.Table.{find, has, Keyed, sum_by, sum_by-modify}
use doorito.World.{Request}
use doorito.Common.Models.{OutboxEvent, WebhookEndpoint, is_pending}
use doorito.Common.Webhook.{Http}
use doorito.Common.Outbox.Fetch.{matching}
use doorito.Common.Outbox.Deliver.{
  Verdict, Results, Progress, Posts, Ending, finished, out_of_time, crashed, after_event, post_each,
  deliver_events, verdict,
}
use doorito.Common.Outbox.Settle.{settle, overwrite, result_of}
use doorito.Common.Outbox.Rows.{event_pk, written, row_step, settled_rows}
use doorito.Common.Outbox.Outcomes.{Current, step, Keyed-row_step, Current-step}

-- The attempts that an event may still use.
abbrev pub spare : OutboxEvent → ℕ
spare e = if is_pending e.status then e.max_attempts - e.attempts else 0

abbrev pub potential : List OutboxEvent → ℕ
potential outbox = sum_by event_pk spare outbox

-- A fetched event, as a consistent outbox has it.
abbrev pub Live : OutboxEvent → Type 0
Live e = (is_pending e.status ≡ true) × (e.attempts < e.max_attempts)

-- Whether an event has a result.
abbrev pub hit : Option Verdict → ℕ
hit none = 0
hit (some r) = 1

pub hits : Results → List OutboxEvent → ℕ
hits results [] = 0
hits results (event ∷ events) = hit (result_of event.id results) + hits results events

module _ (now saved : ℕ) (jitter : ℕ → ℕ) (results : Results) where
  spare-written :
      (event : OutboxEvent) (r : Verdict)
      → Live event
      → spare (written now saved jitter results event r event) < spare event
  unfolding settle overwrite
  spare-written event r live = ground arith

  potential-row_step :
      (event : OutboxEvent) (o : Option Verdict) (outbox : List OutboxEvent)
      → Keyed event_pk outbox
      → find event_pk event.id outbox ≡ some event
      → Live event
      → potential (row_step now saved jitter results event o outbox) + hit o ≤ potential outbox
  potential-row_step event none outbox d h live = omega arith
  potential-row_step event (some r) outbox d h live = omega (
    arith,
    sum_by-modify event_pk spare event.id (written now saved jitter results event r) outbox d h,
    spare-written event r live,
  )

  pub potential-settled_rows :
      (events outbox : List OutboxEvent)
      → Keyed event_pk outbox
      → Keyed event_pk events
      → Current outbox events
      → All Live events
      → potential (settled_rows now saved jitter results events outbox) + hits results events
        ≤ potential outbox
  unfolding settled_rows hits
  potential-settled_rows [] outbox d de h live = omega arith
  potential-settled_rows (event ∷ events) outbox d de h live = omega (
    arith,
    potential-row_step event (result_of event.id results) outbox d h.0 live.0,
    potential-settled_rows events (step now saved jitter results event outbox)
        (Keyed-row_step now saved jitter results event (result_of event.id results) outbox d) de.1
        (Current-step now saved jitter results event events outbox de.0 h.1) live.1,
  )

hits-nil : (events : List OutboxEvent) → hits [] events ≡ 0
unfolding hits result_of
hits-nil [] = refl
hits-nil (event ∷ events) = omega (arith, hits-nil events)

hits-cons :
    (id : ℕ) (v : Verdict) (results : Results) (events : List OutboxEvent)
    → has event_pk id events ≡ false
    → hits ((id, v) ∷ results) events ≡ hits results events
unfolding hits result_of
hits-cons id v results [] h = refl
hits-cons id v results (event ∷ events) h = ground (arith, hits-cons id v results events)

hits-after_event :
    (event : OutboxEvent) (events : List OutboxEvent) (posts : Posts) (ending : Ending)
    (rest : Progress)
    → has event_pk event.id events ≡ false
    → hits rest.results events ≡ length rest.results
    → let p = after_event event.id posts ending rest in
      hits p.results (event ∷ events) ≡ length p.results
unfolding hits result_of
hits-after_event event events posts finished rest h e =
    ground (arith, hits-cons event.id (verdict posts.errors) rest.results events h)
hits-after_event event events posts out_of_time rest h e = omega (arith, hits-nil events)
hits-after_event event events posts (crashed m) rest h e = omega (arith, hits-nil events)

-- Every result is that of a fetched event.
pub hits-deliver_events :
    (http : Http) (endpoints : List WebhookEndpoint) (events : List OutboxEvent)
    (log : List Request)
    → Keyed event_pk events
    → let p = deliver_events http endpoints events log in hits p.results events ≡ length p.results
unfolding deliver_events
hits-deliver_events http endpoints [] log d = omega (arith, hits-nil [])
hits-deliver_events http endpoints (event ∷ events) log d =
    let posts = post_each http (matching endpoints event) event log in
    hits-after_event event events posts posts.ending
      (deliver_events http endpoints events posts.log) d.0
      (hits-deliver_events http endpoints events posts.log d.1)
