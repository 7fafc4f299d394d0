-- ===== src/Common/Outbox/Posting.antt =====
-- That a run of the delivery task (common/tasks.py) posts an event that is due to each endpoint that
-- is subscribed to it.
use mathlib.Core.List.{Memᴰ}
use mathlib.Core.List.Memᴰ
use doorito.Base.{
  ◌≤◌, ◌≡◌, true, false, Bool, List, [], ◌∷◌, ◌&&◌, not, arith, filter, count_if, length-filter,
}
use doorito.Base.Sorting.{sort_by, length-sort_by}
use doorito.Base.Members.{Memᴰ-filter, Memᴰ-sort_by, take_all}
use doorito.World.{World}
use doorito.Common.Models.{OutboxEvent, WebhookEndpoint}
use doorito.Common.Transactions.{Transactions}
use doorito.Common.Webhook.{Http, delivery_request}
use doorito.Common.Tasks.{deliver_outbox_events_task}
use doorito.Common.Outbox.Fetch.{
  delivery_batch_size, is_due, newer, fetch_due, active_endpoints, subscribed, matching,
}
use doorito.Common.Outbox.Process.{Run, count_pending}
use doorito.Common.Outbox.Sweep.{Idle, events_of, sweep, process_pending_events-eq}
use doorito.Common.Outbox.Requests.{all_requests, deliver_events_all}
use doorito.Common.Outbox.Validity.{IsConsistent, Unclashed-Keyed}
use doorito.Common.Outbox.Settling.{Answers, deliver_events_finishes}

-- An endpoint that gets the event.
abbrev pub Receives : List WebhookEndpoint → OutboxEvent → WebhookEndpoint → Type 0
Receives endpoints e ep =
    Memᴰ ep endpoints × (ep.is_active ≡ true) × (subscribed ep.event_types e.event_type ≡ true)

Memᴰ-matching :
    (endpoints : List WebhookEndpoint) (e : OutboxEvent) (ep : WebhookEndpoint)
    → Receives endpoints e ep
    → Memᴰ ep (matching (active_endpoints endpoints) e)
unfolding matching active_endpoints
Memᴰ-matching endpoints e ep r =
    Memᴰ-filter (λ ep. subscribed ep.event_types e.event_type) (active_endpoints endpoints)
      (Memᴰ-sort_by _ (filter (λ ep. ep.is_active) endpoints)
        (Memᴰ-filter (λ ep. ep.is_active) endpoints r.0 r.1))
      r.2

Memᴰ-all_requests :
    (http : Http) (endpoints : List WebhookEndpoint) {e : OutboxEvent} {ep : WebhookEndpoint}
    (events : List OutboxEvent)
    → Memᴰ e events
    → Memᴰ ep (matching endpoints e)
    → Memᴰ (delivery_request http ep e) (all_requests http endpoints events)
unfolding all_requests
Memᴰ-all_requests http endpoints [] m r = absurd (Memᴰ.not-nil m)
Memᴰ-all_requests http endpoints {e} {ep} (x ∷ xs) (Memᴰ.head h) r =
    Memᴰ.append_left (all_requests http endpoints xs)
      (rw⁻¹ h (Memᴰ.map (λ (ep : WebhookEndpoint). delivery_request http ep e) r))
Memᴰ-all_requests http endpoints {e} {ep} (x ∷ xs) (Memᴰ.tail m) r =
    Memᴰ.append_right _ (Memᴰ-all_requests http endpoints {e = e} {ep = ep} xs m r)

-- No more are fetched than are pending.
wanted-le-pending :
    (run : Run) (outbox : List OutboxEvent)
    → count_if (λ e. is_due run.started e && not (run.locked e.id)) outbox ≤ count_pending outbox
wanted-le-pending run [] = omega arith
wanted-le-pending run (e ∷ es) = ground (arith, wanted-le-pending run es)

Memᴰ-fetch_due :
    (run : Run) {e : OutboxEvent} (outbox : List OutboxEvent)
    → Memᴰ e outbox
    → is_due run.started e ≡ true
    → run.locked e.id ≡ false
    → count_pending outbox ≤ delivery_batch_size
    → Memᴰ e (fetch_due run.locked run.started delivery_batch_size outbox)
unfolding fetch_due
Memᴰ-fetch_due run {e} outbox m due free few =
    let wanted : OutboxEvent → Bool = λ e. is_due run.started e && not (run.locked e.id) in
    let sorted = sort_by newer (filter wanted outbox) in
    let all = take_all delivery_batch_size sorted (
      omega (
        arith,
        few,
        length-sort_by newer (filter wanted outbox),
        length-filter wanted outbox,
        wanted-le-pending run outbox,
      )) in
    rw all (
      Memᴰ-sort_by newer (filter wanted outbox)
        (Memᴰ-filter wanted outbox m (ground (arith, due, free))))

module _ (tx : Transactions) (http : Http) (answers : Answers http) where
  pub task_posts :
      (run : Run) (w : World) (e : OutboxEvent) (ep : WebhookEndpoint)
      → Idle w
      → IsConsistent w.db.outbox
      → Memᴰ e w.db.outbox
      → is_due run.started e ≡ true
      → run.locked e.id ≡ false
      → count_pending w.db.outbox ≤ delivery_batch_size
      → Receives w.db.endpoints e ep
      → Memᴰ (delivery_request http ep e) (deliver_outbox_events_task tx http run w).1.requests
  unfolding deliver_outbox_events_task sweep
  task_posts run w e ep idle c m due free few r =
      let events = events_of http run delivery_batch_size w in
      let eps = active_endpoints w.db.endpoints in
      let done = deliver_events_finishes http answers eps events w.requests in
      let log = (deliver_events_all http eps events w.requests done).0 in
      rw
        (
          process_pending_events-eq tx http run delivery_batch_size w idle
              (Unclashed-Keyed w.db.outbox c.unclashed),
          done,
          log,
        )
        (Memᴰ.append_right w.requests (
          Memᴰ-all_requests http eps {e = e} {ep = ep} events
            (Memᴰ-fetch_due run w.db.outbox m due free few) (Memᴰ-matching w.db.endpoints e ep r)))
