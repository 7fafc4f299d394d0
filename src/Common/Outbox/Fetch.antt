-- ===== src/Common/Outbox/Fetch.antt =====
-- Phase 1 of `process_pending_events` (common/services/outbox.py): the pending events that are due.
use doorito.Base.{
  ℕ, Bool, true, false, Option, none, some, String, List, [], ◌∷◌, ◌&&◌, not, leb, take, filter,
  any, str_eq,
}
use doorito.Base.Sorting.{sort_by}
use doorito.Common.Models.{OutboxEvent, WebhookEndpoint, is_pending}

-- `DELIVERY_BATCH_SIZE`
abbrev pub delivery_batch_size : ℕ
delivery_batch_size = 20

-- `next_attempt_at__lte=now`; a null is never at or before an instant.
abbrev pub due : Option ℕ → ℕ → Bool
due none now = false
due (some t) now = leb t now

-- The filter of the query.
abbrev pub is_due : ℕ → OutboxEvent → Bool
is_due now event = is_pending event.status && due event.next_attempt_at now

-- `ordering = ["-created_at"]` of the model: newest first. Rows of one instant are left in the
-- order of the table.
abbrev pub newer : OutboxEvent → OutboxEvent → Bool
newer a b = leb b.created_at a.created_at

-- `locked` tells the rows that other transactions hold, which `skip_locked` passes over.
unfoldable pub fetch_due : (ℕ → Bool) → ℕ → ℕ → List OutboxEvent → List OutboxEvent
fetch_due locked now batch_size outbox =
    take batch_size (sort_by newer (filter (λ e. is_due now e && not (locked e.id)) outbox))

abbrev newer_endpoint : WebhookEndpoint → WebhookEndpoint → Bool
newer_endpoint a b = leb b.created_at a.created_at

-- `WebhookEndpoint.objects.filter(is_active=True)`, in the model's order.
unfoldable pub active_endpoints : List WebhookEndpoint → List WebhookEndpoint
active_endpoints endpoints = sort_by newer_endpoint (filter (λ ep. ep.is_active) endpoints)

-- `not ep.event_types or event.event_type in ep.event_types`
unfoldable pub subscribed : List String → String → Bool
subscribed [] event_type = true
subscribed (t ∷ types) event_type = any (str_eq event_type) (t ∷ types)

unfoldable pub matching : List WebhookEndpoint → OutboxEvent → List WebhookEndpoint
unfolding subscribed
matching endpoints event = filter (λ ep. subscribed ep.event_types event.event_type) endpoints
