-- ===== src/Common/Outbox/Outcomes.antt =====
-- Where each row of the outbox ends up after phase 3 of `process_pending_events`, and what that
-- does to the number of pending events.
use doorito.Base.{
  ℕ, ◌+◌, ◌≡◌, refl, ◌∙◌, true, false, Option, none, some, List, [], ◌∷◌, ◌==◌, All, arith,
}
use doorito.Base.Table.{
  find, has, Keyed, find-modify_ne, find-modify_self, Keyed-modify, count_if-modify,
}
use doorito.Common.Models.{OutboxEvent, is_pending}
use doorito.Common.Outbox.Deliver.{Verdict, Results}
use doorito.Common.Outbox.Settle.{settle, overwrite, result_of}
use doorito.Common.Outbox.Process.{count_pending}
use doorito.Common.Outbox.Rows.{
  event_pk, written, row_step, settled_rows, gain_delivered, gain_failed, total_delivered,
  total_failed,
}

-- Each event is the row of the table under its key.
abbrev pub Current : List OutboxEvent → List OutboxEvent → Type 0
Current outbox = All (λ e. find event_pk e.id outbox ≡ some e)

module _ (now saved : ℕ) (jitter : ℕ → ℕ) (results : Results) where
  abbrev pub step : OutboxEvent → List OutboxEvent → List OutboxEvent
  step event = row_step now saved jitter results event (result_of event.id results)

  -- The row of a fetched event afterwards.
  abbrev pub outcome : OutboxEvent → Option Verdict → OutboxEvent
  outcome event none = event
  outcome event (some r) = written now saved jitter results event r event

  find-row_step_ne :
      (j : ℕ) (event : OutboxEvent) (o : Option Verdict) (outbox : List OutboxEvent)
      → (j == event.id) ≡ false
      → find event_pk j (row_step now saved jitter results event o outbox) ≡ find event_pk j outbox
  find-row_step_ne j event none outbox h = refl
  find-row_step_ne j event (some r) outbox h =
      find-modify_ne event_pk j event.id (written now saved jitter results event r) outbox
        (λ x. unfold overwrite in refl) h

  find-row_step_self :
      (event : OutboxEvent) (o : Option Verdict) (outbox : List OutboxEvent)
      → find event_pk event.id outbox ≡ some event
      → find event_pk event.id (row_step now saved jitter results event o outbox)
        ≡ some (outcome event o)
  find-row_step_self event none outbox h = h
  find-row_step_self event (some r) outbox h =
      find-modify_self event_pk event.id (written now saved jitter results event r) outbox
        (λ x. unfold overwrite in refl) h

  pub Keyed-row_step :
      (event : OutboxEvent) (o : Option Verdict) (outbox : List OutboxEvent)
      → Keyed event_pk outbox
      → Keyed event_pk (row_step now saved jitter results event o outbox)
  Keyed-row_step event none outbox d = d
  Keyed-row_step event (some r) outbox d =
      Keyed-modify event_pk event.id (written now saved jitter results event r) outbox
        (λ x. unfold overwrite in refl) d

  pub Current-step :
      (event : OutboxEvent) (events outbox : List OutboxEvent)
      → has event_pk event.id events ≡ false
      → Current outbox events
      → Current (step event outbox) events
  Current-step event [] outbox fresh h = tt
  Current-step event (e ∷ events) outbox fresh h = (
    find-row_step_ne e.id event (result_of event.id results) outbox (ground arith) ∙ h.0,
    Current-step event events outbox (ground arith) h.1,
  )

  -- A row that no fetched event names is left as it was.
  pub find-settled_rows_ne :
      (j : ℕ) (events outbox : List OutboxEvent)
      → has event_pk j events ≡ false
      → find event_pk j (settled_rows now saved jitter results events outbox)
        ≡ find event_pk j outbox
  unfolding settled_rows
  find-settled_rows_ne j [] outbox h = refl
  find-settled_rows_ne j (event ∷ events) outbox h =
      find-settled_rows_ne j events (step event outbox) (ground arith)
      ∙ find-row_step_ne j event (result_of event.id results) outbox (ground arith)

  -- The row of every fetched event is its outcome.
  pub find-settled_rows :
      (events outbox : List OutboxEvent)
      → Keyed event_pk events
      → Current outbox events
      → All
          (λ e.
            find event_pk e.id (settled_rows now saved jitter results events outbox)
            ≡ some (outcome e (result_of e.id results)))
          events
  unfolding settled_rows
  find-settled_rows [] outbox d h = tt
  find-settled_rows (event ∷ events) outbox d h = (
    find-settled_rows_ne event.id events (step event outbox) d.0
        ∙ find-row_step_self event (result_of event.id results) outbox h.0,
    find-settled_rows events (step event outbox) d.1 (Current-step event events outbox d.0 h.1),
  )

  -- One event leaves the pending ones, or stays and counts for neither counter.
  outcome_count :
      (event : OutboxEvent) (o : Option Verdict) (outbox : List OutboxEvent)
      → Keyed event_pk outbox
      → find event_pk event.id outbox ≡ some event
      → is_pending event.status ≡ true
      → count_pending (row_step now saved jitter results event o outbox)
          + (gain_delivered now saved jitter results o
              + gain_failed now saved jitter results event o)
        ≡ count_pending outbox
  outcome_count event none outbox d h p = omega arith
  outcome_count event (some r) outbox d h p =
      unfold settle overwrite in
      ground (
        arith,
        count_if-modify event_pk (λ e. is_pending e.status) event.id
            (written now saved jitter results event r) outbox d h,
      )

  pub count_pending-settled_rows :
      (events outbox : List OutboxEvent)
      → Keyed event_pk outbox
      → Keyed event_pk events
      → Current outbox events
      → All (λ e. is_pending e.status ≡ true) events
      → count_pending (settled_rows now saved jitter results events outbox)
          + (total_delivered now saved jitter results events
              + total_failed now saved jitter results events)
        ≡ count_pending outbox
  unfolding settled_rows total_delivered total_failed
  count_pending-settled_rows [] outbox d de h p = omega arith
  count_pending-settled_rows (event ∷ events) outbox d de h p = omega (
    arith,
    outcome_count event (result_of event.id results) outbox d h.0 p.0,
    count_pending-settled_rows events (step event outbox)
        (Keyed-row_step event (result_of event.id results) outbox d) de.1
        (Current-step event events outbox de.0 h.1) p.1,
  )
