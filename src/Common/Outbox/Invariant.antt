-- ===== src/Common/Outbox/Invariant.antt =====
-- Every service that writes to the outbox keeps its table consistent.
use doorito.Base.Members.{All-map}
use doorito.Base.{
  ℕ, ◌≡◌, refl, inl, inr, Bool, true, Option, none, some, String, List, [], ◌∷◌, ◌++◌, ◌==◌, All,
  arith, Bool-cases, any, filter, map, not, elem, count_if, ◌&&◌, if◌then◌else◌,
}
use doorito.Base.Table.{find, modify, Keyed, All-modify}
use doorito.Base.Sorting.{All-weaken, All-filter}
use doorito.World.{World}
use doorito.Common.Models.{OutboxEvent, Payload, pending, is_pending, EventStatus}
use doorito.Common.Outbox.Fetch.{due}
use doorito.Common.Transactions.{Transactions, register}
use doorito.Common.Utils.{dispatch}
use doorito.Common.Webhook.{Http}
use doorito.Common.Admin.{retry_failed_events, retryable, reset}
use doorito.Common.Outbox.Emit.{new_event, Draw, clashes, emit_event}
use doorito.Common.Outbox.Cleanup.{cleanup_delivered_events, is_stale, batch_pks}
use doorito.Common.Outbox.Deliver.{Verdict, Results, Ending, crashed}
use doorito.Common.Outbox.Settle.{overwrite, result_of}
use doorito.Common.Outbox.Process.{Run, process_pending_events}
use doorito.Common.Outbox.Rows.{event_pk, written, row_step, settled_rows}
use doorito.Common.Outbox.Outcomes.{Current, step, Current-step}
use doorito.Common.Outbox.Sweep.{
  Idle, fetch_due-Fetched, fetch_due-Keyed, events_of, progress_of, sweep_ending, sweep,
  process_pending_events-eq,
}
use doorito.Common.Outbox.Validity.{
  IsValid, IsConsistent, Unclashed, Unclashed-Keyed, Unclashed-append, Unclashed-map,
  Unclashed-filter, All-append, new_event-IsValid, written-IsValid,
}

-- A write of one row, as a map over the table.
modify-eq-map :
    (k : ℕ) (f : OutboxEvent → OutboxEvent) (xs : List OutboxEvent)
    → modify event_pk k f xs ≡ map (λ e. if k == e.id then f e else e) xs
modify-eq-map k f [] = refl
modify-eq-map k f (x ∷ xs) = rw (modify-eq-map k f xs)

module _ (now saved : ℕ) (jitter : ℕ → ℕ) (results : Results) where
  Unclashed-step :
      (event : OutboxEvent) (o : Option Verdict) (outbox : List OutboxEvent)
      → Unclashed outbox
      → Unclashed (row_step now saved jitter results event o outbox)
  Unclashed-step event none outbox u = u
  Unclashed-step event (some r) outbox u =
      let f = written now saved jitter results event r in
      rw (modify-eq-map event.id f outbox) (
        Unclashed-map (λ e. if event.id == e.id then f e else e) outbox
          (λ e. unfold overwrite in ground arith) u)

  IsValid-step :
      (event : OutboxEvent) (o : Option Verdict) (outbox : List OutboxEvent)
      → Keyed event_pk outbox
      → find event_pk event.id outbox ≡ some event
      → IsValid event
      → event.status ≡ pending
      → All IsValid outbox
      → All IsValid (row_step now saved jitter results event o outbox)
  IsValid-step event none outbox d e v p h = h
  IsValid-step event (some r) outbox d e v p h =
      All-modify event_pk IsValid event.id (written now saved jitter results event r) outbox d e
        (written-IsValid now saved jitter results r event v p) h

  -- The table stays consistent while the fetched events are written.
  pub settled_rows-IsConsistent :
      (events outbox : List OutboxEvent)
      → Keyed event_pk events
      → Current outbox events
      → All (λ e. IsValid e × (e.status ≡ pending)) events
      → IsConsistent outbox
      → IsConsistent (settled_rows now saved jitter results events outbox)
  unfolding settled_rows
  settled_rows-IsConsistent [] outbox d h v c = c
  settled_rows-IsConsistent (event ∷ events) outbox d h v c =
      let o = result_of event.id results in
      settled_rows-IsConsistent events (step now saved jitter results event outbox) d.1
        (Current-step now saved jitter results event events outbox d.0 h.1) v.1
        (record {
          valid =
              IsValid-step event o outbox (Unclashed-Keyed outbox c.unclashed) h.0 v.0.0 v.0.1
                c.valid;
          unclashed = Unclashed-step event o outbox c.unclashed;
        })

-- What is found in a table has what every row has.
pub found-IsValid :
    (k : ℕ) {e : OutboxEvent} (xs : List OutboxEvent)
    → All IsValid xs
    → find event_pk k xs ≡ some e
    → IsValid e
found-IsValid k [] h f = absurd (cc)
found-IsValid k {e} (x ∷ xs) h f = elim (Bool-cases (k == x.id)) [
  | inl eq ↦ let same : x ≡ e = ground arith in rw (← same) h.0
  | inr ne ↦ found-IsValid k {e = e} xs h.1 (ground arith)
]

pub pending_of_due : (s : EventStatus) (b : Bool) → (is_pending s && b) ≡ true → s ≡ pending
pending_of_due s b h = ground arith

module _ (tx : Transactions) (http : Http) (run : Run) (batch_size : ℕ) (w : World) where
  ending-IsConsistent :
      (ending : Ending)
      → IsConsistent w.db.outbox
      → IsConsistent (sweep_ending http run (events_of http run batch_size w) ending w).1.db.outbox
  ending-IsConsistent (crashed m) c = c
  ending-IsConsistent _ c =
      let d = Unclashed-Keyed w.db.outbox c.unclashed in
      let events = events_of http run batch_size w in
      let fetched = fetch_due-Fetched run.locked run.started batch_size w.db.outbox d in
      settled_rows-IsConsistent run.finished_at run.saved run.jitter
        (progress_of http run events w).results events w.db.outbox
        (fetch_due-Keyed run.locked run.started batch_size w.db.outbox d)
        (All-weaken (λ e h. h.0) events fetched)
        (All-weaken
          (λ e h. (
            found-IsValid e.id w.db.outbox c.valid h.0,
            pending_of_due e.status (due e.next_attempt_at run.started) h.1,
          ))
          events fetched)
        c

  -- Whatever the HTTP client does, a run keeps a consistent outbox consistent.
  pub process_pending_events-IsConsistent :
      Idle w
      → IsConsistent w.db.outbox
      → IsConsistent (process_pending_events tx http run batch_size w).1.db.outbox
  unfolding sweep
  process_pending_events-IsConsistent idle c =
      rw
        (process_pending_events-eq tx http run batch_size w idle
          (Unclashed-Keyed w.db.outbox c.unclashed))
        (ending-IsConsistent (progress_of http run (events_of http run batch_size w) w).ending c)

module _ (tx : Transactions) where
  outbox-dispatch : (w : World) → (dispatch w).1.db.outbox ≡ w.db.outbox
  unfolding dispatch
  outbox-dispatch w = ground arith

  pub outbox-register : (w : World) → (register w).db.outbox ≡ w.db.outbox
  unfolding register
  outbox-register w = ground arith

  -- Outside or inside a transaction, whether or not the row is accepted, emission keeps a
  -- consistent outbox consistent.
  pub emit_event-IsConsistent :
      (type id event_type : String) (payload : Option Payload) (key : Option String) (draw : Draw)
      (w : World)
      → IsConsistent w.db.outbox
      → IsConsistent (emit_event tx type id event_type payload key draw w).1.db.outbox
  unfolding emit_event
  emit_event-IsConsistent type id event_type payload key draw w c =
      let new = new_event type id event_type payload key draw in
      elim (Bool-cases (any (clashes new) w.db.outbox)) [
        | inl clash ↦ rw clash c
        | inr fresh ↦
            let outbox = w.db.outbox ++ new ∷ [] in
            let w' = record w { db = record w.db { outbox = outbox } } in
            rw (fresh, tx.on_commit_runs w', outbox-register w')
              (record {
                valid =
                    All-append IsValid new w.db.outbox c.valid
                      (new_event-IsValid type id event_type payload key draw);
                unclashed = Unclashed-append new w.db.outbox fresh c.unclashed;
              })
      ]

-- The cleanup keeps a consistent outbox consistent.
pub cleanup_delivered_events-IsConsistent :
    (retention_hours now : ℕ) (w : World)
    → IsConsistent w.db.outbox
    → IsConsistent (cleanup_delivered_events retention_hours now w).1.db.outbox
unfolding cleanup_delivered_events
cleanup_delivered_events-IsConsistent retention_hours now w c =
    let outbox = w.db.outbox in
    let stale : OutboxEvent → Bool = is_stale retention_hours now in
    let kept : OutboxEvent → Bool = λ e. not (elem e.id (batch_pks retention_hours now outbox)) in
    elim (Bool-cases (count_if stale outbox == 0)) [
      | inl none_stale ↦ rw none_stale c
      | inr some_stale ↦ rw some_stale (record {
        valid =
            All-weaken (λ e h. h.0) (filter kept outbox) (All-filter IsValid kept outbox c.valid);
        unclashed = Unclashed-filter kept outbox c.unclashed;
      })
    ]

reset-IsValid :
    (selected : ℕ → Bool) (now : ℕ) (e : OutboxEvent)
    → IsValid e
    → IsValid (if retryable selected e then reset now e else e)
reset-IsValid selected now e v = elim (Bool-cases (retryable selected e)) [
  | inl h ↦ rw h (record {
    some_attempts = v.some_attempts;
    attempts_bounded = omega arith;
    pending_spare = λ p. v.some_attempts;
    pending_scheduled = λ p. (now, refl);
    delivered_stamped = λ p. absurd (cc);
    delivered_clean = λ p. absurd (cc);
    delivered_done = λ p. absurd (cc);
    failed_exhausted = λ p. absurd (cc);
    failed_done = λ p. absurd (cc);
  })
  | inr h ↦ rw h v
]

-- The administrator's retry keeps a consistent outbox consistent.
pub retry_failed_events-IsConsistent :
    (selected : ℕ → Bool) (now : ℕ) (w : World)
    → IsConsistent w.db.outbox
    → IsConsistent (retry_failed_events selected now w).1.db.outbox
unfolding retry_failed_events
retry_failed_events-IsConsistent selected now w c =
    let f : OutboxEvent → OutboxEvent = λ e. if retryable selected e then reset now e else e in
    record {
      valid = All-map IsValid f w.db.outbox (reset-IsValid selected now) c.valid;
      unclashed = Unclashed-map f w.db.outbox (λ e. ground arith) c.unclashed;
    }
