-- ===== src/Schema/Fitting.antt =====
-- Every history of the outbox whose emissions keep to the widths of the columns.
use Prim.Native.String.{count}
use doorito.Base.{
  ℕ, ◌≤◌, ◌≡◌, refl, sym, ◌∙◌, inl, inr, Bool, true, Option, some, String, [], ◌∷◌, ◌++◌, All, any,
  arith, Bool-cases, filter, not, elem, count_if, ◌==◌, if◌then◌else◌,
}
use doorito.Base.Table.{Keyed, find, find_own, All-find}
use doorito.Base.Sorting.{All-filter, All-weaken}
use doorito.World.{World}
use doorito.Common.Models.{OutboxEvent, Payload}
use doorito.Common.Transactions.{Transactions}
use doorito.Common.Webhook.{Http}
use doorito.Common.Outbox.Emit.{Draw, new_event, emit_event, clashes}
use doorito.Common.Outbox.History.{
  Quiet, Step, Reach, Good, Step-Good, emit, process, cleanup, retry, here, next, Reach-Good,
}
use doorito.Common.Outbox.Rows.{event_pk}
use doorito.Common.Outbox.Invariant.{outbox-register}
use doorito.Base.Members.{All-map}
use doorito.Common.Outbox.Validity.{IsConsistent, All-append, Unclashed-Keyed}
use doorito.Common.Outbox.Cleanup.{cleanup_delivered_events, batch_pks, is_stale}
use doorito.Common.Admin.{retry_failed_events, retryable, reset}
use doorito.Schema.Cells.{event_cell}
use doorito.Schema.Lengths.{fits}
use doorito.Schema.Migrator.{Migrator, target, run, steps}
use doorito.Schema.Plan.{plan, Start}
use doorito.Schema.Agreement.{plan-run}
use doorito.Common.Outbox.Accounting.{RowFate, process-RowFate}
use doorito.Common.Outbox.Process.{Run, process_pending_events}
use doorito.Common.Outbox.Settle.{settle, overwrite}
use doorito.Schema.Lengths.{
  Bounded, KeyFits, new-Bounded, overwrite-Bounded, reset-Bounded, Bounded-fits,
}

module _ (tx : Transactions) (http : Http) where
  -- The arguments of an emission keep to the widths; the other calls write none of these texts.
  abbrev pub Within : {v w : World} → Step tx http v w → Type 0
  Within (emit type id event_type payload key draw w) =
      (count type ≤ 100) × (count id ≤ 100) × (count event_type ≤ 100) × KeyFits key
  Within (process run batch_size w) = Unit
  Within (cleanup retention_hours now w) = Unit
  Within (retry selected now w) = Unit

  pub data Kept (start : World) : World → Type 0 where
    begin : Kept start start
    further : {v w : World} → Kept start v → (s : Step tx http v w) → Within s → Kept start w

  Kept-Reach : {start w : World} → Kept start w → Reach tx http start w
  Kept-Reach begin = here
  Kept-Reach (further k s b) = next (Kept-Reach k) s

  -- Every event keeps to the widths.
  abbrev pub Widths : World → Type 0
  Widths w = All Bounded w.db.outbox

  -- What has become of a row keeps to the widths if the rows before did.
  fate-Bounded :
      (run : Run) (batch_size : ℕ) (w : World) (e : OutboxEvent) (after : World)
      → find event_pk e.id after.db.outbox ≡ some e
      → RowFate tx http run batch_size w e.id after
      → Widths w
      → Bounded e
  fate-Bounded run batch_size w e after own (inl same) h =
      All-find event_pk Bounded e.id {x = e} w.db.outbox h (sym same ∙ own)
  fate-Bounded run batch_size w e after own (inr (f, was, due, (r, now))) h =
      let b = All-find event_pk Bounded e.id {x = f} w.db.outbox h was in
      let result = overwrite run.saved (settle run.finished_at (run.jitter f.id) r f) f in
      let is : result ≡ e = ground arith in rw (← is) (overwrite-Bounded run.saved _ f b)

  emit-Widths :
      (type id event_type : String) (payload : Option Payload) (key : Option String) (draw : Draw)
      (w : World)
      → count type ≤ 100
      → count id ≤ 100
      → count event_type ≤ 100
      → KeyFits key
      → Widths w
      → Widths (emit_event tx type id event_type payload key draw w).1
  unfolding emit_event
  emit-Widths type id event_type payload key draw w ht hi he hk h =
      let new = new_event type id event_type payload key draw in
      elim (Bool-cases (any (clashes new) w.db.outbox)) [
        | inl clash ↦ rw clash h
        | inr fresh ↦
            let w' = record w { db = record w.db { outbox = w.db.outbox ++ new ∷ [] } } in
            rw (fresh, tx.on_commit_runs w', outbox-register tx w')
              (All-append Bounded new w.db.outbox h
                (new-Bounded type id event_type payload key draw ht hi he hk))
      ]

  process-Widths :
      (run : Run) (batch_size : ℕ) (w : World)
      → Quiet w
      → Keyed event_pk w.db.outbox
      → Keyed event_pk (process_pending_events tx http run batch_size w).1.db.outbox
      → Widths w
      → Widths (process_pending_events tx http run batch_size w).1
  process-Widths run batch_size w q d d' h =
      let after = (process_pending_events tx http run batch_size w).1 in
      All-weaken
        (λ e own.
          fate-Bounded run batch_size w e after own
            (process-RowFate tx http run batch_size w e.id q.0 d) h)
        after.db.outbox (find_own event_pk after.db.outbox d')

  cleanup-Widths :
      (retention_hours now : ℕ) (w : World)
      → Widths w
      → Widths (cleanup_delivered_events retention_hours now w).1
  unfolding cleanup_delivered_events
  cleanup-Widths retention_hours now w h =
      let kept : OutboxEvent → Bool =
        λ e. not (elem e.id (batch_pks retention_hours now w.db.outbox)) in
      elim (Bool-cases (count_if (is_stale retention_hours now) w.db.outbox == 0)) [
        | inl none_stale ↦ rw none_stale h
        | inr some_stale ↦ rw some_stale (
            All-weaken (λ e k. k.0) (filter kept w.db.outbox)
              (All-filter Bounded kept w.db.outbox h))
      ]

  retry-Widths :
      (selected : ℕ → Bool) (now : ℕ) (w : World)
      → Widths w
      → Widths (retry_failed_events selected now w).1
  unfolding retry_failed_events
  retry-Widths selected now w h =
      All-map Bounded (λ e. if retryable selected e then reset now e else e) w.db.outbox
        (λ e b. elim (Bool-cases (retryable selected e)) [
          | inl yes_ ↦ rw yes_ (reset-Bounded now e b)
          | inr no_ ↦ rw no_ b
        ])
        h

  Step-Widths :
      {v w : World} (s : Step tx http v w)
      → Within s
      → Quiet v
      → IsConsistent v.db.outbox
      → IsConsistent w.db.outbox
      → Widths v
      → Widths w
  Step-Widths (emit type id event_type payload key draw w) b q c c' h =
      emit-Widths type id event_type payload key draw w b.0 b.1 b.2 b.3 h
  Step-Widths (process run batch_size w) b q c c' h =
      process-Widths run batch_size w q (Unclashed-Keyed w.db.outbox c.unclashed)
        (Unclashed-Keyed _ c'.unclashed) h
  Step-Widths (cleanup retention_hours now w) b q c c' h = cleanup-Widths retention_hours now w h
  Step-Widths (retry selected now w) b q c c' h = retry-Widths selected now w h

  start-Good : (start : World) → Quiet start → start.db.outbox ≡ [] → Good tx http start
  start-Good start q e = (q, rw e (record { valid = tt; unclashed = tt }))

  Kept-Widths :
      (start : World) {w : World} → Quiet start → start.db.outbox ≡ [] → Kept start w → Widths w
  Kept-Widths start q e begin = rw e tt
  Kept-Widths start q e (further {v} {w} k s b) =
      let good = Reach-Good tx http {start = start} {w = v} (start-Good start q e) (Kept-Reach k) in
      let later = Step-Good tx http {v = v} {w = w} s good in
      Step-Widths s b good.0 good.1 later.1 (Kept-Widths start q e k)

-- From an empty outbox with no open transaction, after any sequence of delivery runs, cleanups,
-- retries and emissions whose aggregate type, aggregate id and event type have at most 100 characters
-- and whose idempotency key, if one is given, has at most 255, every event fits all columns as the
-- migrations of the three apps build them, also with the key that the code makes itself.
pub history_fits {ℓ} :
    {S : Type ℓ} (mg : Migrator S) (initial : S) (tx : Transactions) (http : Http) {start w : World}
    → Start mg initial
    → Quiet start
    → start.db.outbox ≡ []
    → Kept tx http start w
    → (s : S) × (run mg (steps plan) initial ≡ some s)
      × All (λ e. fits (mg.model s "common.outboxevent") (event_cell e) ≡ true) w.db.outbox
unfolding target
history_fits mg initial tx http {start} {w} schema q e k =
    let (s, ran, models) = plan-run mg initial schema in
    (
      s,
      ran,
      rw (models "common.outboxevent" refl)
          (All-weaken Bounded-fits w.db.outbox (Kept-Widths tx http start q e k)),
    )
