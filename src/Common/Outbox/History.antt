-- ===== src/Common/Outbox/History.antt =====
-- Every history of service calls on the outbox (common/services/outbox.py and the action of
-- common/admin.py), in any order and with any surroundings.
use doorito.Base.{ℕ, ◌≡◌, Bool, Option, String, [], ◌∷◌, arith, Bool-cases, inl, inr, any, ◌++◌}
use doorito.World.{World}
use doorito.Common.Models.{Payload}
use doorito.Common.Transactions.{Transactions, register}
use doorito.Common.Webhook.{Http}
use doorito.Common.Admin.{retry_failed_events}
use doorito.Common.Outbox.Emit.{Draw, emit_event, new_event, clashes}
use doorito.Common.Outbox.Cleanup.{cleanup_delivered_events}
use doorito.Common.Outbox.Deliver.{Ending, finished, out_of_time, crashed}
use doorito.Common.Outbox.Process.{Run, process_pending_events}
use doorito.Common.Outbox.Sweep.{
  sweep, sweep_ending, events_of, progress_of, process_pending_events-eq,
}
use doorito.Common.Outbox.Validity.{IsConsistent, Unclashed-Keyed}
use doorito.Common.Outbox.Invariant.{
  emit_event-IsConsistent, process_pending_events-IsConsistent,
  cleanup_delivered_events-IsConsistent, retry_failed_events-IsConsistent,
}

-- Between two calls no transaction is open and no callback waits.
abbrev pub Quiet : World → Type 0
Quiet w = (w.hooks ≡ 0) × (w.depth ≡ 0)

module _ (tx : Transactions) (http : Http) where
  pub data Step : World → World → Type 0 where
    emit :
        (type id event_type : String) (payload : Option Payload) (key : Option String) (draw : Draw)
        (w : World)
        → Step w (emit_event tx type id event_type payload key draw w).1
    process :
        (run : Run) (batch_size : ℕ) (w : World)
        → Step w (process_pending_events tx http run batch_size w).1
    cleanup :
        (retention_hours now : ℕ) (w : World)
        → Step w (cleanup_delivered_events retention_hours now w).1
    retry :
        (selected : ℕ → Bool) (now : ℕ) (w : World) → Step w (retry_failed_events selected now w).1

  pub data Reach (start : World) : World → Type 0 where
    here : Reach start start
    next : {v w : World} → Reach start v → Step v w → Reach start w

  abbrev pub Good : World → Type 0
  Good w = Quiet w × IsConsistent w.db.outbox

  register-Quiet : (w : World) → Quiet w → Quiet (register w)
  unfolding register
  register-Quiet w q = ground arith

  emit-Quiet :
      (type id event_type : String) (payload : Option Payload) (key : Option String) (draw : Draw)
      (w : World)
      → Quiet w
      → Quiet (emit_event tx type id event_type payload key draw w).1
  unfolding emit_event
  emit-Quiet type id event_type payload key draw w q =
      let new = new_event type id event_type payload key draw in
      elim (Bool-cases (any (clashes new) w.db.outbox)) [
        | inl clash ↦ rw clash q
        | inr fresh ↦
            let w' = record w { db = record w.db { outbox = w.db.outbox ++ new ∷ [] } } in
            rw (fresh, tx.on_commit_runs w') (register-Quiet w' q)
      ]

  ending-Quiet :
      (run : Run) (batch_size : ℕ) (ending : Ending) (w : World)
      → Quiet w
      → Quiet (sweep_ending http run (events_of http run batch_size w) ending w).1
  ending-Quiet run batch_size finished w q = q
  ending-Quiet run batch_size out_of_time w q = q
  ending-Quiet run batch_size (crashed m) w q = q

  pub process-Quiet :
      (run : Run) (batch_size : ℕ) (w : World)
      → Good w
      → Quiet (process_pending_events tx http run batch_size w).1
  unfolding sweep
  process-Quiet run batch_size w g =
      rw
        (process_pending_events-eq tx http run batch_size w g.0.0
          (Unclashed-Keyed w.db.outbox g.1.unclashed))
        (ending-Quiet run batch_size
          (progress_of http run (events_of http run batch_size w) w).ending w g.0)

  cleanup-Quiet :
      (retention_hours now : ℕ) (w : World)
      → Quiet w
      → Quiet (cleanup_delivered_events retention_hours now w).1
  unfolding cleanup_delivered_events
  cleanup-Quiet retention_hours now w q = ground arith

  pub Step-Good : {v w : World} → Step v w → Good v → Good w
  Step-Good (emit type id event_type payload key draw w) g = (
    emit-Quiet type id event_type payload key draw w g.0,
    emit_event-IsConsistent tx type id event_type payload key draw w g.1,
  )
  Step-Good (process run batch_size w) g = (
    process-Quiet run batch_size w g,
    process_pending_events-IsConsistent tx http run batch_size w g.0.0 g.1,
  )
  Step-Good (cleanup retention_hours now w) g = (
    cleanup-Quiet retention_hours now w g.0,
    cleanup_delivered_events-IsConsistent retention_hours now w g.1,
  )
  Step-Good (retry selected now w) g =
      (unfold retry_failed_events in g.0, retry_failed_events-IsConsistent selected now w g.1)

  pub Reach-Good : {start w : World} → Good start → Reach start w → Good w
  Reach-Good g here = g
  Reach-Good g (next r s) = Step-Good s (Reach-Good g r)

  -- From an empty outbox with no open transaction, after any sequence of emissions, delivery runs,
  -- cleanups and retries, no two events share a primary key or an event type with an idempotency
  -- key, and every event obeys the lifecycle.
  pub history-IsConsistent :
      {start w : World}
      → Quiet start
      → start.db.outbox ≡ []
      → Reach start w
      → IsConsistent w.db.outbox
  history-IsConsistent q e r = (Reach-Good (q, rw e (record { valid = tt; unclashed = tt })) r).1
