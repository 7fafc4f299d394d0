-- ===== src/Common/Outbox/Process.antt =====
-- `process_pending_events` of common/services/outbox.py: the three phases together.
use doorito.Base.{ℕ, Bool, List, [], ◌∷◌, count_if, length}
use doorito.World.{Action, ok, unexpected, pure, raise, gets, ◌>>=◌, ◌>>◌}
use doorito.Common.Models.{OutboxEvent, is_pending}
use doorito.Common.Transactions.{Transactions}
use doorito.Common.Webhook.{Http}
use doorito.Common.Outbox.Fetch.{fetch_due, active_endpoints}
use doorito.Common.Outbox.Deliver.{Progress, Ending, finished, out_of_time, crashed, deliver_events}
use doorito.Common.Outbox.Settle.{save_results}

-- `OutboxEvent.objects.filter(status=PENDING).count()`
abbrev pub count_pending : List OutboxEvent → ℕ
count_pending = count_if (λ e. is_pending e.status)

-- The dict that is returned.
pub record Summary : Type 0 where
  pub processed : ℕ
  pub delivered : ℕ
  pub failed : ℕ
  pub remaining : ℕ

-- What a run draws from its surroundings: the two readings of the clock, the clock at the saves,
-- the rows that others hold, and the random jitter of each event.
pub record Run : Type 0 where
  pub started : ℕ
  pub finished_at : ℕ
  pub saved : ℕ
  pub locked : ℕ → Bool
  pub jitter : ℕ → ℕ

-- An exception that the `except` clause does not name leaves the function.
abbrev pub uncaught : Ending → Action (Unit {0})
uncaught finished = pure tt
uncaught out_of_time = pure tt
uncaught (crashed message) = raise (unexpected message)

module _ (tx : Transactions) (http : Http) (run : Run) where
  -- Phase 2 as an action: the requests are made, whatever comes after.
  unfoldable pub deliver_phase : List OutboxEvent → Action Progress
  unfolding deliver_events active_endpoints
  deliver_phase events w =
      let progress = deliver_events http (active_endpoints w.db.endpoints) events w.requests in
      (ok progress, record w { requests = progress.log })

  -- What follows the test `if not events`.
  unfoldable pub process_fetched : List OutboxEvent → Action Summary
  unfolding deliver_phase save_results
  process_fetched events = do
    progress ← deliver_phase events
    uncaught progress.ending
    (d, f) ←
        tx.atomic (ℕ × ℕ)
          (save_results run.finished_at run.saved run.jitter progress.results events)
    remaining ← gets (λ w. count_pending w.db.outbox)
    pure (record {
      processed = length progress.results;
      delivered = d;
      failed = f;
      remaining = remaining;
    })

  abbrev pub process_or_stop : List OutboxEvent → Action Summary
  process_or_stop [] = do
    remaining ← gets (λ w. count_pending w.db.outbox)
    pure (record { processed = 0; delivered = 0; failed = 0; remaining = remaining })
  process_or_stop (event ∷ events) = process_fetched (event ∷ events)

  unfoldable pub process_pending_events : ℕ → Action Summary
  unfolding fetch_due process_fetched
  process_pending_events batch_size = do
    events ←
        tx.atomic (List OutboxEvent)
          (gets (λ w. fetch_due run.locked run.started batch_size w.db.outbox))
    process_or_stop events
