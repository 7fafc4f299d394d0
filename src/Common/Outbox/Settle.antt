-- ===== src/Common/Outbox/Settle.antt =====
-- Phase 3 of `process_pending_events` (common/services/outbox.py): the outcome of each event is
-- written to its row. `events` are the copies that phase 1 read.
use doorito.Base.{
  ℕ, ◌+◌, ◌-◌, ◌*◌, ◌^◌, min, Option, none, some, List, [], ◌∷◌, leb, ◌==◌, if◌then◌else◌,
}
use doorito.Base.Table.{has, modify}
use doorito.Base.Time.{seconds}
use doorito.World.{Action, ok, err, not_updated, pure, ◌>>=◌, ◌>>◌}
use doorito.Common.Models.{OutboxEvent, delivered, failed}
use doorito.Common.Outbox.Deliver.{Verdict, Results}

-- `min(60 * (2 ** (event.attempts - 1)), 3600)`, in seconds; `attempts` is at least 1 here.
unfoldable pub retry_delay : ℕ → ℕ
retry_delay attempts = min (60 * 2 ^ (attempts - 1)) 3600

-- The fields of the event in memory after a delivery with this verdict. `jitter` is the drawn
-- number of microseconds.
unfoldable pub settle : ℕ → ℕ → Verdict → OutboxEvent → OutboxEvent
settle now jitter r event =
    let attempts = event.attempts + 1 in
    if r.all_ok
    then record event {
      attempts = attempts;
      status = delivered;
      delivered_at = some now;
      next_attempt_at = none;
      error_message = "";
    }
    else if leb event.max_attempts attempts
    then record event {
      attempts = attempts;
      status = failed;
      next_attempt_at = none;
      error_message = r.error;
    }
    else record event {
      attempts = attempts;
      next_attempt_at = some (now + seconds (retry_delay attempts) + jitter);
      error_message = r.error;
    }

-- `update_fields`: these columns of the row are overwritten, and no others.
unfoldable pub overwrite : ℕ → OutboxEvent → OutboxEvent → OutboxEvent
overwrite saved event row = record row {
  status = event.status;
  attempts = event.attempts;
  delivered_at = event.delivered_at;
  next_attempt_at = event.next_attempt_at;
  error_message = event.error_message;
  updated_at = saved;
}

-- `event.save(update_fields=[…])`; a row that is gone is an error.
unfoldable pub save_event : ℕ → OutboxEvent → Action (Unit {0})
unfolding overwrite
save_event saved event w =
    if has (λ (e : OutboxEvent). e.id) event.id w.db.outbox
    then (
      ok tt,
      record w {
        db = record w.db {
          outbox = modify (λ (e : OutboxEvent). e.id) event.id (overwrite saved event) w.db.outbox;
        };
      },
    )
    else (err not_updated, w)

-- `results.get(event.pk)`
unfoldable pub result_of : ℕ → Results → Option Verdict
result_of id [] = none
result_of id ((j, r) ∷ results) = if id == j then some r else result_of id results

-- What the two counters gain in the branch that is taken.
abbrev pub delivered_one : Verdict → ℕ
delivered_one r = if r.all_ok then 1 else 0

abbrev pub failed_one : Verdict → OutboxEvent → ℕ
failed_one r event =
    if r.all_ok then 0 else if leb event.max_attempts (event.attempts + 1) then 1 else 0

module _ (now saved : ℕ) (jitter : ℕ → ℕ) (results : Results) where
  -- The body of the loop, before `rest`.
  abbrev pub save_one : OutboxEvent → Option Verdict → Action (ℕ × ℕ) → Action (ℕ × ℕ)
  save_one event none rest = rest
  save_one event (some r) rest = do
    save_event saved (settle now (jitter event.id) r event)
    (d, f) ← rest
    pure (delivered_one r + d, failed_one r event + f)

  -- The loop: the numbers of delivered and of failed events.
  unfoldable pub save_results : List OutboxEvent → Action (ℕ × ℕ)
  unfolding settle save_event result_of
  save_results [] = pure (0, 0)
  save_results (event ∷ events) =
      let rest = save_results events in save_one event (result_of event.id results) rest
