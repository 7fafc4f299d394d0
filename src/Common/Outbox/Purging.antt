-- ===== src/Common/Outbox/Purging.antt =====
-- Runs of the cleanup task (common/tasks.py) one after the other: the backlog comes to an end.
use doorito.Base.{
  ℕ, zero, suc, ◌-◌, ◌*◌, ◌≡◌, refl, ◌∙◌, arith, count_if, filter, not, elem, ◌==◌, Bool-cases, inl,
  inr,
}
use doorito.Base.Table.{Keyed}
use doorito.Base.Sorting.{Keyed-filter}
use doorito.World.{World}
use doorito.Common.Tasks.{outbox_retention_hours, cleanup_delivered_outbox_events_task}
use doorito.Common.Outbox.Cleanup.{is_stale, batch_pks, cleanup_delivered_events}
use doorito.Common.Outbox.Rows.{event_pk}
use doorito.Common.Outbox.Retention.{cleanup_delivered_events-Cleans}

-- The task that many times, at one instant.
unfoldable pub clean_times : ℕ → ℕ → World → World
clean_times now zero w = w
clean_times now (suc n) w = clean_times now n (cleanup_delivered_outbox_events_task now w).1

task-Keyed :
    (now : ℕ) (w : World)
    → Keyed event_pk w.db.outbox
    → Keyed event_pk (cleanup_delivered_outbox_events_task now w).1.db.outbox
unfolding cleanup_delivered_outbox_events_task cleanup_delivered_events
task-Keyed now w d =
    let pks = batch_pks outbox_retention_hours now w.db.outbox in
    elim (Bool-cases (count_if (is_stale outbox_retention_hours now) w.db.outbox == 0)) [
      | inl nothing ↦ rw nothing d
      | inr something ↦
          rw something (Keyed-filter event_pk (λ e. not (elem e.id pks)) w.db.outbox d)
    ]

-- In a table with distinct primary keys, n runs of the cleanup task at one instant leave 1000 times
-- n fewer of the terminal events past the retention time of 168 hours, or none if there were no
-- more; and they leave all other events, in their order.
pub clean_times_drains :
    (now n : ℕ) (w : World)
    → Keyed event_pk w.db.outbox
    → let after = clean_times now n w in
      (count_if (is_stale outbox_retention_hours now) after.db.outbox
        ≡ count_if (is_stale outbox_retention_hours now) w.db.outbox - 1000 * n)
      × (filter (λ e. not (is_stale outbox_retention_hours now e)) after.db.outbox
          ≡ filter (λ e. not (is_stale outbox_retention_hours now e)) w.db.outbox)
unfolding clean_times cleanup_delivered_outbox_events_task
clean_times_drains now zero w d = (omega arith, refl)
clean_times_drains now (suc n) w d =
    let v = (cleanup_delivered_outbox_events_task now w).1 in
    let (s, ran, deleted, sum, left, others) =
      cleanup_delivered_events-Cleans outbox_retention_hours now w d in
    let (fewer, rest) = clean_times_drains now n v (task-Keyed now w d) in
    (omega (arith, deleted, sum, left, fewer), rest ∙ others)
