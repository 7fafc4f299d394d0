-- ===== src/Common/Outbox/Retention.antt =====
-- What `cleanup_delivered_events` (common/services/outbox.py) deletes, keeps and reports.
use doorito.Base.{
  ℕ, ◌+◌, ◌-◌, ◌≡◌, refl, Bool, arith, count_if, filter, not, elem, min, ◌==◌, Bool-cases, inl, inr,
}
use doorito.Base.Table.{Keyed}
use doorito.Base.Batch.{count_if-first_pks, among-first_pks, count_if-filter-not, filter-filter-not}
use doorito.World.{World, Result, ok}
use doorito.Common.Models.{OutboxEvent}
use doorito.Common.Outbox.Cleanup.{
  cleanup_batch_size, is_stale, batch_pks, Removal, cleanup_delivered_events,
}
use doorito.Common.Outbox.Rows.{event_pk}

module _ (retention_hours now : ℕ) (w : World) where
  abbrev stale : OutboxEvent → Bool
  stale = is_stale retention_hours now

  abbrev pub Cleans : Result Removal × World → Type 0
  Cleans (r, after) =
      (s : Removal) × (r ≡ ok s)
      × (s.deleted ≡ min 1000 (count_if (is_stale retention_hours now) w.db.outbox))
      × (s.deleted + s.remaining ≡ count_if (is_stale retention_hours now) w.db.outbox)
      × (s.remaining ≡ count_if (is_stale retention_hours now) after.db.outbox)
      × (filter (λ e. not (is_stale retention_hours now e)) after.db.outbox
          ≡ filter (λ e. not (is_stale retention_hours now e)) w.db.outbox)

  -- In a table with distinct primary keys, the call returns; it deletes as many events as are
  -- terminal and past the retention time, but at most 1000; `deleted` and `remaining` add up to
  -- those there were, `remaining` is how many the table still holds, and all other events stay, in
  -- their order.
  pub cleanup_delivered_events-Cleans :
      Keyed event_pk w.db.outbox → Cleans (cleanup_delivered_events retention_hours now w)
  unfolding cleanup_delivered_events
  cleanup_delivered_events-Cleans d =
      let outbox = w.db.outbox in
      let pks = batch_pks retention_hours now outbox in
      let gone = count_if-first_pks event_pk stale cleanup_batch_size outbox d in
      let only = among-first_pks event_pk stale cleanup_batch_size outbox d in
      let left = count_if-filter-not stale (λ e. elem e.id pks) outbox only in
      let rest = filter-filter-not stale (λ e. elem e.id pks) outbox only in
      elim (Bool-cases (count_if stale outbox == 0)) [
        | inl none_stale ↦ rw none_stale (
          record { deleted = 0; remaining = 0 },
          refl,
          ground arith,
          ground arith,
          ground arith,
          refl,
        )
        | inr some_stale ↦ rw some_stale (
          record {
            deleted = count_if (λ e. elem e.id pks) outbox;
            remaining = count_if stale outbox - count_if (λ e. elem e.id pks) outbox;
          },
          refl,
          gone,
          omega (arith, gone),
          omega (arith, left, gone),
          rest,
        )
      ]
