-- ===== src/Common/Outbox/Cleanup.antt =====
-- `cleanup_delivered_events` of common/services/outbox.py. The comparison `created_at < now - age` is
-- written `created_at + age < now`.
use doorito.Base.{
  ℕ, ◌+◌, ◌-◌, Bool, List, ◌&&◌, not, ltb, ◌==◌, filter, elem, count_if, if◌then◌else◌,
}
use doorito.Base.Batch.{first_pks}
use doorito.Base.Time.{hours}
use doorito.World.{Action, ok}
use doorito.Common.Models.{OutboxEvent, is_terminal}

-- `CLEANUP_BATCH_SIZE`
abbrev pub cleanup_batch_size : ℕ
cleanup_batch_size = 1000

-- The filter of `terminal_qs`.
abbrev pub is_stale : ℕ → ℕ → OutboxEvent → Bool
is_stale retention_hours now e =
    is_terminal e.status && ltb (e.created_at + hours retention_hours) now

-- `{"deleted": int, "remaining": int}`
pub record Removal : Type 0 where
  pub deleted : ℕ
  pub remaining : ℕ

unfoldable pub batch_pks : ℕ → ℕ → List OutboxEvent → List ℕ
unfolding first_pks
batch_pks retention_hours now =
    first_pks (λ (e : OutboxEvent). e.id) (is_stale retention_hours now) cleanup_batch_size

unfoldable pub cleanup_delivered_events : ℕ → ℕ → Action Removal
unfolding batch_pks
cleanup_delivered_events retention_hours now w =
    let outbox = w.db.outbox in
    let total_terminal = count_if (is_stale retention_hours now) outbox in
    let pks = batch_pks retention_hours now outbox in
    let deleted_count = count_if (λ e. elem e.id pks) outbox in
    if total_terminal == 0 then (ok (record { deleted = 0; remaining = 0 }), w) else (
      ok (record { deleted = deleted_count; remaining = total_terminal - deleted_count }),
      record w { db = record w.db { outbox = filter (λ e. not (elem e.id pks)) outbox } },
    )
