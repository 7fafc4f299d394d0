-- ===== src/Common/Tasks.antt =====
-- common/tasks.py: the two tasks that run the services on a schedule or on demand.
use doorito.Base.{ℕ}
use doorito.World.{Action}
use doorito.Common.Transactions.{Transactions}
use doorito.Common.Webhook.{Http}
use doorito.Common.Outbox.Fetch.{delivery_batch_size}
use doorito.Common.Outbox.Process.{Run, Summary, process_pending_events}
use doorito.Common.Outbox.Cleanup.{Removal, cleanup_delivered_events}

-- `OUTBOX_RETENTION_HOURS` of boot/settings.py.
abbrev pub outbox_retention_hours : ℕ
outbox_retention_hours = 168

unfoldable pub deliver_outbox_events_task : Transactions → Http → Run → Action Summary
unfolding process_pending_events
deliver_outbox_events_task tx http run = process_pending_events tx http run delivery_batch_size

unfoldable pub cleanup_delivered_outbox_events_task : ℕ → Action Removal
unfolding cleanup_delivered_events
cleanup_delivered_outbox_events_task now = cleanup_delivered_events outbox_retention_hours now
