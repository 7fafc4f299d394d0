-- ===== src/Common/Admin.antt =====
-- common/admin.py: the action `retry_failed_events` on the rows that an administrator selects.
use doorito.Base.{ℕ, Bool, ◌&&◌, some, map, count_if, if◌then◌else◌, true, false}
use doorito.World.{Action, ok}
use doorito.Common.Models.{OutboxEvent, EventStatus, pending, failed}

abbrev pub is_failed : EventStatus → Bool
is_failed failed = true
is_failed _ = false

-- `queryset.filter(status=FAILED)`
abbrev pub retryable : (ℕ → Bool) → OutboxEvent → Bool
retryable selected e = selected e.id && is_failed e.status

-- `.update(…)` sets four columns and leaves `updated_at` alone.
abbrev pub reset : ℕ → OutboxEvent → OutboxEvent
reset now e = record e {
  status = pending;
  next_attempt_at = some now;
  error_message = "";
  attempts = 0;
}

-- The number of rows that were reset, which the message to the user names.
unfoldable pub retry_failed_events : (ℕ → Bool) → ℕ → Action ℕ
retry_failed_events selected now w = (
  ok (count_if (retryable selected) w.db.outbox),
  record w {
    db = record w.db {
      outbox = map (λ e. if retryable selected e then reset now e else e) w.db.outbox;
    };
  },
)
