-- ===== src/Common/Labels.antt =====
-- The `__str__` methods of common/models.py.
use Prim.Native.String.{◌++◌}
use doorito.Base.{String, if◌then◌else◌}
use doorito.Common.Models.{OutboxEvent, WebhookEndpoint}
use doorito.Schema.Statuses.{event_choice}

unfoldable pub str_event : OutboxEvent → String
str_event e = e.event_type ++ (" (" ++ ((event_choice e.status).1 ++ ")"))

unfoldable pub str_endpoint : WebhookEndpoint → String
str_endpoint e = e.url ++ (" (" ++ ((if e.is_active then "active" else "inactive") ++ ")"))
