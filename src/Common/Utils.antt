-- ===== src/Common/Utils.antt =====
-- common/utils.py: `safe_dispatch`, and the one block of code that the services put under it.
use doorito.Base.{◌+◌, if◌then◌else◌}
use doorito.World.{World, Action, Result, ok, err, broker_error}

abbrev swallow : Result (Unit {0}) × World → Result (Unit {0}) × World
swallow (ok a, w) = (ok tt, w)
swallow (err e, w) = (ok tt, w)

-- The body of the `with` statement runs; an exception of it is logged and goes no further.
unfoldable pub safe_dispatch : Action (Unit {0}) → Action (Unit {0})
safe_dispatch body w = swallow (body w)

-- `deliver_outbox_events_task.delay()`
unfoldable pub delay : Action (Unit {0})
delay w = if w.broker_up then (ok tt, record w { sent = w.sent + 1 }) else (err broker_error, w)

-- `_dispatch`, the callback that `emit_event` registers.
unfoldable pub dispatch : Action (Unit {0})
unfolding safe_dispatch delay
dispatch = safe_dispatch delay
