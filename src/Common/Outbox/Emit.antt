-- ===== src/Common/Outbox/Emit.antt =====
-- `emit_event` of common/services/outbox.py, and the constraints of the table `outbox_event`
-- (common/models.py): the primary key, and the pair of event type and idempotency key.
use Prim.Native.String.{◌++◌}
use doorito.Base.{
  ℕ, ◌==◌, Bool, Option, none, some, String, [], ◌∷◌, ◌++◌ as append, ◌&&◌, ◌||◌, any, str_eq,
  if◌then◌else◌,
}
use doorito.World.{Action, ok, err, integrity_error, pure, ◌>>=◌, ◌>>◌}
use doorito.Common.Models.{Payload, OutboxEvent, pending}
use doorito.Common.Transactions.{Transactions}

-- The two constraints, between a row of the table and a new one.
unfoldable pub clashes : OutboxEvent → OutboxEvent → Bool
clashes new row =
    (new.id == row.id)
    || (str_eq new.event_type row.event_type && str_eq new.idempotency_key row.idempotency_key)

-- `OutboxEvent.objects.create`
unfoldable pub create_event : OutboxEvent → Action OutboxEvent
unfolding clashes
create_event event w =
    if any (clashes event) w.db.outbox
    then (err integrity_error, w)
    else (ok event, record w { db = record w.db { outbox = append w.db.outbox (event ∷ []) } })

-- `idempotency_key or f"{aggregate_type}:{aggregate_id}"`: an empty key counts as none.
unfoldable pub key_or_default : Option String → String → String → String
key_or_default none aggregate_type aggregate_id = aggregate_type ++ (":" ++ aggregate_id)
key_or_default (some key) aggregate_type aggregate_id =
    if str_eq key "" then aggregate_type ++ (":" ++ aggregate_id) else key

unfoldable pub payload_or_empty : Option Payload → Payload
payload_or_empty none = []
payload_or_empty (some payload) = payload

-- What a call draws from its surroundings: a fresh UUID, the clock when `next_attempt_at` is set,
-- and the clock when the row is saved.
pub record Draw : Type 0 where
  pub id : ℕ
  pub now : ℕ
  pub saved : ℕ

-- The row that `emit_event` writes.
unfoldable pub new_event :
    String → String → String → Option Payload → Option String → Draw → OutboxEvent
unfolding key_or_default payload_or_empty
new_event aggregate_type aggregate_id event_type payload idempotency_key draw = record {
  id = draw.id;
  aggregate_type = aggregate_type;
  aggregate_id = aggregate_id;
  event_type = event_type;
  payload = payload_or_empty payload;
  status = pending;
  idempotency_key = key_or_default idempotency_key aggregate_type aggregate_id;
  attempts = 0;
  max_attempts = 5;
  next_attempt_at = some draw.now;
  delivered_at = none;
  error_message = "";
  created_at = draw.saved;
  updated_at = draw.saved;
}

module _ (tx : Transactions) where
  unfoldable pub emit_event :
      String → String → String → Option Payload → Option String → Draw → Action OutboxEvent
  unfolding new_event create_event
  emit_event aggregate_type aggregate_id event_type payload idempotency_key draw = do
    event ←
        create_event (new_event aggregate_type aggregate_id event_type payload idempotency_key draw)
    tx.on_commit
    pure event
