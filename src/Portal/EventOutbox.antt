-- ===== src/Portal/EventOutbox.antt =====
-- portal/models.py: `PortalEventOutbox`, a table with a model that no service reads or writes.
use doorito.Base.{ℕ, Bool, Option, String, ◌==◌, ◌&&◌, ◌||◌, str_eq}
use doorito.Common.Models.{Payload}

-- `PortalEventOutbox.Status`
pub data PortalEventStatus : Type 0 where
  pending delivered failed : PortalEventStatus

pub record PortalEventOutbox : Type 0 where
  pub id : ℕ
  pub aggregate_type : String
  pub aggregate_id : String
  pub event_type : String
  pub payload : Payload
  pub status : PortalEventStatus
  pub idempotency_key : String
  pub attempts : ℕ
  pub max_attempts : ℕ
  pub next_attempt_at : Option ℕ
  pub delivered_at : Option ℕ
  pub error_message : String
  pub created_at : ℕ
  pub updated_at : ℕ

-- The primary key and `unique_portal_event_type_idempotency_key`, between two rows.
unfoldable pub portal_event_clashes : PortalEventOutbox → PortalEventOutbox → Bool
portal_event_clashes new row =
    (new.id == row.id)
    || (str_eq new.event_type row.event_type && str_eq new.idempotency_key row.idempotency_key)
