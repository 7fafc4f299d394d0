-- ===== src/Common/Models.antt =====
-- common/models.py: the rows of the tables `outbox_event` and `webhook_endpoint`.
-- Primary keys are UUIDs, which the code only compares and orders: numbers here.
use doorito.Base.{ℕ, Bool, Option, String, List, true, false}

-- A payload is a flat JSON object: the values that the services put into one.
pub data Value : Type 0 where
  text : String → Value
  number : ℕ → Value

abbrev pub Payload : Type 0
Payload = List (String × Value)

-- `OutboxEvent.Status`
pub data EventStatus : Type 0 where
  pending delivered failed : EventStatus

abbrev pub is_pending : EventStatus → Bool
is_pending pending = true
is_pending _ = false

abbrev pub is_terminal : EventStatus → Bool
is_terminal pending = false
is_terminal delivered = true
is_terminal failed = true

pub record OutboxEvent : Type 0 where
  pub id : ℕ
  pub aggregate_type : String
  pub aggregate_id : String
  pub event_type : String
  pub payload : Payload
  pub status : EventStatus
  pub idempotency_key : String
  pub attempts : ℕ
  pub max_attempts : ℕ
  pub next_attempt_at : Option ℕ
  pub delivered_at : Option ℕ
  pub error_message : String
  pub created_at : ℕ
  pub updated_at : ℕ

pub record WebhookEndpoint : Type 0 where
  pub id : ℕ
  pub url : String
  pub secret : String
  pub event_types : List String
  pub is_active : Bool
  pub created_at : ℕ
