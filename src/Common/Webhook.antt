-- ===== src/Common/Webhook.antt =====
-- common/services/webhook.py: one signed POST of an event to an endpoint. The HTTP client, JSON
-- text, UTF-8, HMAC and the text of a UUID are not part of the repository: the record `Http`.
use Prim.Native.String.{◌++◌}
use doorito.Base.{ℕ, Bool, Option, none, some, String, List, [], ◌∷◌, if◌then◌else◌}
use doorito.Base.Text.{show, prefix}
use doorito.World.{Request}
use doorito.Common.Models.{Payload, OutboxEvent, WebhookEndpoint}

-- What `client.post` does: a response arrives, an `httpx.RequestError` is raised (its type's name
-- and text), the worker's soft time limit strikes, or another exception is raised.
pub data Outcome : Type 0 where
  response : ℕ → String → Outcome
  request_error : String → String → Outcome
  time_limit : Outcome
  other_error : String → Outcome

pub record Http : Type 0 where
  pub post : List Request → Request → Outcome  -- given the requests made before
  pub is_success : ℕ → Bool  -- `raise_for_status` raises on any other status
  pub dumps : Payload → List ℕ  -- `json.dumps(…).encode("utf-8")`
  pub encode : String → List ℕ  -- `.encode("utf-8")`
  pub hmac_sha256 : List ℕ → List ℕ → String  -- key, message; the hex digest
  pub str_uuid : ℕ → String

module _ (http : Http) where
  open http use {post, is_success, dumps, encode, hmac_sha256, str_uuid}

  unfoldable pub compute_signature : List ℕ → String → String
  compute_signature payload_bytes secret = hmac_sha256 (encode secret) payload_bytes

  -- The request that is sent, with its headers in order.
  unfoldable pub delivery_request : WebhookEndpoint → OutboxEvent → Request
  unfolding compute_signature
  delivery_request endpoint event =
      let payload_bytes = dumps event.payload in
      record {
        url = endpoint.url;
        content = payload_bytes;
        headers =
            ("Content-Type", "application/json")
            ∷ ("X-Webhook-Signature", compute_signature payload_bytes endpoint.secret)
            ∷ ("X-Webhook-Event", event.event_type)
            ∷ ("X-Webhook-Delivery", str_uuid event.id)
            ∷ [];
      }

-- `{"ok": bool, "status_code": int | None, "error": str}`
pub record Delivery : Type 0 where
  pub is_ok : Bool
  pub status_code : Option ℕ
  pub error : String

-- How a call of `deliver_to_endpoint` ends: a result, or an exception that it does not catch.
pub data Attempt : Type 0 where
  done : Delivery → Attempt
  time_limit : Attempt
  raised : String → Attempt

unfoldable pub read_outcome : (ℕ → Bool) → Outcome → Attempt
read_outcome is_success (response code body) =
    if is_success code
    then done (record { is_ok = Bool.true; status_code = some code; error = "" })
    else done (record {
      is_ok = Bool.false;
      status_code = some code;
      error = "HTTP " ++ (show code ++ (": " ++ prefix 200 body));
    })
read_outcome is_success (request_error kind message) =
    done (record { is_ok = Bool.false; status_code = none; error = kind ++ (": " ++ message) })
read_outcome is_success Outcome.time_limit = Attempt.time_limit
read_outcome is_success (other_error message) = raised message

module _ (http : Http) where
  -- `log` holds the requests made before; the request itself is added to it by the caller.
  unfoldable pub deliver_to_endpoint : List Request → WebhookEndpoint → OutboxEvent → Attempt
  unfolding delivery_request read_outcome
  deliver_to_endpoint log endpoint event =
      read_outcome http.is_success (http.post log (delivery_request http endpoint event))
