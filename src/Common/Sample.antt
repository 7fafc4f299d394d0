-- ===== src/Common/Sample.antt =====
-- Sample data for the examples: an outbox with its endpoints, and an HTTP client for which one host
-- is down.
use doorito.Base.{ℕ, true, false, none, some, [], ◌∷◌, ◌&&◌, leb, ltb, str_eq, if◌then◌else◌}
use doorito.Base.Text.{show}
use doorito.World.{World}
use doorito.Common.Models.{OutboxEvent, WebhookEndpoint, EventStatus, pending, delivered, text}
use doorito.Common.Webhook.{Http, response}
use doorito.Common.Outbox.Process.{Run}
use doorito.Common.Outbox.Emit.{Draw}

abbrev pub http : Http
http = record {
  post = λ log r.
      if str_eq r.url "https://down.example/hook" then response 500 "oops" else response 200 "";
  is_success = λ code. leb 200 code && ltb code 300;
  dumps = λ payload. 123 ∷ 125 ∷ [];
  encode = λ s. 107 ∷ [];
  hmac_sha256 = λ key message. "digest";
  str_uuid = show;
}

abbrev pub event : ℕ → EventStatus → ℕ → OutboxEvent
event id status attempts = record {
  id = id;
  aggregate_type = "UploadFile";
  aggregate_id = show id;
  event_type = "file.stored";
  payload = ("file_id", text (show id)) ∷ [];
  status = status;
  idempotency_key = show id;
  attempts = attempts;
  max_attempts = 5;
  next_attempt_at = some 100;
  delivered_at = none;
  error_message = "";
  created_at = id;
  updated_at = id;
}

abbrev pub up : WebhookEndpoint
up = record {
  id = 1;
  url = "https://up.example/hook";
  secret = "s";
  event_types = [];
  is_active = true;
  created_at = 1;
}

abbrev pub down : WebhookEndpoint
down = record {
  id = 2;
  url = "https://down.example/hook";
  secret = "s";
  event_types = "file.expiring" ∷ [];
  is_active = true;
  created_at = 2;
}

-- Two events to deliver, the second at its last attempt, and one that was delivered before.
abbrev pub world : World
world = record {
  db = record {
    outbox = event 1 pending 0 ∷ event 2 pending 4 ∷ event 3 delivered 1 ∷ [];
    endpoints = up ∷ down ∷ [];
    batches = [];
    files = [];
    sessions = [];
    parts = [];
    users = [];
  };
  hooks = 0;
  depth = 0;
  storage = [];
  broker_up = true;
  sent = 0;
  requests = [];
}

abbrev pub empty : World
empty = record world {
  db = record {
    outbox = [];
    endpoints = [];
    batches = [];
    files = [];
    sessions = [];
    parts = [];
    users = [];
  };
}

abbrev pub run : Run
run = record {
  started = 200;
  finished_at = 300;
  saved = 301;
  locked = λ id. false;
  jitter = λ id. 5;
}

abbrev pub draw : Draw
draw = record { id = 7; now = 200; saved = 201 }
