-- ===== src/Common/Outbox/Deliver.antt =====
-- Phase 2 of `process_pending_events` (common/services/outbox.py): every fetched event goes to
-- every matching endpoint. `log` holds the requests made so far.
use Prim.Native.String.{◌++◌}
use doorito.Base.{ℕ, Bool, true, false, String, List, [], ◌∷◌, ◌++◌ as append, if◌then◌else◌}
use doorito.Base.Text.{join}
use doorito.World.{Request}
use doorito.Common.Models.{OutboxEvent, WebhookEndpoint}
use doorito.Common.Webhook.{Http, Attempt, deliver_to_endpoint, delivery_request, done, raised}
use doorito.Common.Outbox.Fetch.{matching}

-- `{"all_ok": bool, "error": str}`
pub record Verdict : Type 0 where
  pub all_ok : Bool
  pub error : String

-- How the `try` block ends: by itself, by `SoftTimeLimitExceeded`, or by an exception that it does
-- not catch.
pub data Ending : Type 0 where
  finished : Ending
  out_of_time : Ending
  crashed : String → Ending

pub record Posts : Type 0 where
  pub errors : List String
  pub log : List Request
  pub ending : Ending

-- One pass of the inner loop, before `rest`.
abbrev pub after_attempt : Attempt → String → List Request → Posts → Posts
after_attempt (done d) url log rest =
    if d.is_ok then rest else record rest { errors = (url ++ (": " ++ d.error)) ∷ rest.errors }
after_attempt Attempt.time_limit url log rest = record {
  errors = [];
  log = log;
  ending = out_of_time;
}
after_attempt (raised message) url log rest = record {
  errors = [];
  log = log;
  ending = crashed message;
}

-- `len(errors) == 0` and `"; ".join(errors)`
unfoldable pub verdict : List String → Verdict
verdict [] = record { all_ok = true; error = "" }
verdict (e ∷ es) = record { all_ok = false; error = join "; " (e ∷ es) }

-- `results`, as an association list by primary key.
abbrev pub Results : Type 0
Results = List (ℕ × Verdict)

pub record Progress : Type 0 where
  pub results : Results
  pub log : List Request
  pub ending : Ending

-- One pass of the outer loop: an event is entered into `results` only if its posts all came back.
abbrev pub after_event : ℕ → Posts → Ending → Progress → Progress
after_event id posts finished rest = record rest {
  results = (id, verdict posts.errors) ∷ rest.results;
}
after_event id posts ending rest = record { results = []; log = posts.log; ending = ending }

module _ (http : Http) where
  -- The loop over `matching`. With no endpoint the event is a success, as the early `continue` says.
  unfoldable pub post_each : List WebhookEndpoint → OutboxEvent → List Request → Posts
  post_each [] event log = record { errors = []; log = log; ending = finished }
  post_each (ep ∷ eps) event log =
      let log' = append log (delivery_request http ep event ∷ []) in
      let rest = post_each eps event log' in
      after_attempt (deliver_to_endpoint http log ep event) ep.url log' rest

  -- The loop over `events`.
  unfoldable pub deliver_events : List WebhookEndpoint → List OutboxEvent → List Request → Progress
  unfolding post_each matching
  deliver_events endpoints [] log = record { results = []; log = log; ending = finished }
  deliver_events endpoints (event ∷ events) log =
      let posts = post_each (matching endpoints event) event log in
      let rest = deliver_events endpoints events posts.log in
      after_event event.id posts posts.ending rest
