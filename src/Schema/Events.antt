-- ===== src/Schema/Events.antt =====
-- common/migrations: the outbox and the webhook endpoints.
use doorito.Base.{[], ◌∷◌, true, false}
use doorito.Schema.Fields.{
  uuid7, empty_dict, empty_list, text_value, number_value, truth_value, date_time, uuid, text,
  positive_integer, boolean, char, url, json, field,
}
use doorito.Schema.Migrator.{Operation, Migration, create_model}

abbrev pub create_outbox_event : Operation
create_outbox_event =
    create_model "OutboxEvent"
      (("created_at", record (field (date_time true false)) { verbose_name = "created at" })
        ∷ ("updated_at", record (field (date_time false true)) { verbose_name = "updated at" })
        ∷ ("id", record (field uuid) { default = uuid7; editable = false; primary_key = true })
        ∷ ("aggregate_type", field (char 100))
        ∷ ("aggregate_id", field (char 100))
        ∷ ("event_type", field (char 100))
        ∷ ("payload", record (field (json true)) { default = empty_dict })
        ∷ (
          "status",
          record (field (char 20)) {
            choices =
                ("pending", "Pending") ∷ ("delivered", "Delivered") ∷ ("failed", "Failed") ∷ [];
            default = text_value "pending";
          },
        )
        ∷ ("idempotency_key", field (char 255))
        ∷ ("attempts", record (field positive_integer) { default = number_value 0 })
        ∷ ("max_attempts", record (field positive_integer) { default = number_value 5 })
        ∷ ("next_attempt_at", record (field (date_time false false)) { null = true })
        ∷ ("delivered_at", record (field (date_time false false)) { blank = true; null = true })
        ∷ ("error_message", record (field text) { blank = true })
        ∷ [])
      (record {
        db_table = "outbox_event";
        verbose_name = "outbox event";
        verbose_name_plural = "outbox events";
        ordering = "-created_at" ∷ [];
        indexes =
            (record {
              fields = "next_attempt_at" ∷ [];
              condition = ("status", "pending") ∷ [];
              name = "idx_outbox_pending_next";
            })
            ∷ [];
        constraints =
            (record {
              fields = "event_type" ∷ "idempotency_key" ∷ [];
              name = "unique_event_type_idempotency_key";
            })
            ∷ [];
      })

abbrev pub common_0001 : Migration
common_0001 = record {
  app = "common";
  name = "0001_initial";
  initial = true;
  dependencies = [];
  operations = create_outbox_event ∷ [];
}

abbrev pub create_webhook_endpoint : Operation
create_webhook_endpoint =
    create_model "WebhookEndpoint"
      (("created_at", record (field (date_time true false)) { verbose_name = "created at" })
        ∷ ("updated_at", record (field (date_time false true)) { verbose_name = "updated at" })
        ∷ ("id", record (field uuid) { default = uuid7; editable = false; primary_key = true })
        ∷ ("url", record (field (url 2048)) { help_text = "Target URL to POST events to" })
        ∷ (
          "secret",
          record (field (char 255)) { help_text = "Shared secret for HMAC-SHA256 request signing" },
        )
        ∷ (
          "event_types",
          record (field (json true)) {
            blank = true;
            default = empty_list;
            help_text =
                "JSON list of event types to subscribe to (e.g., [\"file.stored\"]). Empty list matches all events.";
          },
        )
        ∷ (
          "is_active",
          record (field boolean) {
            default = truth_value true;
            help_text = "Enable or disable delivery to this endpoint";
          },
        )
        ∷ [])
      (record {
        db_table = "webhook_endpoint";
        verbose_name = "webhook endpoint";
        verbose_name_plural = "webhook endpoints";
        ordering = "-created_at" ∷ [];
        indexes = [];
        constraints = [];
      })

abbrev pub common_0002 : Migration
common_0002 = record {
  app = "common";
  name = "0002_webhookendpoint";
  initial = false;
  dependencies = ("common", "0001_initial") ∷ [];
  operations = create_webhook_endpoint ∷ [];
}
