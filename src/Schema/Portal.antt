-- ===== src/Schema/Portal.antt =====
-- portal/migrations/0002_portaleventoutbox_and_more.py
use doorito.Base.{List, [], ◌∷◌, ◌++◌, true, false}
use doorito.Schema.Fields.{
  uuid7, empty_dict, text_value, number_value, date_time, uuid, text, positive_integer, char, json,
  field,
}
use doorito.Schema.Migrator.{
  Operation, Migration, create_model, alter_model_table, rename_index, alter_field, add_index,
  add_constraint,
}

abbrev pub create_portal_event_outbox : Operation
create_portal_event_outbox =
    create_model "PortalEventOutbox"
      (("created_at", record (field (date_time true false)) { verbose_name = "created at" })
        ∷ ("updated_at", record (field (date_time false true)) { verbose_name = "updated at" })
        ∷ ("id", record (field uuid) { default = uuid7; editable = false; primary_key = true })
        ∷ ("aggregate_type", field (char 100))
        ∷ ("aggregate_id", field (char 100))
        ∷ ("event_type", field (char 100))
        ∷ ("payload", record (field (json true)) { default = empty_dict })
        ∷ (
          "status",
          record (field (char 20)) {
            choices =
                ("pending", "Pending") ∷ ("delivered", "Delivered") ∷ ("failed", "Failed") ∷ [];
            default = text_value "pending";
          },
        )
        ∷ ("idempotency_key", field (char 255))
        ∷ ("attempts", record (field positive_integer) { default = number_value 0 })
        ∷ ("max_attempts", record (field positive_integer) { default = number_value 5 })
        ∷ ("next_attempt_at", record (field (date_time false false)) { null = true })
        ∷ ("delivered_at", record (field (date_time false false)) { blank = true; null = true })
        ∷ ("error_message", record (field text) { blank = true })
        ∷ [])
      (record {
        db_table = "portal_event_outbox";
        verbose_name = "portal event outbox";
        verbose_name_plural = "portal event outbox entries";
        ordering = "-created_at" ∷ [];
        indexes = [];
        constraints = [];
      })

-- The tables, then their indexes, get the prefix of the app.
abbrev pub renames : List Operation
renames =
    alter_model_table "uploadbatch" "portal_upload_batch"
    ∷ alter_model_table "uploadfile" "portal_upload_file"
    ∷ alter_model_table "uploadpart" "portal_upload_part"
    ∷ alter_model_table "uploadsession" "portal_upload_session"
    ∷ rename_index "uploadfile" "portal_uplo_uploade_0016ce_idx" "upload_file_uploade_4deeb7_idx"
    ∷ rename_index "uploadfile" "portal_uplo_status_e50e20_idx" "upload_file_status_d3e036_idx"
    ∷ []

-- The column `status` of an upload file loses two of its choices.
abbrev pub fewer_statuses : List Operation
fewer_statuses =
    alter_field "uploadfile" "status" (record (field (char 20)) {
      choices = ("uploading", "Uploading") ∷ ("stored", "Stored") ∷ ("failed", "Failed") ∷ [];
      default = text_value "uploading";
    })
    ∷ []

-- The index and the constraint of the new table.
abbrev pub event_constraints : List Operation
event_constraints =
    add_index "portaleventoutbox" (record {
      fields = "next_attempt_at" ∷ [];
      condition = ("status", "pending") ∷ [];
      name = "idx_portal_outbox_pending_next";
    })
    ∷ add_constraint "portaleventoutbox" (record {
      fields = "event_type" ∷ "idempotency_key" ∷ [];
      name = "unique_portal_event_type_idempotency_key";
    })
    ∷ []

abbrev pub portal_0002 : Migration
portal_0002 = record {
  app = "portal";
  name = "0002_portaleventoutbox_and_more";
  initial = false;
  dependencies = ("portal", "0001_initial") ∷ [];
  operations = (create_portal_event_outbox ∷ renames) ++ (fewer_statuses ++ event_constraints);
}
