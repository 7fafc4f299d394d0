-- ===== src/Schema/Declared.antt =====
-- The classes of common/models.py and portal/models.py, as models: the columns of
-- `TimeStampedModel`, then their own, and their `Meta`.
use doorito.Base.{
  true, false, Option, none, some, String, List, [], ◌∷◌, ◌++◌, str_eq, if◌then◌else◌,
}
use doorito.Common.Models.{EventStatus}
use doorito.Portal.Models.{BatchStatus, FileStatus, SessionStatus, PartStatus}
use doorito.Portal.EventOutbox.{PortalEventStatus}
use doorito.Schema.Fields.{
  Model, cascade, set_null, empty_dict, empty_list, number_value, truth_value, text,
  positive_integer, positive_big_integer, boolean, char, url, json, file, foreign_key, one_to_one,
  field,
}
use doorito.Schema.Statuses.{
  event_choice, event_choices, batch_choice, batch_choices, file_choice, file_choices,
  session_choice, session_choices, part_choice, part_choices, portal_event_choice,
  portal_event_choices,
}
use doorito.Schema.Columns.{
  time_stamped_model, uuid_key, status_field, blank_indexed, count_from, user_key, meta,
  event_fields, event_meta,
}

abbrev pub outbox_event : Model
outbox_event = record {
  fields =
      time_stamped_model
      ++ (("id", uuid_key)
          ∷ event_fields (status_field event_choices (event_choice EventStatus.pending)));
  options =
      event_meta "idx_outbox_pending_next" "unique_event_type_idempotency_key"
        (meta "outbox_event" "outbox event" "outbox events" ("-created_at" ∷ []));
}

abbrev pub webhook_endpoint : Model
webhook_endpoint = record {
  fields =
      time_stamped_model
      ++ (("id", uuid_key)
          ∷ ("url", record (field (url 2048)) { help_text = "Target URL to POST events to" })
          ∷ (
            "secret",
            record (field (char 255)) {
              help_text = "Shared secret for HMAC-SHA256 request signing";
            },
          )
          ∷ (
            "event_types",
            record (field (json true)) {
              default = empty_list;
              blank = true;
              help_text =
                  "JSON list of event types to subscribe to (e.g., [\"file.stored\"]). Empty list matches all events.";
            },
          )
          ∷ (
            "is_active",
            record (field boolean) {
              default = truth_value true;
              help_text = "Enable or disable delivery to this endpoint";
            },
          )
          ∷ []);
  options = meta "webhook_endpoint" "webhook endpoint" "webhook endpoints" ("-created_at" ∷ []);
}

abbrev pub upload_batch : Model
upload_batch = record {
  fields =
      time_stamped_model
      ++ (("id", uuid_key)
          ∷ ("created_by", user_key "upload_batches")
          ∷ ("status", status_field batch_choices (batch_choice BatchStatus.init))
          ∷ ("idempotency_key", blank_indexed 255)
          ∷ []);
  options = meta "portal_upload_batch" "upload batch" "upload batches" ("-created_at" ∷ []);
}

-- An index without a name gets one from the table and its columns.
abbrev pub upload_file : (String → List String → String) → Model
upload_file auto_name = record {
  fields =
      time_stamped_model
      ++ (("id", uuid_key)
          ∷ (
            "batch",
            record (field (foreign_key "portal.uploadbatch" set_null "files")) {
              null = true;
              blank = true;
            },
          )
          ∷ ("uploaded_by", user_key "upload_files")
          ∷ ("file", field (file "uploads/%Y/%m/"))
          ∷ ("original_filename", field (char 255))
          ∷ ("content_type", field (char 100))
          ∷ ("size_bytes", record (field positive_big_integer) { help_text = "File size in bytes" })
          ∷ ("sha256", blank_indexed 64)
          ∷ ("metadata", record (field (json false)) { default = empty_dict; blank = true })
          ∷ ("status", status_field file_choices (file_choice FileStatus.uploading))
          ∷ ("error_message", record (field text) { blank = true })
          ∷ []);
  options =
      let by_user = "uploaded_by" ∷ "-created_at" ∷ [] in
      let by_status = "status" ∷ [] in
      record (meta "portal_upload_file" "upload file" "upload files" ("-created_at" ∷ [])) {
        indexes =
            (record {
              fields = by_user;
              condition = [];
              name = auto_name "portal_upload_file" by_user;
            })
            ∷ (record {
              fields = by_status;
              condition = [];
              name = auto_name "portal_upload_file" by_status;
            })
            ∷ [];
      };
}

abbrev pub upload_session : Model
upload_session = record {
  fields =
      time_stamped_model
      ++ (("id", uuid_key)
          ∷ ("file", field (one_to_one "portal.uploadfile" cascade "session"))
          ∷ ("status", status_field session_choices (session_choice SessionStatus.init))
          ∷ (
            "chunk_size_bytes",
            record (count_from 5242880) { help_text = "Target chunk size in bytes (default 5 MB)" },
          )
          ∷ (
            "total_size_bytes",
            record (field positive_big_integer) { help_text = "Total expected file size in bytes" },
          )
          ∷ (
            "total_parts",
            record (field positive_integer) { help_text = "Total expected number of parts" },
          )
          ∷ ("bytes_received", record (field positive_big_integer) { default = number_value 0 })
          ∷ ("completed_parts", count_from 0)
          ∷ ("idempotency_key", blank_indexed 255)
          ∷ ("upload_token", blank_indexed 255)
          ∷ []);
  options = meta "portal_upload_session" "upload session" "upload sessions" ("-created_at" ∷ []);
}

abbrev pub upload_part : Model
upload_part = record {
  fields =
      time_stamped_model
      ++ (("id", uuid_key)
          ∷ ("session", field (foreign_key "portal.uploadsession" cascade "parts"))
          ∷ (
            "part_number",
            record (field positive_integer) { help_text = "1-indexed chunk ordinal" },
          )
          ∷ (
            "offset_bytes",
            record (field positive_big_integer) { help_text = "Byte offset of this part" },
          )
          ∷ (
            "size_bytes",
            record (field positive_big_integer) { help_text = "Size of this part in bytes" },
          )
          ∷ ("sha256", record (field (char 64)) { blank = true })
          ∷ ("status", status_field part_choices (part_choice PartStatus.pending))
          ∷ (
            "temp_storage_key",
            record (field (char 500)) {
              blank = true;
              help_text = "Temporary storage location for chunk before assembly";
            },
          )
          ∷ []);
  options = record (meta "portal_upload_part" "upload part" "upload parts" ("part_number" ∷ [])) {
    constraints =
        (record { fields = "session" ∷ "part_number" ∷ []; name = "unique_session_part_number" })
        ∷ [];
  };
}

abbrev pub portal_event_outbox : Model
portal_event_outbox = record {
  fields =
      time_stamped_model
      ++ (("id", uuid_key)
          ∷ event_fields
              (status_field portal_event_choices (portal_event_choice PortalEventStatus.pending)));
  options = event_meta "idx_portal_outbox_pending_next" "unique_portal_event_type_idempotency_key" (
      meta "portal_event_outbox" "portal event outbox" "portal event outbox entries"
        ("-created_at" ∷ []));
}

-- The models of the two apps, by their names.
abbrev pub models : (String → List String → String) → List (String × Model)
models auto_name =
    ("common.outboxevent", outbox_event)
    ∷ ("common.webhookendpoint", webhook_endpoint)
    ∷ ("portal.uploadbatch", upload_batch)
    ∷ ("portal.uploadfile", upload_file auto_name)
    ∷ ("portal.uploadsession", upload_session)
    ∷ ("portal.uploadpart", upload_part)
    ∷ ("portal.portaleventoutbox", portal_event_outbox)
    ∷ []

abbrev pub model_named : String → List (String × Model) → Option Model
model_named n [] = none
model_named n ((k, m) ∷ rest) = if str_eq n k then some m else model_named n rest

abbrev pub declared : (String → List String → String) → String → Option Model
declared auto_name n = model_named n (models auto_name)
