-- ===== src/Schema/Admin.antt =====
-- common/admin.py and portal/admin.py: what the admin's pages show, search and edit of each model.
-- `accounts.admin.UserAdmin` adds nothing to Django's own.
use doorito.Base.{Option, none, some, String, List, [], ◌∷◌}

-- A registered `ModelAdmin`, with the name of its model.
pub record ModelAdmin : Type 0 where
  pub model : String
  pub list_display : List String
  pub list_filter : List String
  pub search_fields : List String
  pub readonly_fields : List String
  pub list_select_related : List String
  pub date_hierarchy : Option String

abbrev pub outbox_event_admin : ModelAdmin
outbox_event_admin = record {
  model = "common.outboxevent";
  list_display =
      "event_type" ∷ "aggregate_type" ∷ "aggregate_id" ∷ "status" ∷ "attempts" ∷ "next_attempt_at"
      ∷ "created_at" ∷ [];
  list_filter = "status" ∷ "event_type" ∷ "aggregate_type" ∷ "created_at" ∷ [];
  search_fields = "event_type" ∷ "aggregate_type" ∷ "aggregate_id" ∷ "idempotency_key" ∷ [];
  readonly_fields =
      "pk" ∷ "aggregate_type" ∷ "aggregate_id" ∷ "event_type" ∷ "payload" ∷ "idempotency_key"
      ∷ "attempts" ∷ "delivered_at" ∷ "error_message" ∷ "created_at" ∷ "updated_at" ∷ [];
  list_select_related = [];
  date_hierarchy = some "created_at";
}

abbrev pub webhook_endpoint_admin : ModelAdmin
webhook_endpoint_admin = record {
  model = "common.webhookendpoint";
  list_display = "url" ∷ "is_active" ∷ "event_types" ∷ "created_at" ∷ [];
  list_filter = "is_active" ∷ "created_at" ∷ [];
  search_fields = "url" ∷ [];
  readonly_fields = "pk" ∷ "created_at" ∷ "updated_at" ∷ [];
  list_select_related = [];
  date_hierarchy = some "created_at";
}

abbrev pub upload_batch_admin : ModelAdmin
upload_batch_admin = record {
  model = "portal.uploadbatch";
  list_display = "pk" ∷ "created_by" ∷ "status" ∷ "created_at" ∷ [];
  list_filter = "status" ∷ "created_at" ∷ [];
  search_fields = "pk" ∷ "idempotency_key" ∷ "created_by__email" ∷ [];
  readonly_fields = "pk" ∷ "created_at" ∷ "updated_at" ∷ [];
  list_select_related = "created_by" ∷ [];
  date_hierarchy = some "created_at";
}

abbrev pub upload_file_admin : ModelAdmin
upload_file_admin = record {
  model = "portal.uploadfile";
  list_display =
      "original_filename" ∷ "uploaded_by" ∷ "content_type" ∷ "size_bytes" ∷ "status" ∷ "created_at"
      ∷ [];
  list_filter = "status" ∷ "content_type" ∷ "created_at" ∷ [];
  search_fields = "original_filename" ∷ "sha256" ∷ "uploaded_by__email" ∷ [];
  readonly_fields =
      "pk" ∷ "size_bytes" ∷ "content_type" ∷ "sha256" ∷ "status" ∷ "error_message" ∷ "created_at"
      ∷ "updated_at" ∷ [];
  list_select_related = "uploaded_by" ∷ "batch" ∷ [];
  date_hierarchy = some "created_at";
}

abbrev pub upload_session_admin : ModelAdmin
upload_session_admin = record {
  model = "portal.uploadsession";
  list_display =
      "pk" ∷ "file" ∷ "status" ∷ "completed_parts" ∷ "total_parts" ∷ "bytes_received"
      ∷ "total_size_bytes" ∷ "created_at" ∷ [];
  list_filter = "status" ∷ "created_at" ∷ [];
  search_fields = "pk" ∷ "idempotency_key" ∷ "upload_token" ∷ [];
  readonly_fields = "pk" ∷ "bytes_received" ∷ "completed_parts" ∷ "created_at" ∷ "updated_at" ∷ [];
  list_select_related = "file" ∷ [];
  date_hierarchy = some "created_at";
}

abbrev pub upload_part_admin : ModelAdmin
upload_part_admin = record {
  model = "portal.uploadpart";
  list_display = "pk" ∷ "session" ∷ "part_number" ∷ "size_bytes" ∷ "status" ∷ "created_at" ∷ [];
  list_filter = "status" ∷ [];
  search_fields = "pk" ∷ "session__pk" ∷ [];
  readonly_fields = "pk" ∷ "created_at" ∷ "updated_at" ∷ [];
  list_select_related = "session" ∷ [];
  date_hierarchy = none;
}

abbrev pub portal_event_outbox_admin : ModelAdmin
portal_event_outbox_admin = record (outbox_event_admin) { model = "portal.portaleventoutbox" }

abbrev pub registered : List ModelAdmin
registered =
    outbox_event_admin ∷ webhook_endpoint_admin ∷ upload_batch_admin ∷ upload_file_admin
    ∷ upload_session_admin ∷ upload_part_admin ∷ portal_event_outbox_admin ∷ []
