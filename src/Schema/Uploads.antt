-- ===== src/Schema/Uploads.antt =====
-- portal/migrations/0001_initial.py
use doorito.Base.{List, [], ◌∷◌, ◌++◌, true, false}
use doorito.Schema.Fields.{
  cascade, set_null, uuid7, empty_dict, text_value, number_value, date_time, uuid, text,
  positive_integer, positive_big_integer, char, json, file, foreign_key, one_to_one, field,
}
use doorito.Schema.Migrator.{Operation, Migration, create_model, add_index, add_constraint}

abbrev pub create_upload_batch_table : Operation
create_upload_batch_table =
    create_model "UploadBatch"
      (("created_at", record (field (date_time true false)) { verbose_name = "created at" })
        ∷ ("updated_at", record (field (date_time false true)) { verbose_name = "updated at" })
        ∷ ("id", record (field uuid) { default = uuid7; editable = false; primary_key = true })
        ∷ (
          "status",
          record (field (char 20)) {
            choices =
                ("init", "Init")
                ∷ ("in_progress", "In Progress")
                ∷ ("complete", "Complete")
                ∷ ("partial", "Partial")
                ∷ ("failed", "Failed")
                ∷ [];
            default = text_value "init";
          },
        )
        ∷ ("idempotency_key", record (field (char 255)) { blank = true; db_index = true })
        ∷ (
          "created_by",
          record (field (foreign_key "accounts.user" set_null "upload_batches")) {
            blank = true;
            null = true;
          },
        )
        ∷ [])
      (record {
        db_table = "upload_batch";
        verbose_name = "upload batch";
        verbose_name_plural = "upload batches";
        ordering = "-created_at" ∷ [];
        indexes = [];
        constraints = [];
      })

abbrev pub create_upload_file_table : Operation
create_upload_file_table =
    create_model "UploadFile"
      (("created_at", record (field (date_time true false)) { verbose_name = "created at" })
        ∷ ("updated_at", record (field (date_time false true)) { verbose_name = "updated at" })
        ∷ ("id", record (field uuid) { default = uuid7; editable = false; primary_key = true })
        ∷ ("file", field (file "uploads/%Y/%m/"))
        ∷ ("original_filename", field (char 255))
        ∷ ("content_type", field (char 100))
        ∷ ("size_bytes", record (field positive_big_integer) { help_text = "File size in bytes" })
        ∷ ("sha256", record (field (char 64)) { blank = true; db_index = true })
        ∷ ("metadata", record (field (json false)) { blank = true; default = empty_dict })
        ∷ (
          "status",
          record (field (char 20)) {
            choices =
                ("uploading", "Uploading")
                ∷ ("stored", "Stored")
                ∷ ("processed", "Processed")
                ∷ ("failed", "Failed")
                ∷ ("deleted", "Deleted")
                ∷ [];
            default = text_value "uploading";
          },
        )
        ∷ ("error_message", record (field text) { blank = true })
        ∷ (
          "batch",
          record (field (foreign_key "portal.uploadbatch" set_null "files")) {
            blank = true;
            null = true;
          },
        )
        ∷ (
          "uploaded_by",
          record (field (foreign_key "accounts.user" set_null "upload_files")) {
            blank = true;
            null = true;
          },
        )
        ∷ [])
      (record {
        db_table = "upload_file";
        verbose_name = "upload file";
        verbose_name_plural = "upload files";
        ordering = "-created_at" ∷ [];
        indexes = [];
        constraints = [];
      })

abbrev pub create_upload_session_table : Operation
create_upload_session_table =
    create_model "UploadSession"
      (("created_at", record (field (date_time true false)) { verbose_name = "created at" })
        ∷ ("updated_at", record (field (date_time false true)) { verbose_name = "updated at" })
        ∷ ("id", record (field uuid) { default = uuid7; editable = false; primary_key = true })
        ∷ (
          "status",
          record (field (char 20)) {
            choices =
                ("init", "Init")
                ∷ ("in_progress", "In Progress")
                ∷ ("complete", "Complete")
                ∷ ("failed", "Failed")
                ∷ ("aborted", "Aborted")
                ∷ [];
            default = text_value "init";
          },
        )
        ∷ (
          "chunk_size_bytes",
          record (field positive_integer) {
            default = number_value 5242880;
            help_text = "Target chunk size in bytes (default 5 MB)";
          },
        )
        ∷ (
          "total_size_bytes",
          record (field positive_big_integer) { help_text = "Total expected file size in bytes" },
        )
        ∷ (
          "total_parts",
          record (field positive_integer) { help_text = "Total expected number of parts" },
        )
        ∷ ("bytes_received", record (field positive_big_integer) { default = number_value 0 })
        ∷ ("completed_parts", record (field positive_integer) { default = number_value 0 })
        ∷ ("idempotency_key", record (field (char 255)) { blank = true; db_index = true })
        ∷ ("upload_token", record (field (char 255)) { blank = true; db_index = true })
        ∷ ("file", field (one_to_one "portal.uploadfile" cascade "session"))
        ∷ [])
      (record {
        db_table = "upload_session";
        verbose_name = "upload session";
        verbose_name_plural = "upload sessions";
        ordering = "-created_at" ∷ [];
        indexes = [];
        constraints = [];
      })

abbrev pub create_upload_part_table : Operation
create_upload_part_table =
    create_model "UploadPart"
      (("created_at", record (field (date_time true false)) { verbose_name = "created at" })
        ∷ ("updated_at", record (field (date_time false true)) { verbose_name = "updated at" })
        ∷ ("id", record (field uuid) { default = uuid7; editable = false; primary_key = true })
        ∷ ("part_number", record (field positive_integer) { help_text = "1-indexed chunk ordinal" })
        ∷ (
          "offset_bytes",
          record (field positive_big_integer) { help_text = "Byte offset of this part" },
        )
        ∷ (
          "size_bytes",
          record (field positive_big_integer) { help_text = "Size of this part in bytes" },
        )
        ∷ ("sha256", record (field (char 64)) { blank = true })
        ∷ (
          "status",
          record (field (char 20)) {
            choices = ("pending", "Pending") ∷ ("received", "Received") ∷ ("failed", "Failed") ∷ [];
            default = text_value "pending";
          },
        )
        ∷ (
          "temp_storage_key",
          record (field (char 500)) {
            blank = true;
            help_text = "Temporary storage location for chunk before assembly";
          },
        )
        ∷ ("session", field (foreign_key "portal.uploadsession" cascade "parts"))
        ∷ [])
      (record {
        db_table = "upload_part";
        verbose_name = "upload part";
        verbose_name_plural = "upload parts";
        ordering = "part_number" ∷ [];
        indexes = [];
        constraints = [];
      })

-- The indexes and the constraint that follow the tables.
abbrev pub upload_constraints : List Operation
upload_constraints =
    add_index "uploadfile" (record {
      fields = "uploaded_by" ∷ "-created_at" ∷ [];
      condition = [];
      name = "upload_file_uploade_4deeb7_idx";
    })
    ∷ add_index "uploadfile"
        (record { fields = "status" ∷ []; condition = []; name = "upload_file_status_d3e036_idx" })
    ∷ add_constraint "uploadpart"
        (record { fields = "session" ∷ "part_number" ∷ []; name = "unique_session_part_number" })
    ∷ []

abbrev pub portal_0001 : Migration
portal_0001 = record {
  app = "portal";
  name = "0001_initial";
  initial = true;
  dependencies = ("accounts", "__first__") ∷ [];
  operations =
      (create_upload_batch_table ∷ create_upload_file_table ∷ create_upload_session_table
        ∷ create_upload_part_table ∷ [])
      ++ upload_constraints;
}
