-- ===== src/Portal/Create.antt =====
-- `create_upload_file`, `mark_file_failed` and `create_batch` of portal/services/uploads.py.
use doorito.Base.{ℕ, Option, none, some, String, [], ◌∷◌, ◌++◌ as append, if◌then◌else◌}
use doorito.Base.Table.{has, modify}
use doorito.World.{
  Action, Result, ok, err, integrity_error, not_updated, validation_error, pure, raise, ◌>>=◌, ◌>>◌,
}
use doorito.Common.Models.{Payload, text, number}
use doorito.Common.Transactions.{Transactions}
use doorito.Common.Outbox.Emit
use doorito.Common.Outbox.Emit.{emit_event}
use doorito.Portal.Models.{UploadFile, UploadBatch, stored, failed, init}
use doorito.Portal.Files.{Platform, Settings, UploadedFile, validate_file, compute_sha256}

abbrev pub file_pk : UploadFile → ℕ
file_pk f = f.id

abbrev pub batch_pk : UploadBatch → ℕ
batch_pk b = b.id

-- What a call draws from its surroundings: a fresh UUID, the path that the storage chooses, the
-- clock at the save, and what `emit_event` draws.
pub record Draw : Type 0 where
  pub id : ℕ
  pub path : String
  pub saved : ℕ
  pub event : Emit.Draw

-- `UploadFile.objects.create`: the content goes to the storage before the row is inserted, and the
-- storage takes no part in the transaction.
unfoldable pub create_file : UploadFile → Action UploadFile
create_file row w =
    let w' = record w { storage = append w.storage (row.file ∷ []) } in
    if has file_pk row.id w.db.files
    then (err integrity_error, w')
    else (ok row, record w' { db = record w.db { files = append w.db.files (row ∷ []) } })

-- The row after a failed validation, with `str(exc.message)`.
unfoldable pub failed_row : Option ℕ → UploadedFile → Option ℕ → Draw → String → UploadFile
failed_row user file batch draw message = record {
  id = draw.id;
  batch = batch;
  uploaded_by = user;
  file = draw.path;
  original_filename = file.name;
  content_type = "unknown";
  size_bytes = file.size;
  sha256 = "";
  status = failed;
  error_message = message;
  created_at = draw.saved;
  updated_at = draw.saved;
}

unfoldable pub stored_row :
    Option ℕ → UploadedFile → Option ℕ → Draw → String → ℕ → String → UploadFile
stored_row user file batch draw content_type size_bytes sha256 = record {
  id = draw.id;
  batch = batch;
  uploaded_by = user;
  file = draw.path;
  original_filename = file.name;
  content_type = content_type;
  size_bytes = size_bytes;
  sha256 = sha256;
  status = stored;
  error_message = "";
  created_at = draw.saved;
  updated_at = draw.saved;
}

-- The payload of `file.stored`, read off the row.
unfoldable pub stored_payload : Platform → UploadFile → Payload
stored_payload p upload =
    ("file_id", text (p.str_uuid upload.id))
    ∷ ("original_filename", text upload.original_filename)
    ∷ ("content_type", text upload.content_type)
    ∷ ("size_bytes", number upload.size_bytes)
    ∷ ("sha256", text upload.sha256)
    ∷ ("url", text (p.url upload.file))
    ∷ []

module _ (tx : Transactions) (p : Platform) (s : Settings) where
  -- The body of the `atomic` block.
  unfoldable pub store_and_emit : UploadFile → Emit.Draw → Action UploadFile
  unfolding create_file stored_payload
  store_and_emit row draw = do
    upload ← create_file row
    emit_event tx "UploadFile" (p.str_uuid upload.id) "file.stored" (some (stored_payload p upload))
        none draw
    pure upload

  -- What follows `validate_file`; only a `ValidationError` is caught.
  abbrev pub after_validation :
      Option ℕ → UploadedFile → Option ℕ → Draw → Result (String × ℕ) → Action UploadFile
  after_validation user file batch draw (err (validation_error message code)) =
      create_file (failed_row user file batch draw message)
  after_validation user file batch draw (err e) = raise e
  after_validation user file batch draw (ok (content_type, size_bytes)) =
      let (sha256, file') = compute_sha256 p file in
      tx.atomic UploadFile (
        store_and_emit (stored_row user file' batch draw content_type size_bytes sha256) draw.event)

  unfoldable pub create_upload_file : Option ℕ → UploadedFile → Option ℕ → Draw → Action UploadFile
  unfolding validate_file compute_sha256 create_file store_and_emit failed_row stored_row
  create_upload_file user file batch draw =
      after_validation user file batch draw (validate_file p s file none)

-- `save(update_fields=["status", "error_message", "updated_at"])`: the columns are set in the row,
-- and the instance in memory is returned.
unfoldable pub mark_file_failed : UploadFile → String → ℕ → Action UploadFile
mark_file_failed upload error saved w =
    let upload' = record upload { status = failed; error_message = error; updated_at = saved } in
    if has file_pk upload.id w.db.files
    then (
      ok upload',
      record w {
        db = record w.db {
          files =
              modify file_pk upload.id
                (λ row. record row { status = failed; error_message = error; updated_at = saved })
                w.db.files;
        };
      },
    )
    else (err not_updated, w)

-- `create_batch`
unfoldable pub create_batch : Option ℕ → String → ℕ → ℕ → Action UploadBatch
create_batch user idempotency_key id saved w =
    let row : UploadBatch = record {
      id = id;
      created_by = user;
      status = init;
      idempotency_key = idempotency_key;
      created_at = saved;
      updated_at = saved;
    } in
    if has batch_pk id w.db.batches
    then (err integrity_error, w)
    else (ok row, record w { db = record w.db { batches = append w.db.batches (row ∷ []) } })
