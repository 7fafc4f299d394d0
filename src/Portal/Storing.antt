-- ===== src/Portal/Storing.antt =====
-- `create_upload_file` (portal/services/uploads.py) on each of its paths.
use doorito.Base.{
  ℕ, ◌+◌, ◌≡◌, ap, true, false, Option, none, some, String, [], ◌∷◌, ◌++◌, any, if◌then◌else◌,
}
use doorito.Base.Table.{has}
use doorito.World.{World, ok, err, integrity_error, validation_error}
use doorito.Common.Models.{OutboxEvent}
use doorito.Common.Transactions.{Transactions, finish, enter}
use doorito.Common.Outbox.Emit.{new_event, clashes}
use doorito.Common.Outbox.Emission.{emit_event_outcome, commit_registered, with_event}
use doorito.Portal.Models.{UploadFile}
use doorito.Portal.Files.{Platform, Settings, UploadedFile, validate_file, compute_sha256}
use doorito.Portal.Create.{
  file_pk, Draw, failed_row, stored_row, stored_payload, store_and_emit, create_upload_file,
}

module _ (tx : Transactions) (p : Platform) (s : Settings) where
  module _ (user : Option ℕ) (file : UploadedFile) (batch : Option ℕ) (draw : Draw)
      (w : World) where
    -- The row of a file that passes, with the digest of its content.
    abbrev pub row_of : String → ℕ → UploadFile
    row_of content_type size_bytes =
        let (sha256, file') = compute_sha256 p file in
        stored_row user file' batch draw content_type size_bytes sha256

    -- The event `file.stored` about a row.
    abbrev pub event_of : UploadFile → OutboxEvent
    event_of row =
        new_event "UploadFile" (p.str_uuid row.id) "file.stored" (some (stored_payload p row)) none
          draw.event

    -- The state once the content is in the storage.
    abbrev pub kept : World
    kept = record w { storage = w.storage ++ draw.path ∷ [] }

    abbrev pub with_file : UploadFile → World → World
    with_file row v = record v { db = record v.db { files = v.db.files ++ row ∷ [] } }

    -- A file that passes validation, under a fresh primary key and with no event that its event
    -- would clash with: outside any transaction the call returns the stored row, and row, event
    -- and content are there; one delivery is handed over if the broker is up.
    pub create_upload_file_stored :
        (content_type : String) (size_bytes : ℕ)
        → w.hooks ≡ 0
        → w.depth ≡ 0
        → validate_file p s file none ≡ ok (content_type, size_bytes)
        → has file_pk draw.id w.db.files ≡ false
        → any (clashes (event_of (row_of content_type size_bytes))) w.db.outbox ≡ false
        → let row = row_of content_type size_bytes in
          create_upload_file tx p s user file batch draw w ≡ (
            ok row,
            record (with_event (event_of row) (with_file row kept)) {
              sent = w.sent + (if w.broker_up then 1 else 0);
            },
          )
    unfolding create_upload_file finish
    create_upload_file_stored content_type size_bytes h d valid fresh clear =
        let row = row_of content_type size_bytes in
        let body = store_and_emit tx p s row draw.event in
        rw (valid, tx.atomic_runs UploadFile body w, fresh)
          (rw
            (
              emit_event_outcome tx "UploadFile" (p.str_uuid draw.id) "file.stored"
                  (some (stored_payload p row)) none draw.event (enter (with_file row kept)),
              clear,
            )
            (ap (λ (v : World). (ok row, v))
              (commit_registered (with_event (event_of row) (with_file row kept)) h d)))

    -- If a file passes, under a fresh primary key, and its event would break a constraint of the
    -- outbox, the call raises, and the database, the waiting callbacks and the deliveries are as
    -- before; the content stays in the storage with no row that names it.
    pub create_upload_file_rolled_back :
        (content_type : String) (size_bytes : ℕ)
        → validate_file p s file none ≡ ok (content_type, size_bytes)
        → has file_pk draw.id w.db.files ≡ false
        → any (clashes (event_of (row_of content_type size_bytes))) w.db.outbox ≡ true
        → create_upload_file tx p s user file batch draw w ≡ (err integrity_error, kept)
    unfolding create_upload_file finish
    create_upload_file_rolled_back content_type size_bytes valid fresh clash =
        let row = row_of content_type size_bytes in
        let body = store_and_emit tx p s row draw.event in
        rw (valid, tx.atomic_runs UploadFile body w, fresh)
          (rw (
            emit_event_outcome tx "UploadFile" (p.str_uuid draw.id) "file.stored"
                (some (stored_payload p row)) none draw.event (enter (with_file row kept)),
            clash,
          ))

    -- A file that fails validation, under a fresh primary key: the call returns a FAILED row with
    -- the message and no digest; its content is stored all the same; no event is written and no
    -- delivery handed over.
    pub create_upload_file_refused :
        (message code : String)
        → validate_file p s file none ≡ err (validation_error message code)
        → has file_pk draw.id w.db.files ≡ false
        → let row = failed_row user file batch draw message in
          create_upload_file tx p s user file batch draw w ≡ (ok row, with_file row kept)
    unfolding create_upload_file
    create_upload_file_refused message code bad fresh = rw (bad, fresh)
