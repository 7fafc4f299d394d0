-- ===== src/Portal/BatchExamples.antt =====
-- Batches, and files that expire, on sample data.
use doorito.Base.{
  ℕ, ◌+◌, ◌≡◌, ◌<◌, ◌↔◌, refl, true, false, none, some, String, [], ◌∷◌, arith, any, All, count_if,
  length, ◌==◌,
}
use doorito.Base.Table.{find}
use doorito.Base.Text.{show}
use doorito.World.{World, ok, storage_error}
use doorito.Common.Sample
use doorito.Common.Sample.{empty}
use doorito.Common.Transactions.{documented}
use doorito.Portal.Models.{
  UploadBatch, UploadFile, FileStatus, BatchStatus, stored, complete, partial, is_stored, is_failed,
}
use doorito.Portal.Files.{settings}
use doorito.Portal.Create.{batch_pk}
use doorito.Portal.Batches.{batch_outcome, finalize_batch}
use doorito.Base.{str_eq, if◌then◌else◌}
use doorito.Base.Sorting.{sort_by}
use doorito.Common.Transactions.{finish}
use doorito.Portal.Notify.{Notices, notify_expiring_files, is_expiring, hours_or_default}
use doorito.Portal.Notified.{announces, Fresh}
use doorito.Portal.Announced.{expiring, notify_expiring_files_counts, notify_expiring_files_once}
use doorito.Portal.Expiry.{Deletion, delete_contents, cleanup_expired_upload_files_task}
use doorito.Portal.Expired.{is_refused, Expires, cleanup_expired-Expires, cleanup_expired_raises}
use doorito.Portal.Finalized.{belongs, tally, finalize_batch_contract}
use doorito.Portal.Examples.{platform}

-- A day and an hour.
abbrev pub later_on : ℕ
later_on = 90_000_000_000

abbrev batch : UploadBatch
batch = record {
  id = 4;
  created_by = some 1;
  status = BatchStatus.init;
  idempotency_key = "";
  created_at = 1;
  updated_at = 1;
}

abbrev pub file_row : ℕ → FileStatus → UploadFile
file_row id status = record {
  id = id;
  batch = some 4;
  uploaded_by = some 1;
  file = "uploads/b.txt";
  original_filename = "b.txt";
  content_type = "text/plain";
  size_bytes = 3;
  sha256 = "";
  status = status;
  error_message = "";
  created_at = 0;
  updated_at = 0;
}

abbrev pub with_batch : World
with_batch = record empty {
  db = record empty.db {
    batches = batch ∷ [];
    files = file_row 1 stored ∷ file_row 2 FileStatus.failed ∷ [];
  };
}

finalize_batch_contract_example :
    let all = count_if (belongs 4) with_batch.db.files in
    let good = tally is_stored 4 with_batch.db.files in
    let bad = tally is_failed 4 with_batch.db.files in
    let (answer, w') = finalize_batch documented batch 50 with_batch in
    (status : BatchStatus) × (answer ≡ ok (record batch { status = status; updated_at = 50 }))
    × (find batch_pk 4 w'.db.batches ≡ some (record batch { status = status; updated_at = 50 }))
    × ((status ≡ complete) ↔ ((0 < all) × (good ≡ all)))
    × ((status ≡ partial) ↔ ((0 < good) × (0 < bad)))
    × ((status ≡ BatchStatus.failed) ↔ (bad ≡ all))
    × ((other : ℕ)
        → (other == 4) ≡ false
        → find batch_pk other w'.db.batches ≡ find batch_pk other with_batch.db.batches)
    × (w'.db.files ≡ with_batch.db.files)
finalize_batch_contract_example =
    finalize_batch_contract documented batch batch 50 with_batch refl refl refl

-- One file is stored and one failed.
finalize_partial :
    (finalize_batch documented batch 50 with_batch).0
    ≡ ok (record batch { status = partial; updated_at = 50 })
unfolding finalize_batch finish batch_outcome
finalize_partial = refl

notified_files :
    let (answer, after) =
      notify_expiring_files documented platform settings show
        (λ id. Sample.draw)
        none
        none
        later_on
        with_batch in
    (n : Notices) × (answer ≡ ok n)
    × (n.notified + n.skipped
        ≡ count_if
            (is_expiring (hours_or_default none 24) (hours_or_default none 1) later_on)
            with_batch.db.files)
    × (length after.db.outbox ≡ 0 + n.notified)
notified_files =
    notify_expiring_files_counts documented platform settings show (λ id. Sample.draw)
      (λ id. Sample.draw) none none later_on with_batch (refl, refl)

notify_expiring_files_once_example :
    let after =
      (notify_expiring_files documented platform settings show
        (λ id. Sample.draw)
        none
        none
        later_on
        with_batch).1 in
    All
      (λ f. any (announces platform f) after.db.outbox ≡ true)
      (expiring settings none none later_on with_batch.db.files)
    × (notify_expiring_files documented platform settings show
          (λ id. Sample.draw)
          none
          none
          later_on
          after
        ≡ (
          ok (record {
            notified = 0;
            skipped = length (expiring settings none none later_on with_batch.db.files);
          }),
          after,
        ))
unfolding sort_by hours_or_default Fresh
notify_expiring_files_once_example =
    notify_expiring_files_once documented platform settings show (λ id. Sample.draw)
      (λ id. Sample.draw) none none later_on with_batch (refl, refl) (refl, tt, tt)

-- The storage has lost the second file.
abbrev storage : String → Deletion
storage path = if str_eq path "uploads/b.txt" then Deletion.removed else Deletion.not_found

storage_allows : (path : String) → is_refused (storage path) ≡ false
storage_allows path = ground arith

cleanup_expired-Expires_example :
    Expires settings storage later_on with_batch
      (cleanup_expired_upload_files_task settings storage later_on with_batch)
cleanup_expired-Expires_example =
    cleanup_expired-Expires settings storage later_on with_batch (refl, (refl, tt)) storage_allows

cleanup_expired_raises_example :
    (cleanup_expired_upload_files_task settings (λ path. Deletion.refused) later_on with_batch).1.db
    ≡ with_batch.db
unfolding cleanup_expired_upload_files_task delete_contents sort_by
cleanup_expired_raises_example =
    cleanup_expired_raises settings (λ path. Deletion.refused) later_on with_batch storage_error
      refl
