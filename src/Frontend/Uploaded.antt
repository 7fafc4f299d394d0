-- ===== src/Frontend/Uploaded.antt =====
-- That the upload page (frontend/views/upload.py) returns, and what it then reports.
use doorito.Base.{
  ℕ, suc, ◌<◌, ◌≡◌, refl, ◌∙◌, ap, ◌↔◌, false, Option, some, List, [], ◌∷◌, ◌++◌, All, length,
  arith,
}
use doorito.Base.Table.{find, has}
use doorito.World.{World, ok, pure}
use doorito.World.Actions.{continue-ok}
use doorito.Common.Transactions.{Transactions}
use doorito.Common.Outbox.History.{Quiet}
use doorito.Portal.Models.{UploadBatch, UploadFile, BatchStatus, complete, partial}
use doorito.Portal.Files.{Platform, Settings, UploadedFile}
use doorito.Portal.Create.{batch_pk, create_batch}
use doorito.Portal.Batches.{in_batch, batch_outcome, file_statuses, finalize_batch}
use doorito.Portal.Verdicts.{finalize_batch_row}
use doorito.Frontend.Upload.{Draws, upload_each, upload_batch, stored_count, failed_count}
use doorito.Frontend.Loop.{Grown, GrownIfOk, upload_each-GrownIfOk}
use doorito.Frontend.Fresh.{AreFresh, AreFresh-next, create_upload_file-Made}
use doorito.Frontend.Report.{upload_batch-Agrees, find-snoc}

module _ (tx : Transactions) (p : Platform) (s : Settings) (draws : Draws) (user : Option ℕ) where
  each_returns :
      (batch : UploadBatch) (n : ℕ) (files : List UploadedFile) (w : World)
      → Quiet w
      → AreFresh p draws.file n w
      → (results : List UploadFile) × (v : World) × (upload_each tx p s draws user batch n files w
          ≡ (ok results, v))
  unfolding upload_each
  each_returns batch n [] w q fresh = ([], w, refl)
  each_returns batch n (f ∷ fs) w q fresh =
      let m =
        create_upload_file-Made tx p s user f (some batch.id) (draws.file n) w q
          (fresh.free n (omega arith)) in
      let (results, v, ran) =
        each_returns batch (suc n) fs m.after m.calm (AreFresh-next p draws.file n _ w fresh m) in
      (m.row ∷ results, v, rw (m.ran, ran) refl)

  batch_returns :
      (files : List UploadedFile) (w : World)
      → Quiet w
      → has batch_pk draws.batch_id w.db.batches ≡ false
      → AreFresh p draws.file 0 w
      → (batch : UploadBatch) × (results : List UploadFile) × (after : World) × (upload_batch tx p s
            draws user files w
          ≡ (ok (batch, results), after))
  unfolding upload_batch create_batch GrownIfOk
  batch_returns files w q unused fresh =
      let row : UploadBatch = record {
        id = draws.batch_id;
        created_by = user;
        status = BatchStatus.init;
        idempotency_key = "";
        created_at = draws.created;
        updated_at = draws.created;
      } in
      let w' = record w { db = record w.db { batches = w.db.batches ++ row ∷ [] } } in
      let (results, v, ran) =
        each_returns row 0 files w' q (record { free = fresh.free; apart = fresh.apart }) in
      let g : Grown row.id (length files) results w' v =
        rw ran at (upload_each-GrownIfOk tx p s draws user row 0 files w' q) in
      let here =
        ap (λ (bs : List UploadBatch). find batch_pk row.id bs) g.batches_kept
        ∙ find-snoc row w.db.batches unused in
      let (answer, _, _, _) =
        finalize_batch_row tx row row draws.finalized v g.still_quiet.0 here in
      let final = record row {
        status = batch_outcome (file_statuses row.id v.db.files);
        updated_at = draws.finalized;
      } in
      (
        final,
        results,
        (finalize_batch tx row draws.finalized v).1,
        rw (unused, ran)
            (continue-ok {B = UploadBatch × List UploadFile}
              (λ (b : UploadBatch). pure (b, results)) (finalize_batch tx row draws.finalized v)
              final answer),
      )

  -- Outside a transaction, with at least one file, under a fresh key for the batch and with draws
  -- that are fresh for the files and their events, the page stores its files and finalizes the
  -- batch without a raise, whatever the files are; there is one result for each file; the row of
  -- the batch in the table is the batch that the page shows; and the two counts by which the page
  -- chooses its message agree with it: COMPLETE exactly if none failed, PARTIAL exactly if some
  -- failed and some are stored, FAILED exactly if none is stored.
  pub upload_batch_reports :
      (files : List UploadedFile) (w : World)
      → Quiet w
      → 0 < length files
      → has batch_pk draws.batch_id w.db.batches ≡ false
      → All (λ (f : UploadFile). in_batch draws.batch_id f ≡ false) w.db.files
      → AreFresh p draws.file 0 w
      → (batch : UploadBatch) × (results : List UploadFile) × (after : World) × (upload_batch tx p s
            draws user files w
          ≡ (ok (batch, results), after))
        × (length results ≡ length files)
        × (find batch_pk batch.id after.db.batches ≡ some batch)
        × ((batch.status ≡ complete) ↔ (failed_count results ≡ 0))
        × ((batch.status ≡ partial) ↔ ((0 < failed_count results) × (0 < stored_count results)))
        × ((batch.status ≡ BatchStatus.failed) ↔ (stored_count results ≡ 0))
  upload_batch_reports files w q some_file unused others fresh =
      let (batch, results, after, ran) = batch_returns files w q unused fresh in
      let (one_each, written, whole, part, lost) =
        upload_batch-Agrees tx p s draws user files w batch results after q unused others some_file
          ran in
      (batch, results, after, ran, one_each, written, whole, part, lost)
