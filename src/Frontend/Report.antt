-- ===== src/Frontend/Report.antt =====
-- That the report of the upload page (frontend/views/upload.py) agrees with the batch.
use doorito.Base.{
  ℕ, ◌+◌, ◌<◌, ◌≡◌, refl, sym, ◌∙◌, ap, ◌↔◌, true, false, Option, some, List, [], ◌∷◌, ◌++◌, arith,
  All, map, length, count_if, ==_refl,
}
use doorito.Base.Table.{find, has}
use doorito.World.{World, Result, ok, err, continue, pure, ◌>>=◌}
use doorito.Common.Transactions.{Transactions}
use doorito.Common.Outbox.History.{Quiet}
use doorito.Portal.Models.{
  UploadBatch, UploadFile, BatchStatus, is_stored, is_failed, is_uploading, complete, partial,
}
use doorito.Portal.Files.{Platform, Settings, UploadedFile}
use doorito.Portal.Create.{batch_pk, create_batch}
use doorito.Portal.Batches.{in_batch, file_statuses, batch_outcome, finalize_batch}
use doorito.World.Actions.{continue-ok}
use doorito.Portal.Verdicts.{finalize_batch_row, batch_outcome_contract}
use doorito.Frontend.Upload.{Draws, upload_each, upload_batch, stored_count, failed_count}
use doorito.Frontend.Loop.{GrownIfOk, upload_each-GrownIfOk}

abbrev status_of : UploadFile → doorito.Portal.Models.FileStatus
status_of f = f.status

statuses_added :
    (id : ℕ) (old new : List UploadFile)
    → All (λ (f : UploadFile). in_batch id f ≡ false) old
    → All (λ (f : UploadFile). f.batch ≡ some id) new
    → file_statuses id (old ++ new) ≡ map status_of new
unfolding file_statuses
statuses_added id [] [] o n = refl
statuses_added id [] (f ∷ fs) o n =
    let here : in_batch id f ≡ true = rw (n.0, ==_refl id) refl in
    rw here (ap (λ xs. f.status ∷ xs) (statuses_added id [] fs tt n.1))
statuses_added id (f ∷ fs) new o n = rw o.0 (statuses_added id fs new o.1 n)

pub find-snoc :
    (row : UploadBatch) (xs : List UploadBatch)
    → has batch_pk row.id xs ≡ false
    → find batch_pk row.id (xs ++ row ∷ []) ≡ some row
find-snoc row [] h = rw (==_refl row.id) refl
find-snoc row (x ∷ xs) h = ground (arith, find-snoc row xs)

-- The counts of the report are those of the statuses.
pub counts :
    (rs : List UploadFile)
    → All (λ (f : UploadFile). is_uploading f.status ≡ false) rs
    → (count_if is_stored (map status_of rs) ≡ stored_count rs)
      × (count_if is_failed (map status_of rs) ≡ failed_count rs)
      × (count_if is_uploading (map status_of rs) ≡ 0)
      × (length (map status_of rs) ≡ length rs)
      × (stored_count rs + failed_count rs ≡ length rs)
counts [] h = (refl, refl, refl, refl, refl)
counts (f ∷ fs) h = ground (arith, counts fs h.1, h.0)

-- What the page reports of its batch.
abbrev pub Agrees : ℕ → UploadBatch → List UploadFile → World → Type 0
Agrees count batch results after =
    (length results ≡ count)
    × (batch.status ≡ batch_outcome (map (λ (f : UploadFile). f.status) results))
    × (find batch_pk batch.id after.db.batches ≡ some batch)
    × All (λ (f : UploadFile). is_uploading f.status ≡ false) results

AgreesIfOk : ℕ → Result (UploadBatch × List UploadFile) × World → Type 0
AgreesIfOk count (ok (batch, results), after) = Agrees count batch results after
AgreesIfOk count (err e, after) = Unit

module _ (tx : Transactions) (p : Platform) (s : Settings) (draws : Draws) where
  after_loop :
      (row : UploadBatch) (count : ℕ) (w : World) (r : Result (List UploadFile) × World)
      → find batch_pk row.id w.db.batches ≡ some row
      → All (λ (f : UploadFile). in_batch row.id f ≡ false) w.db.files
      → GrownIfOk row.id count w r
      → AgreesIfOk count (
          continue r
            (λ results. finalize_batch tx row draws.finalized >>= λ final. pure (final, results)))
  unfolding AgreesIfOk GrownIfOk
  after_loop row count w (ok results, v) found others g =
      let here = ap (λ (bs : List UploadBatch). find batch_pk row.id bs) g.batches_kept ∙ found in
      let (answer, written, _, _) =
        finalize_batch_row tx row row draws.finalized v g.still_quiet.0 here in
      let statuses =
        ap (λ (fs : List UploadFile). file_statuses row.id fs) g.all_added
        ∙ statuses_added row.id w.db.files results others g.all_in_batch in
      rw
        (continue-ok {B = UploadBatch × List UploadFile}
          (λ (final : UploadBatch). pure (final, results)) (finalize_batch tx row draws.finalized v)
          (record row {
            status = batch_outcome (file_statuses row.id v.db.files);
            updated_at = draws.finalized;
          })
          answer)
        (g.one_each, ap batch_outcome statuses, written, g.all_settled)
  after_loop row count w (err e, v) found others g = tt

  upload_batch-AgreesIfOk :
      (user : Option ℕ) (files : List UploadedFile) (w : World)
      → Quiet w
      → has batch_pk draws.batch_id w.db.batches ≡ false
      → All (λ (f : UploadFile). in_batch draws.batch_id f ≡ false) w.db.files
      → AgreesIfOk (length files) (upload_batch tx p s draws user files w)
  unfolding upload_batch create_batch
  upload_batch-AgreesIfOk user files w q fresh others =
      let row : UploadBatch = record {
        id = draws.batch_id;
        created_by = user;
        status = BatchStatus.init;
        idempotency_key = "";
        created_at = draws.created;
        updated_at = draws.created;
      } in
      let w' = record w { db = record w.db { batches = w.db.batches ++ row ∷ [] } } in
      rw fresh (
        after_loop row (length files) w' (upload_each tx p s draws user row 0 files w')
          (find-snoc row w.db.batches fresh) others
          (upload_each-GrownIfOk tx p s draws user row 0 files w' q))

  -- If, outside a transaction, under a fresh key for the batch and with at least one file, the page
  -- has stored its files and finalized the batch, then there is one result for each file; the row
  -- of the batch in the table is the batch that the page shows; and the two counts by which the page
  -- chooses its message agree with it: COMPLETE exactly if none failed, PARTIAL exactly if some
  -- failed and some are stored, FAILED exactly if none is stored.
  pub upload_batch-Agrees :
      (user : Option ℕ) (files : List UploadedFile) (w : World) (batch : UploadBatch)
      (results : List UploadFile) (after : World)
      → Quiet w
      → has batch_pk draws.batch_id w.db.batches ≡ false
      → All (λ (f : UploadFile). in_batch draws.batch_id f ≡ false) w.db.files
      → 0 < length files
      → upload_batch tx p s draws user files w ≡ (ok (batch, results), after)
      → (length results ≡ length files)
        × (find batch_pk batch.id after.db.batches ≡ some batch)
        × ((batch.status ≡ complete) ↔ (failed_count results ≡ 0))
        × ((batch.status ≡ partial) ↔ ((0 < failed_count results) × (0 < stored_count results)))
        × ((batch.status ≡ BatchStatus.failed) ↔ (stored_count results ≡ 0))
  unfolding AgreesIfOk
  upload_batch-Agrees user files w batch results after q fresh others some_file ran =
      let agrees : Agrees (length files) batch results after =
        rw ran at (upload_batch-AgreesIfOk user files w q fresh others) in
      let (good, bad, unfinished, same, sum) = counts results agrees.3 in
      let (whole, part, lost) = batch_outcome_contract (map status_of results) unfinished in
      let st : batch.status ≡ batch_outcome (map status_of results) = agrees.1 in
      let one_each : length results ≡ length files = agrees.0 in
      (
        one_each,
        agrees.2,
        (
          (λ e. omega (arith, whole.0 (sym st ∙ e), good, same, sum)),
          λ e.
              st
              ∙ whole.1
                  (omega (arith, one_each, same, some_file), omega (arith, good, same, sum, e)),
        ),
        (
          (λ e.
              let both = part.0 (sym st ∙ e) in
              (omega (arith, both, bad), omega (arith, both, good))),
          λ e. st ∙ part.1 (omega (arith, e, good), omega (arith, e, bad)),
        ),
        (
          (λ e. omega (arith, lost.0 (sym st ∙ e), bad, same, sum)),
          λ e. st ∙ lost.1 (omega (arith, bad, same, sum, e)),
        ),
      )
