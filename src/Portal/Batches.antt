-- ===== src/Portal/Batches.antt =====
-- `finalize_batch` of portal/services/uploads.py.
use doorito.Base.{
  ℕ, Bool, none, some, List, [], ◌∷◌, ◌==◌, false, filter, map, count_if, if◌then◌else◌,
}
use doorito.Base.Table.{has, modify}
use doorito.World.{Action, ok, err, not_updated}
use doorito.Common.Transactions.{Transactions}
use doorito.Portal.Models.{
  UploadFile, UploadBatch, FileStatus, BatchStatus, is_stored, is_failed, complete, partial, failed,
}
use doorito.Portal.Create.{batch_pk}

abbrev pub in_batch : ℕ → UploadFile → Bool
in_batch id f = elim f.batch [ none ↦ false | some b ↦ id == b ]

-- `list(batch.files.values_list("status", flat=True))`
unfoldable pub file_statuses : ℕ → List UploadFile → List FileStatus
file_statuses id files = map (λ (f : UploadFile). f.status) (filter (in_batch id) files)

-- The status that the branches choose.
unfoldable pub batch_outcome : List FileStatus → BatchStatus
batch_outcome [] = failed
batch_outcome (x ∷ xs) =
    let successes = count_if is_stored (x ∷ xs) in
    let failures = count_if is_failed (x ∷ xs) in
    if failures == 0 then complete else if successes == 0 then failed else partial

-- `batch.save(update_fields=["status", "updated_at"])`
unfoldable pub save_batch : UploadBatch → ℕ → Action UploadBatch
save_batch batch saved w =
    let batch' = record batch { updated_at = saved } in
    if has batch_pk batch.id w.db.batches
    then (
      ok batch',
      record w {
        db = record w.db {
          batches =
              modify batch_pk batch.id
                (λ row. record row { status = batch.status; updated_at = saved }) w.db.batches;
        };
      },
    )
    else (err not_updated, w)

-- The body of the transaction.
unfoldable pub finalize_body : UploadBatch → ℕ → Action UploadBatch
unfolding file_statuses batch_outcome save_batch
finalize_body batch saved w =
    save_batch (record batch { status = batch_outcome (file_statuses batch.id w.db.files) }) saved w

unfoldable pub finalize_batch : Transactions → UploadBatch → ℕ → Action UploadBatch
unfolding finalize_body
finalize_batch tx batch saved = tx.atomic UploadBatch (finalize_body batch saved)
