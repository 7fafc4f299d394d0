-- ===== src/Portal/Finalized.antt =====
-- The row that `finalize_batch` (portal/services/uploads.py) leaves, against the files in the table.
use doorito.Base.{
  ℕ, ◌<◌, ◌≡◌, refl, ◌↔◌, Bool, false, none, some, List, [], ◌∷◌, arith, count_if, length, ◌==◌,
  ◌&&◌, Bool-cases, Option-cases, inl, inr,
}
use doorito.Base.Table.{find}
use doorito.World.{World, ok}
use doorito.Common.Transactions.{Transactions}
use doorito.Common.Outbox.Sweep.{Idle}
use doorito.Portal.Models.{
  UploadFile, UploadBatch, FileStatus, BatchStatus, is_stored, is_failed, is_uploading, complete,
  partial,
}
use doorito.Portal.Create.{batch_pk}
use doorito.Portal.Batches.{in_batch, batch_outcome, file_statuses, finalize_batch}
use doorito.Portal.Verdicts.{batch_outcome_contract, finalize_batch_row}

-- The file names the batch.
abbrev pub belongs : ℕ → UploadFile → Bool
belongs id f = elim f.batch [ none ↦ false | some b ↦ b == id ]

-- The files of the batch with a status that passes the test.
abbrev pub tally : (FileStatus → Bool) → ℕ → List UploadFile → ℕ
tally p id files = count_if (λ (f : UploadFile). belongs id f && p f.status) files

in_batch-belongs : (id : ℕ) (f : UploadFile) → in_batch id f ≡ belongs id f
in_batch-belongs id f = elim (Option-cases f.batch) [
  | inl alone ↦ rw alone refl
  | inr (b, member) ↦ rw member (ground arith)
]

count_if-file_statuses :
    (p : FileStatus → Bool) (id : ℕ) (files : List UploadFile)
    → count_if p (file_statuses id files) ≡ tally p id files
unfolding file_statuses
count_if-file_statuses p id [] = refl
count_if-file_statuses p id (f ∷ files) = elim (Bool-cases (in_batch id f)) [
  | inl member ↦ ground (arith, in_batch-belongs id f, member, count_if-file_statuses p id files)
  | inr other ↦ ground (arith, in_batch-belongs id f, other, count_if-file_statuses p id files)
]

length-file_statuses :
    (id : ℕ) (files : List UploadFile)
    → length (file_statuses id files) ≡ count_if (belongs id) files
unfolding file_statuses
length-file_statuses id [] = refl
length-file_statuses id (f ∷ files) = elim (Bool-cases (in_batch id f)) [
  | inl member ↦ ground (arith, in_batch-belongs id f, member, length-file_statuses id files)
  | inr other ↦ ground (arith, in_batch-belongs id f, other, length-file_statuses id files)
]

-- With no callback waiting, on a batch that is in the table and no file of which is still uploading:
-- `finalize_batch` returns the batch with a status that its row gets as well, with the time of the
-- save, and that is COMPLETE exactly if there is a file that names the batch and all these are
-- stored, PARTIAL exactly if some of them are stored and some failed, and FAILED exactly if all of
-- them failed, or there is none; neither another batch nor a file changes.
pub finalize_batch_contract :
    (tx : Transactions) (batch row : UploadBatch) (saved : ℕ) (w : World)
    → Idle w
    → find batch_pk batch.id w.db.batches ≡ some row
    → tally is_uploading batch.id w.db.files ≡ 0
    → let all = count_if (belongs batch.id) w.db.files in
      let good = tally is_stored batch.id w.db.files in
      let bad = tally is_failed batch.id w.db.files in
      let (answer, w') = finalize_batch tx batch saved w in
      (status : BatchStatus) × (answer ≡ ok (record batch { status = status; updated_at = saved }))
      × (find batch_pk batch.id w'.db.batches
          ≡ some (record row { status = status; updated_at = saved }))
      × ((status ≡ complete) ↔ ((0 < all) × (good ≡ all)))
      × ((status ≡ partial) ↔ ((0 < good) × (0 < bad)))
      × ((status ≡ BatchStatus.failed) ↔ (bad ≡ all))
      × ((other : ℕ)
          → (other == batch.id) ≡ false
          → find batch_pk other w'.db.batches ≡ find batch_pk other w.db.batches)
      × (w'.db.files ≡ w.db.files)
finalize_batch_contract tx batch row saved w idle found settled =
    let xs = file_statuses batch.id w.db.files in
    let (answered, kept, others, files) = finalize_batch_row tx batch row saved w idle found in
    let none_open : count_if is_uploading xs ≡ 0 =
      rw (count_if-file_statuses is_uploading batch.id w.db.files) settled in
    let (all_good, some_good, none_good) =
      rw
        (
          count_if-file_statuses is_stored batch.id w.db.files,
          count_if-file_statuses is_failed batch.id w.db.files,
          length-file_statuses batch.id w.db.files,
        )
        at (batch_outcome_contract xs none_open) in
    (batch_outcome xs, answered, kept, all_good, some_good, none_good, others, files)
