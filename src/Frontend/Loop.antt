-- ===== src/Frontend/Loop.antt =====
-- What one pass of the loop of the upload page (frontend/views/upload.py) does to the files.
use mathlib.Core.List.{append_assoc, append-nil}
use doorito.Base.{
  ℕ, suc, All, length, ◌≡◌, refl, sym, ◌∙◌, ap, true, false, Option, none, some, String, List, [],
  ◌∷◌, ◌++◌, arith, any, Bool-cases, inl, inr,
}
use doorito.Base.Table.{has}
use doorito.World.{
  World, Result, Error, ok, err, integrity_error, validation_error, continue, pure, ◌>>=◌,
}
use doorito.Common.Transactions.{Transactions, finish}
use doorito.Common.Outbox.Emit.{clashes}
use doorito.Common.Outbox.History.{Quiet}
use doorito.Portal.Models.{UploadFile, UploadBatch, is_uploading}
use doorito.Portal.Files.{Platform, Settings, UploadedFile, validate_file}
use doorito.Portal.Create.{
  Draw, file_pk, failed_row, stored_row, store_and_emit, create_upload_file,
}
use doorito.Portal.Storing.{
  row_of, event_of, create_upload_file_stored, create_upload_file_rolled_back,
  create_upload_file_refused,
}
use doorito.Frontend.Upload.{Draws, upload_each}

-- What holds after a call that returned a row: it was added behind the others, belongs to the batch
-- of the call and is not uploading; the batches are as before, and no callback waits.
pub record Adds (batch : Option ℕ) (row : UploadFile) (w after : World) : Type 0 where
  pub added : after.db.files ≡ w.db.files ++ row ∷ []
  pub of_batch : row.batch ≡ batch
  pub settled : is_uploading row.status ≡ false
  pub same_batches : after.db.batches ≡ w.db.batches
  pub quiet : Quiet after

-- The answer of a call, where it is not an exception, satisfies `Adds`.
AddsIfOk : Option ℕ → World → Result UploadFile × World → Type 0
AddsIfOk batch w (ok row, after) = Adds batch row w after
AddsIfOk batch w (err e, after) = Unit

module _ (tx : Transactions) (p : Platform) (s : Settings) (user : Option ℕ) (file : UploadedFile)
    (batch : Option ℕ) (draw : Draw) (w : World) (q : Quiet w) where
  taken_key :
      (content_type : String) (size_bytes : ℕ)
      → validate_file p s file none ≡ ok (content_type, size_bytes)
      → has file_pk draw.id w.db.files ≡ true
      → (create_upload_file tx p s user file batch draw w).0 ≡ err integrity_error
  unfolding create_upload_file finish
  taken_key content_type size_bytes valid taken =
      let row = row_of tx p s user file batch draw w content_type size_bytes in
      rw (valid, tx.atomic_runs UploadFile (store_and_emit tx p s row draw.event) w, taken) refl

  AddsIfOk-err : {e : Error} (r : Result UploadFile × World) → r.0 ≡ err e → AddsIfOk batch w r
  unfolding AddsIfOk
  AddsIfOk-err (ok row, v) h = absurd (ground (arith, h))
  AddsIfOk-err (err e, v) h = tt

  adds_valid :
      (content_type : String) (size_bytes : ℕ)
      → validate_file p s file none ≡ ok (content_type, size_bytes)
      → AddsIfOk batch w (create_upload_file tx p s user file batch draw w)
  unfolding AddsIfOk stored_row
  adds_valid content_type size_bytes valid =
      let row = row_of tx p s user file batch draw w content_type size_bytes in
      elim (Bool-cases (has file_pk draw.id w.db.files)) [
        | inl taken ↦
            AddsIfOk-err (create_upload_file tx p s user file batch draw w)
              (taken_key content_type size_bytes valid taken)
        | inr fresh ↦
            elim (Bool-cases
              (any (clashes (event_of tx p s user file batch draw w row)) w.db.outbox)) [
                | inl clash ↦
                    rw
                      (create_upload_file_rolled_back tx p s user file batch draw w content_type
                        size_bytes valid fresh clash)
                      tt
                | inr clear ↦
                    rw
                      (create_upload_file_stored tx p s user file batch draw w content_type
                        size_bytes q.0 q.1 valid fresh clear)
                      (record {
                        added = refl;
                        of_batch = refl;
                        settled = refl;
                        same_batches = refl;
                        quiet = q;
                      })
              ]
      ]

  refused_taken :
      (message code : String)
      → validate_file p s file none ≡ err (validation_error message code)
      → has file_pk draw.id w.db.files ≡ true
      → (create_upload_file tx p s user file batch draw w).0 ≡ err integrity_error
  unfolding create_upload_file
  refused_taken message code bad taken = rw (bad, taken) refl

  adds_refused :
      (message code : String)
      → validate_file p s file none ≡ err (validation_error message code)
      → AddsIfOk batch w (create_upload_file tx p s user file batch draw w)
  unfolding AddsIfOk failed_row
  adds_refused message code bad = elim (Bool-cases (has file_pk draw.id w.db.files)) [
    | inl taken ↦
        AddsIfOk-err (create_upload_file tx p s user file batch draw w)
          (refused_taken message code bad taken)
    | inr fresh ↦
        rw (create_upload_file_refused tx p s user file batch draw w message code bad fresh)
          (record { added = refl; of_batch = refl; settled = refl; same_batches = refl; quiet = q })
  ]

  adds_by :
      (r : Result (String × ℕ))
      → validate_file p s file none ≡ r
      → AddsIfOk batch w (create_upload_file tx p s user file batch draw w)
  unfolding AddsIfOk create_upload_file
  adds_by (ok (content_type, size_bytes)) e = adds_valid content_type size_bytes e
  adds_by (err (validation_error message code)) e = adds_refused message code e
  adds_by (err integrity_error) e = rw e tt
  adds_by (err Error.not_updated) e = rw e tt
  adds_by (err Error.does_not_exist) e = rw e tt
  adds_by (err Error.zero_division) e = rw e tt
  adds_by (err (Error.value_error m)) e = rw e tt
  adds_by (err Error.broker_error) e = rw e tt
  adds_by (err Error.storage_error) e = rw e tt
  adds_by (err (Error.unexpected m)) e = rw e tt

  create_upload_file-AddsIfOk : AddsIfOk batch w (create_upload_file tx p s user file batch draw w)
  create_upload_file-AddsIfOk = adds_by (validate_file p s file none) refl

-- After the loop the results are behind the files of before, in order; each is in the batch and
-- none is uploading.
pub record Grown (id : ℕ) (count : ℕ) (results : List UploadFile) (w after : World) : Type 0 where
  pub all_added : after.db.files ≡ w.db.files ++ results
  pub all_in_batch : All (λ (f : UploadFile). f.batch ≡ some id) results
  pub all_settled : All (λ (f : UploadFile). is_uploading f.status ≡ false) results
  pub batches_kept : after.db.batches ≡ w.db.batches
  pub still_quiet : Quiet after
  pub one_each : length results ≡ count

unfoldable pub GrownIfOk : ℕ → ℕ → World → Result (List UploadFile) × World → Type 0
GrownIfOk id count w (ok results, after) = Grown id count results w after
GrownIfOk id count w (err e, after) = Unit

module _ (tx : Transactions) (p : Platform) (s : Settings) (draws : Draws) (user : Option ℕ)
    (batch : UploadBatch) where
  -- One more file in front of what the rest of the loop did.
  grow :
      (count : ℕ) (row : UploadFile) (w v : World) (r : Result (List UploadFile) × World)
      → Adds (some batch.id) row w v
      → GrownIfOk batch.id count v r
      → GrownIfOk batch.id (suc count) w (continue r (λ results. pure (row ∷ results)))
  unfolding GrownIfOk
  grow count row w v (ok results, after) a g = record {
    all_added =
        g.all_added
        ∙ ap (λ (fs : List UploadFile). fs ++ results) a.added
        ∙ append_assoc w.db.files (row ∷ []) results;
    all_in_batch = (a.of_batch, g.all_in_batch);
    all_settled = (a.settled, g.all_settled);
    batches_kept = g.batches_kept ∙ a.same_batches;
    still_quiet = g.still_quiet;
    one_each = ap (λ (n : ℕ). suc n) g.one_each;
  }
  grow count row w v (err e, after) a g = tt

  step_on :
      (count n : ℕ) (fs : List UploadedFile) (w : World) (r : Result UploadFile × World)
      → AddsIfOk (some batch.id) w r
      → ((v : World)
          → Quiet v
          → GrownIfOk batch.id count v (upload_each tx p s draws user batch n fs v))
      → GrownIfOk batch.id (suc count) w (
          continue r
            (λ row. upload_each tx p s draws user batch n fs >>= λ results. pure (row ∷ results)))
  unfolding AddsIfOk GrownIfOk
  step_on count n fs w (ok row, v) a rest =
      grow count row w v (upload_each tx p s draws user batch n fs v) a (rest v a.quiet)
  step_on count n fs w (err e, v) a rest = tt

  pub upload_each-GrownIfOk :
      (n : ℕ) (files : List UploadedFile) (w : World)
      → Quiet w
      → GrownIfOk batch.id (length files) w (upload_each tx p s draws user batch n files w)
  unfolding upload_each GrownIfOk
  upload_each-GrownIfOk n [] w q = record {
    all_added = sym (append-nil w.db.files);
    all_in_batch = tt;
    all_settled = tt;
    batches_kept = refl;
    still_quiet = q;
    one_each = refl;
  }
  upload_each-GrownIfOk n (f ∷ fs) w q =
      step_on (length fs) (suc n) fs w
        (create_upload_file tx p s user f (some batch.id) (draws.file n) w)
        (create_upload_file-AddsIfOk tx p s user f (some batch.id) (draws.file n) w q)
        (λ v qv. upload_each-GrownIfOk (suc n) fs v qv)
