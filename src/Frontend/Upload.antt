-- ===== src/Frontend/Upload.antt =====
-- frontend/views/upload.py under frontend/decorators.py: the page that uploads files.
use Prim.Native.String.{◌++◌}
use doorito.Base.{
  ℕ, suc, Bool, true, false, Option, some, String, List, [], ◌∷◌, ltb, ◌==◌, length, count_if,
  if◌then◌else◌,
}
use doorito.Base.Text.{show}
use doorito.World.{Action, pure, ◌>>=◌}
use doorito.Common.Transactions.{Transactions}
use doorito.Portal.Models.{UploadBatch, UploadFile, is_stored, is_failed}
use doorito.Portal.Files.{Platform, Settings, UploadedFile}
use doorito.Portal.Create.{Draw, create_batch, create_upload_file}
use doorito.Portal.Batches.{finalize_batch}
use doorito.Frontend.Decorators.{frontend_login_required}
use doorito.Frontend.Http.{
  Method, HttpRequest, Response, get, post, other, success, warning, error, page, error_partial,
  results_partial, message_and_redirect, not_allowed,
}

-- `MAX_FILES_PER_REQUEST`
abbrev pub max_files_per_request : ℕ
max_files_per_request = 10

-- What a request draws from its surroundings, for the batch and for each of its files.
pub record Draws : Type 0 where
  pub batch_id : ℕ
  pub created : ℕ
  pub finalized : ℕ
  pub file : ℕ → Draw

unfoldable pub refuse : Bool → String → Response
refuse true message = error_partial message
refuse false message = message_and_redirect error message

abbrev pub stored_count : List UploadFile → ℕ
stored_count = count_if (λ (r : UploadFile). is_stored r.status)

abbrev pub failed_count : List UploadFile → ℕ
failed_count = count_if (λ (r : UploadFile). is_failed r.status)

-- The message by the two counts.
unfoldable pub report : ℕ → ℕ → Response
report good bad =
    if bad == 0
    then message_and_redirect success ("Uploaded " ++ (show good ++ " file(s) successfully."))
    else if ltb 0 good
    then message_and_redirect warning
        ("Uploaded " ++ (show good ++ (" file(s), " ++ (show bad ++ " failed."))))
    else message_and_redirect error ("All " ++ (show bad ++ " file(s) failed to upload."))

unfoldable pub respond : Bool → UploadBatch → List UploadFile → Response
unfolding report
respond htmx batch results =
    if htmx
    then results_partial results batch (stored_count results) (failed_count results)
    else report (stored_count results) (failed_count results)

module _ (tx : Transactions) (p : Platform) (s : Settings) (draws : Draws) where
  -- The loop over the files, the n-th of which draws `draws.file n`.
  unfoldable pub upload_each :
      Option ℕ → UploadBatch → ℕ → List UploadedFile → Action (List UploadFile)
  unfolding create_upload_file
  upload_each user batch n [] = pure []
  upload_each user batch n (f ∷ fs) = do
    upload ← create_upload_file tx p s user f (some batch.id) (draws.file n)
    results ← upload_each user batch (suc n) fs
    pure (upload ∷ results)

  -- The batch of one request, as the instance stands after `finalize_batch`, and its results.
  unfoldable pub upload_batch :
      Option ℕ → List UploadedFile → Action (UploadBatch × List UploadFile)
  unfolding upload_each create_batch finalize_batch
  upload_batch user files = do
    batch ← create_batch user "" draws.batch_id draws.created
    results ← upload_each user batch 0 files
    final ← finalize_batch tx batch draws.finalized
    pure (final, results)

  -- A POST.
  unfoldable pub upload_files : HttpRequest → Action Response
  unfolding upload_batch refuse respond
  upload_files request =
      if length request.files == 0
      then pure (refuse request.htmx "No files selected.")
      else if ltb max_files_per_request (length request.files)
      then pure (
          refuse request.htmx
            ("Too many files. Maximum " ++ (show max_files_per_request ++ " files per upload.")))
      else (do
        (batch, results) ← upload_batch request.session.user request.files
        pure (respond request.htmx batch results))

  abbrev pub by_method : Method → HttpRequest → Action Response
  by_method get request = pure page
  by_method post request = upload_files request
  by_method other request = pure not_allowed

  unfoldable pub upload_view : (String → String) → HttpRequest → Action Response
  unfolding upload_files frontend_login_required
  upload_view urlencode =
      frontend_login_required urlencode (λ request. by_method request.method request)
