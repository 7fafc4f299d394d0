-- ===== src/Portal/Expiry.antt =====
-- The tasks of portal/tasks.py: the deletion of upload files past their time to live, with what
-- cascades from it.
use doorito.Base.{
  ℕ, ◌+◌, ◌-◌, Bool, String, List, [], ◌∷◌, not, ltb, str_eq, ◌==◌, filter, map, elem, count_if,
  if◌then◌else◌,
}
use doorito.Base.Batch.{first_pks}
use doorito.Base.Sorting.{sort_by}
use doorito.Base.Time.{hours}
use doorito.World.{Action, ok, err, storage_error, pure, ◌>>=◌, ◌>>◌}
use doorito.Portal.Models.{UploadFile, UploadSession, UploadPart}
use doorito.Portal.Files.{Settings}
use doorito.Portal.Create.{file_pk}
use doorito.Portal.Notify.{latest_first}

-- `BATCH_SIZE`
abbrev pub batch_size : ℕ
batch_size = 1000

-- The filter of `expired_qs`: `created_at < now - ttl`.
abbrev pub is_expired : ℕ → ℕ → UploadFile → Bool
is_expired ttl_hours now f = ltb (f.created_at + hours ttl_hours) now

-- What the storage does with a path: the content goes, there was none, or another exception.
pub data Deletion : Type 0 where
  removed not_found refused : Deletion

-- `upload.file.delete(save=False)`; only a `FileNotFoundError` is caught.
unfoldable pub discard : Deletion → String → Action (Unit {0})
discard removed path w = (ok tt, record w { storage = filter (λ p. not (str_eq path p)) w.storage })
discard not_found path w = (ok tt, w)
discard refused path w = (err storage_error, w)

unfoldable pub delete_content : (String → Deletion) → UploadFile → Action (Unit {0})
unfolding discard
delete_content storage upload = discard (storage upload.file) upload.file

-- The loop, with `deleted_files`.
unfoldable pub delete_contents : (String → Deletion) → List UploadFile → Action ℕ
unfolding delete_content
delete_contents storage [] = pure 0
delete_contents storage (upload ∷ uploads) = do
  delete_content storage upload
  deleted_files ← delete_contents storage uploads
  pure (deleted_files + 1)

-- The rows that a deletion of files takes along: their sessions, and the parts of these.
abbrev pub goes_session : List ℕ → UploadSession → Bool
goes_session pks s = elem s.file pks

unfoldable pub gone_sessions : List ℕ → List UploadSession → List ℕ
gone_sessions pks sessions = map (λ (s : UploadSession). s.id) (filter (goes_session pks) sessions)

abbrev pub goes_part : List ℕ → UploadPart → Bool
goes_part session_pks q = elem q.session session_pks

-- `batch.delete()`: its count includes the rows of the other tables.
unfoldable pub delete_batch : List ℕ → Action ℕ
unfolding gone_sessions
delete_batch pks w =
    let session_pks = gone_sessions pks w.db.sessions in
    (
      ok (
          count_if (λ (f : UploadFile). elem f.id pks) w.db.files
          + count_if (goes_session pks) w.db.sessions
          + count_if (goes_part session_pks) w.db.parts),
      record w {
        db = record w.db {
          files = filter (λ (f : UploadFile). not (elem f.id pks)) w.db.files;
          sessions = filter (λ s. not (goes_session pks s)) w.db.sessions;
          parts = filter (λ q. not (goes_part session_pks q)) w.db.parts;
        };
      },
    )

-- `{"deleted": int, "remaining": int}`
pub record Removal : Type 0 where
  pub deleted : ℕ
  pub remaining : ℕ

unfoldable pub expired_pks : ℕ → ℕ → List UploadFile → List ℕ
unfolding first_pks
expired_pks ttl_hours now = first_pks file_pk (is_expired ttl_hours now) batch_size

-- What follows the test for zero.
unfoldable pub delete_expired : (String → Deletion) → ℕ → List ℕ → List UploadFile → Action Removal
unfolding delete_contents delete_batch
delete_expired storage total_expired pks batch = do
  delete_contents storage batch
  deleted_count ← delete_batch pks
  pure (record { deleted = deleted_count; remaining = total_expired - deleted_count })

unfoldable pub cleanup_expired_upload_files_task :
    Settings → (String → Deletion) → ℕ → Action Removal
unfolding expired_pks delete_expired
cleanup_expired_upload_files_task s storage now w =
    let files = w.db.files in
    let total_expired = count_if (is_expired s.file_upload_ttl_hours now) files in
    let pks = expired_pks s.file_upload_ttl_hours now files in
    let batch = sort_by latest_first (filter (λ (f : UploadFile). elem f.id pks) files) in
    if total_expired == 0
    then (ok (record { deleted = 0; remaining = 0 }), w)
    else delete_expired storage total_expired pks batch w
