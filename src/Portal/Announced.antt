-- ===== src/Portal/Announced.antt =====
-- `notify_expiring_files` (portal/services/uploads.py) as a whole, and called twice.
use doorito.Base.{
  ℕ, ◌+◌, ◌≡◌, refl, ◌∙◌, ap, true, Option, String, List, All, any, length, count_if, filter,
  length-filter,
}
use doorito.Base.Sorting.{sort_by, length-sort_by}
use doorito.World.{World, ok}
use doorito.Common.Transactions.{Transactions}
use doorito.Common.Outbox.Emit
use doorito.Common.Outbox.History.{Quiet}
use doorito.Portal.Models.{UploadFile}
use doorito.Portal.Files.{Platform, Settings}
use doorito.Portal.Notify.{
  Notices, notify_each, notify_expiring_files, hours_or_default, is_expiring, latest_first,
}
use doorito.Portal.Noticed.{expected, notify_each-eq, expected_counts}
use doorito.Portal.Notified.{Fresh, announces, expected-announces, expected_idle, expected_keeps}

-- The files that a call looks at, the latest first.
abbrev pub expiring : Settings → Option ℕ → Option ℕ → ℕ → List UploadFile → List UploadFile
expiring s ttl_hours notify_hours now files = sort_by latest_first (
    filter
      (is_expiring (hours_or_default ttl_hours s.file_upload_ttl_hours)
        (hours_or_default notify_hours s.file_upload_expiry_notify_hours) now)
      files)

module _ (tx : Transactions) (p : Platform) (s : Settings) (str_datetime : ℕ → String)
    (draws later : ℕ → Emit.Draw) (ttl_hours notify_hours : Option ℕ) (now : ℕ) (w : World) where
  abbrev uploads : List UploadFile
  uploads = expiring s ttl_hours notify_hours now w.db.files

  abbrev ttl : ℕ
  ttl = hours_or_default ttl_hours s.file_upload_ttl_hours

  abbrev notice : ℕ
  notice = hours_or_default notify_hours s.file_upload_expiry_notify_hours

  number : length uploads ≡ count_if (is_expiring ttl notice now) w.db.files
  number =
      length-sort_by latest_first (filter (is_expiring ttl notice now) w.db.files)
      ∙ length-filter (is_expiring ttl notice now) w.db.files

  first-eq :
      Quiet w
      → notify_expiring_files tx p s str_datetime draws ttl_hours notify_hours now w ≡ (
        ok (expected tx p str_datetime ttl draws uploads w).0,
        (expected tx p str_datetime ttl draws uploads w).1,
      )
  unfolding notify_expiring_files
  first-eq q = notify_each-eq tx p str_datetime ttl draws uploads w q

  -- Outside transactions the call returns; each file that is stored and within the notice of its
  -- expiry is counted once, as notified or as skipped, and the outbox has one more row for each
  -- that was notified.
  pub notify_expiring_files_counts :
      Quiet w
      → let (answer, after) =
          notify_expiring_files tx p s str_datetime draws ttl_hours notify_hours now w in
        (n : Notices) × (answer ≡ ok n)
        × (n.notified + n.skipped
            ≡ count_if
                (is_expiring
                  (hours_or_default ttl_hours s.file_upload_ttl_hours)
                  (hours_or_default notify_hours s.file_upload_expiry_notify_hours)
                  now)
                w.db.files)
        × (length after.db.outbox ≡ length w.db.outbox + n.notified)
  notify_expiring_files_counts q =
      let (sum, rows) = expected_counts tx p str_datetime ttl draws uploads w in
      rw (first-eq q) ((expected tx p str_datetime ttl draws uploads w).0, refl, sum ∙ number, rows)

  again :
      (v : World)
      → Quiet v
      → v.db.files ≡ w.db.files
      → All (λ f. any (announces p f) v.db.outbox ≡ true) uploads
      → notify_expiring_files tx p s str_datetime later ttl_hours notify_hours now v
        ≡ (ok (record { notified = 0; skipped = length uploads }), v)
  unfolding notify_expiring_files
  again v quiet files told =
      ap
        (λ (fs : List UploadFile).
          notify_each tx p str_datetime ttl later (expiring s ttl_hours notify_hours now fs) v)
        files
      ∙ notify_each-eq tx p str_datetime ttl later uploads v quiet
      ∙ ap (λ (n : Notices × World). (ok n.0, n.1))
          (expected_idle tx p str_datetime ttl later uploads v told)

  -- Outside transactions, if the drawn primary keys are fresh: after a call each file that is
  -- stored and within the notice of its expiry has its event `file.expiring` in the outbox, and a
  -- second call at the same instant, whatever it draws, notifies nobody, skips them all and
  -- changes nothing.
  pub notify_expiring_files_once :
      Quiet w
      → Fresh tx p str_datetime
          (hours_or_default ttl_hours s.file_upload_ttl_hours)
          draws
          (expiring s ttl_hours notify_hours now w.db.files)
          w.db.outbox
      → let after =
          (notify_expiring_files tx p s str_datetime draws ttl_hours notify_hours now w).1 in
        All
          (λ f. any (announces p f) after.db.outbox ≡ true)
          (expiring s ttl_hours notify_hours now w.db.files)
        × (notify_expiring_files tx p s str_datetime later ttl_hours notify_hours now after ≡ (
          ok (record {
            notified = 0;
            skipped = length (expiring s ttl_hours notify_hours now w.db.files);
          }),
          after,
        ))
  notify_expiring_files_once q fresh =
      let v = (expected tx p str_datetime ttl draws uploads w).1 in
      let (quiet, files) = expected_keeps tx p str_datetime ttl draws uploads w q in
      let told = expected-announces tx p str_datetime ttl draws uploads w fresh in
      rw (first-eq q) (told, again v quiet files told)
