-- ===== src/Portal/Outcomes.antt =====
-- What `create_upload_file` (portal/services/uploads.py) does with any file.
use doorito.Base.{
  ℕ, ◌+◌, ◌≡◌, refl, true, false, Option, none, String, any, Bool-cases, ◌⊎◌, inl, inr,
  if◌then◌else◌,
}
use doorito.Base.Table.{has}
use doorito.World.{World, Result, Error, ok, err, integrity_error, validation_error}
use doorito.Common.Transactions.{Transactions}
use doorito.Common.Outbox.Emit.{clashes}
use doorito.Common.Outbox.Emission.{with_event}
use doorito.Common.Outbox.History.{Quiet}
use doorito.Portal.Files.{Platform, Settings, UploadedFile, validate_file}
use doorito.Portal.Create.{file_pk, Draw, failed_row, create_upload_file}
use doorito.Portal.Storing.{
  kept, row_of, event_of, with_file, create_upload_file_stored, create_upload_file_rolled_back,
  create_upload_file_refused,
}
use doorito.Portal.Validation.{Validates, validate_file-Validates}

module _ (tx : Transactions) (p : Platform) (s : Settings) (user : Option ℕ) (file : UploadedFile)
    (batch : Option ℕ) (draw : Draw) (w : World) where
  -- By the answer of the validation: row, event and content are there, with one delivery if the
  -- broker is up; or the event clashes, and only the content is there; or the row is FAILED with
  -- the message, and there is no event.
  abbrev pub Outcome : Result (String × ℕ) → Type 0
  Outcome (ok (content_type, size_bytes)) =
      let row = row_of tx p s user file batch draw w content_type size_bytes in
      let event = event_of tx p s user file batch draw w row in
      let stored =
        with_file tx p s user file batch draw w row (kept tx p s user file batch draw w) in
      ((any (clashes event) w.db.outbox ≡ false)
        × (create_upload_file tx p s user file batch draw w ≡ (
          ok row,
          record (with_event event stored) { sent = w.sent + (if w.broker_up then 1 else 0) },
        )))
      ⊎ ((any (clashes event) w.db.outbox ≡ true)
          × (create_upload_file tx p s user file batch draw w
              ≡ (err integrity_error, kept tx p s user file batch draw w)))
  Outcome (err (validation_error message code)) =
      let row = failed_row user file batch draw message in
      create_upload_file tx p s user file batch draw w
      ≡ (ok row, with_file tx p s user file batch draw w row (kept tx p s user file batch draw w))
  Outcome (err e) = ⊥

  module _ (q : Quiet w) (fresh : has file_pk draw.id w.db.files ≡ false) where
    outcome_by :
        (r : Result (String × ℕ))
        → validate_file p s file none ≡ r
        → Validates p s file none r
        → Outcome r
    outcome_by (ok (content_type, size_bytes)) e v =
        let row = row_of tx p s user file batch draw w content_type size_bytes in
        elim (Bool-cases (any (clashes (event_of tx p s user file batch draw w row)) w.db.outbox)) [
          | inl clash ↦ inr (
            clash,
            create_upload_file_rolled_back tx p s user file batch draw w content_type size_bytes e
                fresh clash,
          )
          | inr clear ↦ inl (
            clear,
            create_upload_file_stored tx p s user file batch draw w content_type size_bytes q.0 q.1
                e fresh clear,
          )
        ]
    outcome_by (err (validation_error message code)) e v =
        create_upload_file_refused tx p s user file batch draw w message code e fresh
    outcome_by (err Error.integrity_error) e v = absurd v
    outcome_by (err Error.not_updated) e v = absurd v
    outcome_by (err Error.does_not_exist) e v = absurd v
    outcome_by (err Error.zero_division) e v = absurd v
    outcome_by (err (Error.value_error m)) e v = absurd v
    outcome_by (err Error.broker_error) e v = absurd v
    outcome_by (err Error.storage_error) e v = absurd v
    outcome_by (err (Error.unexpected m)) e v = absurd v

    -- Outside a transaction and under a fresh primary key, whatever the file is: if it passes
    -- validation and its event breaks no constraint, row, event and content are there and one
    -- delivery is handed over if the broker is up; if its event breaks a constraint, the call
    -- raises, and of all this only the content stays in the storage, with no row that names it; if
    -- the file fails validation, the call returns a FAILED row with the message, whose content is
    -- stored all the same, and there is no event and no delivery. Nothing else happens.
    pub create_upload_file-Outcome : Outcome (validate_file p s file none)
    create_upload_file-Outcome =
        outcome_by (validate_file p s file none) refl (validate_file-Validates p s file none)
