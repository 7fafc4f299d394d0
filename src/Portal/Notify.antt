-- ===== src/Portal/Notify.antt =====
-- `notify_expiring_files` of portal/services/uploads.py, and its task in portal/tasks.py. The
-- comparison `created_at < now - (ttl - notify)` is written `created_at + ttl < now + notify`.
use doorito.Base.{
  ℕ, ◌+◌, Bool, true, false, Option, none, some, String, List, [], ◌∷◌, ◌&&◌, ltb, leb, filter,
}
use doorito.Base.Sorting.{sort_by}
use doorito.Base.Time.{hours}
use doorito.World.{World, Action, Result, ok, err, integrity_error, pure, ◌>>=◌}
use doorito.Common.Models.{OutboxEvent, Payload, text, number}
use doorito.Common.Transactions.{Transactions}
use doorito.Common.Outbox.Emit
use doorito.Common.Outbox.Emit.{emit_event}
use doorito.Portal.Models.{UploadFile, is_stored}
use doorito.Portal.Files.{Platform, Settings}

-- `ordering` of the model: the latest row first.
abbrev pub latest_first : UploadFile → UploadFile → Bool
latest_first a b = leb b.created_at a.created_at

unfoldable pub hours_or_default : Option ℕ → ℕ → ℕ
hours_or_default none default_hours = default_hours
hours_or_default (some n) default_hours = n

-- The filter of `expiring_qs`.
abbrev pub is_expiring : ℕ → ℕ → ℕ → UploadFile → Bool
is_expiring ttl_hours notify_hours now f =
    is_stored f.status && ltb (f.created_at + hours ttl_hours) (now + hours notify_hours)

-- The payload of `file.expiring`; `str_datetime` stands for `str` of an instant.
unfoldable pub expiring_payload : Platform → (ℕ → String) → ℕ → UploadFile → Payload
expiring_payload p str_datetime ttl_hours upload =
    ("file_id", text (p.str_uuid upload.id))
    ∷ ("original_filename", text upload.original_filename)
    ∷ ("content_type", text upload.content_type)
    ∷ ("size_bytes", number upload.size_bytes)
    ∷ ("sha256", text upload.sha256)
    ∷ ("url", text (p.url upload.file))
    ∷ ("expires_at", text (str_datetime (upload.created_at + hours ttl_hours)))
    ∷ []

-- `{"notified": int, "skipped": int}`
pub record Notices : Type 0 where
  pub notified : ℕ
  pub skipped : ℕ

-- `except IntegrityError`: the event was there before.
abbrev pub tell : Result OutboxEvent × World → Result Bool × World
tell (ok event, w) = (ok true, w)
tell (err integrity_error, w) = (ok false, w)
tell (err e, w) = (err e, w)

-- One more file that was notified, or skipped.
abbrev pub note : Bool → Notices → Notices
note true n = record n { notified = n.notified + 1 }
note false n = record n { skipped = n.skipped + 1 }

module _ (tx : Transactions) (p : Platform) (str_datetime : ℕ → String) (ttl_hours : ℕ)
    (draws : ℕ → Emit.Draw) where
  abbrev pub emit_expiring : UploadFile → Action OutboxEvent
  emit_expiring upload =
      emit_event tx "UploadFile" (p.str_uuid upload.id) "file.expiring"
        (some (expiring_payload p str_datetime ttl_hours upload)) none (draws upload.id)

  -- One pass of the loop: whether the file was notified.
  unfoldable pub notify_file : UploadFile → Action Bool
  unfolding expiring_payload
  notify_file upload w = tell (tx.atomic OutboxEvent (emit_expiring upload) w)

  unfoldable pub notify_each : List UploadFile → Action Notices
  unfolding notify_file
  notify_each [] = pure (record { notified = 0; skipped = 0 })
  notify_each (upload ∷ uploads) = do
    told ← notify_file upload
    rest ← notify_each uploads
    pure (note told rest)

module _ (tx : Transactions) (p : Platform) (s : Settings) (str_datetime : ℕ → String)
    (draws : ℕ → Emit.Draw) where
  unfoldable pub notify_expiring_files : Option ℕ → Option ℕ → ℕ → Action Notices
  unfolding hours_or_default notify_each
  notify_expiring_files ttl_hours notify_hours now w =
      let ttl = hours_or_default ttl_hours s.file_upload_ttl_hours in
      let notice = hours_or_default notify_hours s.file_upload_expiry_notify_hours in
      notify_each tx p str_datetime ttl draws
        (sort_by latest_first (filter (is_expiring ttl notice now) w.db.files)) w

  -- `notify_expiring_files_task`
  unfoldable pub notify_expiring_files_task : ℕ → Action Notices
  unfolding notify_expiring_files
  notify_expiring_files_task now = notify_expiring_files none none now
