-- ===== src/Portal/Noticed.antt =====
-- A run of `notify_expiring_files` (portal/services/uploads.py), file by file, as a function of the
-- state, and what it counts.
use doorito.Base.{
  ℕ, ◌+◌, ◌≡◌, refl, Bool, none, some, String, List, [], ◌∷◌, not, arith, any, length,
  length-append, if◌then◌else◌, Bool-cases, inl, inr,
}
use doorito.World.{World, ok}
use doorito.Common.Models.{OutboxEvent}
use doorito.Common.Transactions.{Transactions, finish, enter}
use doorito.Common.Outbox.Emit
use doorito.Common.Outbox.Emit.{clashes, new_event, key_or_default}
use doorito.Common.Outbox.History.{Quiet}
use doorito.Common.Outbox.Emission.{emit_event_outcome, emit_committed, with_event}
use doorito.Portal.Models.{UploadFile}
use doorito.Portal.Files.{Platform}
use doorito.Portal.Notify.{Notices, note, emit_expiring, expiring_payload, notify_file, notify_each}

module _ (tx : Transactions) (p : Platform) (str_datetime : ℕ → String) (ttl_hours : ℕ)
    (draws : ℕ → Emit.Draw) where
  unfoldable pub event_of : UploadFile → OutboxEvent
  event_of upload =
      new_event "UploadFile" (p.str_uuid upload.id) "file.expiring"
        (some (expiring_payload p str_datetime ttl_hours upload)) none (draws upload.id)

  unfoldable pub taken : UploadFile → World → Bool
  taken upload w = any (clashes (event_of upload)) w.db.outbox

  unfoldable pub announce : UploadFile → World → World
  announce upload w = record (with_event (event_of upload) w) {
    sent = w.sent + (if w.broker_up then 1 else 0);
  }

  unfoldable pub after_file : UploadFile → World → World
  after_file upload w = if taken upload w then w else announce upload w

  notify_file_outcome :
      (upload : UploadFile) (w : World)
      → Quiet w
      → notify_file tx p str_datetime ttl_hours draws upload w
        ≡ (ok (not (taken upload w)), after_file upload w)
  unfolding notify_file event_of taken announce after_file finish
  notify_file_outcome upload w q = elim (Bool-cases (taken upload w)) [
    | inl clash ↦
        rw
          (
            tx.atomic_runs OutboxEvent (emit_expiring tx p str_datetime ttl_hours draws upload) w,
            emit_event_outcome tx "UploadFile" (p.str_uuid upload.id) "file.expiring"
                (some (expiring_payload p str_datetime ttl_hours upload)) none (draws upload.id)
                (enter w),
            clash,
          )
          refl
    | inr fresh ↦
        rw
          (
            emit_committed tx "UploadFile" (p.str_uuid upload.id) "file.expiring"
                (some (expiring_payload p str_datetime ttl_hours upload)) none (draws upload.id) w
                q.0 q.1 fresh,
            fresh,
          )
          refl
  ]

  pub after_file-Quiet : (upload : UploadFile) (w : World) → Quiet w → Quiet (after_file upload w)
  unfolding after_file announce
  after_file-Quiet upload w q = elim (Bool-cases (taken upload w)) [
    | inl e ↦ rw e q
    | inr e ↦ rw e q
  ]

  -- The notices and the state of the whole loop.
  unfoldable pub expected : List UploadFile → World → Notices × World
  expected [] w = (record { notified = 0; skipped = 0 }, w)
  expected (upload ∷ uploads) w =
      let rest = expected uploads (after_file upload w) in
      (note (not (taken upload w)) rest.0, rest.1)

  pub notify_each-eq :
      (uploads : List UploadFile) (w : World)
      → Quiet w
      → notify_each tx p str_datetime ttl_hours draws uploads w
        ≡ (ok (expected uploads w).0, (expected uploads w).1)
  unfolding notify_each expected
  notify_each-eq [] w q = refl
  notify_each-eq (upload ∷ uploads) w q =
      rw
        (
          notify_file_outcome upload w q,
          notify_each-eq uploads (after_file upload w) (after_file-Quiet upload w q),
        )
        refl

  -- Each file is counted once, and each notice is one row.
  pub expected_counts :
      (uploads : List UploadFile) (w : World)
      → let (n, v) = expected uploads w in
        (n.notified + n.skipped ≡ length uploads)
        × (length v.db.outbox ≡ length w.db.outbox + n.notified)
  unfolding expected after_file announce
  expected_counts [] w = (refl, omega arith)
  expected_counts (upload ∷ uploads) w = elim (Bool-cases (taken upload w)) [
    | inl e ↦ rw e (ground (arith, expected_counts uploads w))
    | inr e ↦ rw e (
        ground (
          arith,
          expected_counts uploads (announce upload w),
          length-append w.db.outbox (event_of upload ∷ []),
        ))
  ]
