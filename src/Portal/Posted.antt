-- ===== src/Portal/Posted.antt =====
-- From an upload (portal/services/uploads.py) to the webhook (common/tasks.py).
use mathlib.Core.List.{Memᴰ}
use mathlib.Core.List.Memᴰ
use doorito.Base.{
  ℕ, ◌≤◌, ◌<◌, ◌≡◌, refl, false, Option, none, some, String, List, [], ◌∷◌, ◌++◌, any, arith,
  count_if-append,
}
use doorito.Base.Table.{has}
use doorito.World.{World, ok}
use doorito.Common.Models.{OutboxEvent, WebhookEndpoint, is_pending}
use doorito.Common.Transactions.{Transactions}
use doorito.Common.Webhook.{Http, delivery_request}
use doorito.Common.Tasks.{deliver_outbox_events_task}
use doorito.Common.Outbox.Emit.{new_event, clashes}
use doorito.Common.Outbox.Fetch.{delivery_batch_size}
use doorito.Common.Outbox.History.{Quiet}
use doorito.Common.Outbox.Process.{Run, count_pending}
use doorito.Common.Outbox.Validity.{
  IsValid, IsConsistent, new_event-IsValid, All-append, Unclashed-append,
}
use doorito.Common.Outbox.Settling.{Answers}
use doorito.Common.Outbox.Posting.{Receives, task_posts}
use doorito.Portal.Files.{Platform, Settings, UploadedFile, validate_file}
use doorito.Portal.Create.{file_pk, Draw, stored_payload, create_upload_file}
use doorito.Portal.Storing.{row_of, event_of, create_upload_file_stored}

IsConsistent-append :
    (e : OutboxEvent) (outbox : List OutboxEvent)
    → IsConsistent outbox
    → IsValid e
    → any (clashes e) outbox ≡ false
    → IsConsistent (outbox ++ e ∷ [])
IsConsistent-append e outbox c v clear = record {
  valid = All-append IsValid e outbox c.valid v;
  unclashed = Unclashed-append e outbox clear c.unclashed;
}

module _ (tx : Transactions) (http : Http) (answers : Answers http) (p : Platform) (s : Settings)
    (user : Option ℕ) (file : UploadedFile) (batch : Option ℕ) (draw : Draw) where
  -- From a consistent outbox outside transactions in which less than a full batch is pending: if a
  -- file that passes validation is uploaded under fresh keys, and every post is answered or fails
  -- with an error that is caught, then the next run of the delivery task, which starts no earlier
  -- than the event was made and finds its row unlocked, makes the signed request about this event to
  -- each active endpoint that is subscribed to `file.stored`.
  pub create_upload_file_posted :
      (run : Run) (w : World) (ep : WebhookEndpoint) (content_type : String) (size_bytes : ℕ)
      → Quiet w
      → IsConsistent w.db.outbox
      → count_pending w.db.outbox < delivery_batch_size
      → validate_file p s file none ≡ ok (content_type, size_bytes)
      → has file_pk draw.id w.db.files ≡ false
      → let event =
          event_of tx p s user file batch draw w
            (row_of tx p s user file batch draw w content_type size_bytes) in
        any (clashes event) w.db.outbox ≡ false
        → draw.event.now ≤ run.started
        → run.locked draw.event.id ≡ false
        → Receives w.db.endpoints event ep
        → let uploaded = (create_upload_file tx p s user file batch draw w).1 in
          Memᴰ
            (delivery_request http ep event)
            (deliver_outbox_events_task tx http run uploaded).1.requests
  unfolding new_event
  create_upload_file_posted run w ep content_type size_bytes q c few valid fresh clear late free r =
      let row = row_of tx p s user file batch draw w content_type size_bytes in
      let event = event_of tx p s user file batch draw w row in
      rw
        (create_upload_file_stored tx p s user file batch draw w content_type size_bytes q.0 q.1
          valid fresh clear)
        (task_posts tx http answers run _ event ep q.0
          (IsConsistent-append event w.db.outbox c
            (new_event-IsValid "UploadFile" (p.str_uuid row.id) "file.stored"
              (some (stored_payload p row)) none draw.event)
            clear)
          (Memᴰ.append_right w.db.outbox (Memᴰ.head refl)) (ground (arith, late)) free
          (omega (
            arith,
            few,
            count_if-append (λ (e : OutboxEvent). is_pending e.status) w.db.outbox (event ∷ []),
          ))
          r)
