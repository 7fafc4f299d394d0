-- ===== src/Portal/Journey.antt =====
-- Every history of the session services (portal/services/sessions.py).
use doorito.Base.{ℕ, ◌≡◌, arith, Option, String, []}
use doorito.World.{World}
use doorito.Common.Transactions.{Transactions}
use doorito.Common.Outbox.Sweep.{Idle}
use doorito.Portal.Models.{UploadFile, UploadSession}
use doorito.Portal.Sessions.{
  insert_session, create_upload_session, insert_part, advance_session, record_upload_part,
  complete_upload_session,
}
use doorito.Portal.Uploading.{
  Tallied, create_upload_session-Tallied, record_upload_part-Tallied,
  complete_upload_session-Tallied, complete_upload_session-Idle,
}

module _ (tx : Transactions) (ceil_div : ℕ → ℕ → ℕ) (str_uuid : ℕ → String) where
  -- One call of a service, whatever its outcome.
  pub data Call : World → World → Type 0 where
    create :
        (file : UploadFile) (total_size_bytes : ℕ) (chunk_size_bytes : Option ℕ) (id saved : ℕ)
        (w : World)
        → Call w
            (create_upload_session ceil_div file total_size_bytes chunk_size_bytes id saved w).1
    part :
        (session : UploadSession) (part_number offset_bytes size_bytes : ℕ) (sha256 : String)
        (id : ℕ) (w : World)
        → Call w (record_upload_part session part_number offset_bytes size_bytes sha256 id w).1
    complete :
        (session : UploadSession) (saved : ℕ) (w : World)
        → Call w (complete_upload_session tx str_uuid session saved w).1

  pub data Calls (start : World) : World → Type 0 where
    here : Calls start start
    next : {v w : World} → Calls start v → Call v w → Calls start w

  Sound : World → Type 0
  Sound w = Idle w × Tallied w.db

  Call-Sound : {v w : World} → Call v w → Sound v → Sound w
  unfolding Sound create_upload_session insert_session record_upload_part insert_part
      advance_session
  Call-Sound (create file total chunk id saved w) g =
      (ground arith, create_upload_session-Tallied ceil_div file total chunk id saved w g.1)
  Call-Sound (part session number offset size sha256 id w) g =
      (ground arith, record_upload_part-Tallied session number offset size sha256 id w g.1)
  Call-Sound (complete session saved w) g = (
    complete_upload_session-Idle tx str_uuid session saved w g.0,
    complete_upload_session-Tallied tx str_uuid session saved w g.0 g.1,
  )

  Calls-Sound : {start w : World} → Sound start → Calls start w → Sound w
  Calls-Sound g here = g
  Calls-Sound g (next r s) = Call-Sound s (Calls-Sound g r)

  -- From empty tables of sessions and parts, with no callback waiting, after any sequence of calls:
  -- every session counts exactly its parts and their bytes, no session has two parts with one
  -- number, and every part is received and belongs to a session in the table.
  pub Calls-Tallied :
      {start w : World}
      → Idle start
      → start.db.sessions ≡ []
      → start.db.parts ≡ []
      → Calls start w
      → Tallied w.db
  unfolding Sound
  Calls-Tallied idle none_yet no_part r =
      (Calls-Sound
        (
          idle,
          rw (none_yet, no_part)
              (record { counted = tt; numbered = tt; owned = tt; all_received = tt }),
        )
        r).1
