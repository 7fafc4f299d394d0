-- ===== src/Boot/Notices.antt =====
-- The scheduled tasks of portal/tasks.py against each other: no file is deleted unannounced.
use doorito.Base.{ℕ, ◌+◌, ◌-◌, ◌≡◌, ◌≤◌, true, none, String, any, arith}
use doorito.Base.Members.{Memᴰ-filter, Memᴰ-sort_by, All-Memᴰ}
use mathlib.Core.List.{Memᴰ}
use doorito.World.{World}
use doorito.Common.Transactions.{Transactions}
use doorito.Common.Outbox.Emit
use doorito.Common.Outbox.History.{Quiet}
use doorito.Portal.Models.{UploadFile, is_stored}
use doorito.Portal.Files.{Platform, settings}
use doorito.Portal.Notify.{
  notify_expiring_files, notify_expiring_files_task, is_expiring, hours_or_default, latest_first,
}
use doorito.Portal.Notified.{Fresh, announces}
use doorito.Portal.Announced.{expiring, notify_expiring_files_once}
use doorito.Portal.Expiry.{is_expired}
use doorito.Boot.Schedule.{Beat, any_hour, every_nth_hour, celery_beat_schedule, runs, minutes}

-- An hourly run was due an hour before each run of the cleanup.
notice_runs :
    (beat : Beat) (cleanup_hours sweep_minutes t : ℕ)
    → 60 ≤ t
    → runs beat
        (celery_beat_schedule cleanup_hours sweep_minutes)
        "portal.tasks.cleanup_expired_upload_files_task"
        t
      ≡ true
    → runs beat
        (celery_beat_schedule cleanup_hours sweep_minutes)
        "portal.tasks.notify_expiring_files_task"
        (t - 60)
      ≡ true
notice_runs beat cleanup_hours sweep_minutes t late due = ground (
  arith,
  beat.starts_crontab 0 any_hour (t - 60),
  beat.starts_crontab 0 (every_nth_hour cleanup_hours) t,
)

-- What is expired at one of two instants that are an hour apart at most was expiring at the other.
expired_expiring :
    (f : UploadFile) (earlier now : ℕ)
    → now ≤ earlier + minutes 60
    → is_stored f.status ≡ true
    → is_expired 24 now f ≡ true
    → is_expiring 24 1 earlier f ≡ true
expired_expiring f earlier now apart stored expired = ground arith

-- Whatever the interval of the cleanup, the schedule starts the notification an hour before each of
-- its runs after the first hour; and if that notification was not begun with less delay than the
-- cleanup, and found the database outside of transactions and drew fresh primary keys, then every stored file of that
-- time that is expired when the cleanup runs has its event `file.expiring` in the outbox after the
-- notification.
pub announced_before_deletion :
    (beat : Beat) (tx : Transactions) (p : Platform) (str_datetime : ℕ → String)
    (draws : ℕ → Emit.Draw) (cleanup_hours sweep_minutes t delay delay_before : ℕ) (w : World)
    (f : UploadFile)
    → 60 ≤ t
    → runs beat
        (celery_beat_schedule cleanup_hours sweep_minutes)
        "portal.tasks.cleanup_expired_upload_files_task"
        t
      ≡ true
    → delay ≤ delay_before
    → Quiet w
    → Fresh tx p str_datetime settings.file_upload_ttl_hours draws
        (expiring settings none none (minutes (t - 60) + delay_before) w.db.files)
        w.db.outbox
    → Memᴰ f w.db.files
    → is_stored f.status ≡ true
    → is_expired settings.file_upload_ttl_hours (minutes t + delay) f ≡ true
    → (runs beat
          (celery_beat_schedule cleanup_hours sweep_minutes)
          "portal.tasks.notify_expiring_files_task"
          (t - 60)
        ≡ true)
      × (any
            (announces p f)
            (notify_expiring_files_task tx p settings str_datetime draws
              (minutes (t - 60) + delay_before)
              w).1.db.outbox
          ≡ true)
unfolding notify_expiring_files_task hours_or_default
announced_before_deletion beat tx p str_datetime draws cleanup_hours sweep_minutes t delay
      delay_before w f later due delayed q fresh there stored expired =
    let now = minutes (t - 60) + delay_before in
    let after = (notify_expiring_files tx p settings str_datetime draws none none now w).1 in
    let expires =
      expired_expiring f now (minutes t + delay) (omega (arith, later, delayed)) stored expired in
    (
      notice_runs beat cleanup_hours sweep_minutes t later due,
      All-Memᴰ (λ g. any (announces p g) after.db.outbox ≡ true) _
          (notify_expiring_files_once tx p settings str_datetime draws draws none none now w q
            fresh).0
          (Memᴰ-sort_by latest_first _
            (Memᴰ-filter (is_expiring 24 1 now) w.db.files there expires)),
    )
