-- ===== src/Boot/Examples.antt =====
-- The schedule on sample data, with a beat that follows Celery's documentation.
use doorito.Base.{
  ltb, leb, ◌*◌, ℕ, ◌+◌, ◌%◌, ◌≡◌, refl, true, false, ◌&&◌, ◌==◌, List, Bool, any, arith,
}
use doorito.Base.Text.{show}
use doorito.Base.Sorting.{sort_by}
use mathlib.Core.List.{Memᴰ}
use doorito.Common.Sample
use doorito.Common.Transactions.{documented}
use doorito.Portal.Models.{FileStatus}
use doorito.Portal.Files.{settings}
use doorito.Portal.Notify.{notify_expiring_files_task, hours_or_default}
use doorito.Portal.Notified.{announces, Fresh}
use doorito.Portal.Examples.{platform}
use doorito.Portal.BatchExamples.{with_batch, file_row}
use doorito.Boot.Schedule.{
  Schedule, Entry, Beat, crontab, timedelta, hour_matches, celery_beat_schedule,
  celery_task_time_limit, celery_task_soft_time_limit, cleanup_uploads_interval_hours,
  outbox_sweep_interval_minutes, runs, minutes,
}
use doorito.Boot.Notices.{announced_before_deletion}

abbrev sample_starts : Schedule → ℕ → Bool
sample_starts (crontab minute hour) t = (t % 60 == minute) && hour_matches hour t
sample_starts (timedelta n) t = t % n == 0

abbrev beat : Beat
beat = record { starts = sample_starts; starts_crontab = λ minute hour t. refl }

abbrev schedule : List Entry
schedule = celery_beat_schedule cleanup_uploads_interval_hours outbox_sweep_interval_minutes

announced_before_deletion_example :
    (runs beat schedule "portal.tasks.notify_expiring_files_task" 1380 ≡ true)
    × (any
          (announces platform (file_row 1 FileStatus.stored))
          (notify_expiring_files_task documented platform settings show
            (λ id. Sample.draw)
            (minutes 1380 + 1)
            with_batch).1.db.outbox
        ≡ true)
unfolding sort_by hours_or_default Fresh
announced_before_deletion_example =
    announced_before_deletion beat documented platform show (λ id. Sample.draw)
      cleanup_uploads_interval_hours outbox_sweep_interval_minutes 1440 1 1 with_batch
      (file_row 1 FileStatus.stored) (omega arith) refl (omega arith) (refl, refl) (refl, tt, tt)
      (Memᴰ.head refl) refl refl

-- The uploads are cleaned up at midnight and at six, not at one.
cleanup_hours :
    (runs beat schedule "portal.tasks.cleanup_expired_upload_files_task" 0 ≡ true)
    × (runs beat schedule "portal.tasks.cleanup_expired_upload_files_task" 60 ≡ false)
    × (runs beat schedule "portal.tasks.cleanup_expired_upload_files_task" 360 ≡ true)
cleanup_hours = (refl, refl, refl)

-- A run of the sweep is stopped by its soft limit before its hard one, and by that when the next
-- one starts.
limits_nested :
    (ltb celery_task_soft_time_limit celery_task_time_limit ≡ true)
    × (leb celery_task_time_limit (outbox_sweep_interval_minutes * 60) ≡ true)
limits_nested = (refl, refl)
