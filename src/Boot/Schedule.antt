-- ===== src/Boot/Schedule.antt =====
-- `CELERY_BEAT_SCHEDULE` of boot/settings.py with the settings that it reads, and the interface to
-- Celery's beat, which is not part of the repository. Time is in whole minutes of UTC
-- (`CELERY_TIMEZONE`), counted from a midnight.
use doorito.Base.{ℕ, ◌*◌, ◌/◌, ◌%◌, ◌≡◌, Bool, true, ◌&&◌, ◌==◌, String, List, [], ◌∷◌, str_eq, any}

abbrev pub celery_task_time_limit : ℕ
celery_task_time_limit = 300

abbrev pub celery_task_soft_time_limit : ℕ
celery_task_soft_time_limit = 240

abbrev pub cleanup_uploads_interval_hours : ℕ
cleanup_uploads_interval_hours = 6

abbrev pub outbox_sweep_interval_minutes : ℕ
outbox_sweep_interval_minutes = 5

-- The field `hour` of a crontab: `*`, or `*/n`.
pub data Hour : Type 0 where
  any_hour : Hour
  every_nth_hour : ℕ → Hour

-- `crontab(minute=…, hour=…)`, or `timedelta(minutes=…)`.
pub data Schedule : Type 0 where
  crontab : ℕ → Hour → Schedule
  timedelta : ℕ → Schedule

pub record Entry : Type 0 where
  pub name : String
  pub task : String
  pub schedule : Schedule
  pub queue : String

abbrev pub cleanup_uploads_entry : ℕ → Entry
cleanup_uploads_entry interval_hours = record {
  name = "cleanup-expired-upload-files";
  task = "portal.tasks.cleanup_expired_upload_files_task";
  schedule = crontab 0 (every_nth_hour interval_hours);
  queue = "default";
}

abbrev pub sweep_entry : ℕ → Entry
sweep_entry interval_minutes = record {
  name = "deliver-outbox-events-sweep";
  task = "common.tasks.deliver_outbox_events_task";
  schedule = timedelta interval_minutes;
  queue = "default";
}

abbrev pub cleanup_events_entry : Entry
cleanup_events_entry = record {
  name = "cleanup-delivered-outbox-events";
  task = "common.tasks.cleanup_delivered_outbox_events_task";
  schedule = crontab 30 (every_nth_hour 6);
  queue = "default";
}

abbrev pub notify_entry : Entry
notify_entry = record {
  name = "notify-expiring-files";
  task = "portal.tasks.notify_expiring_files_task";
  schedule = crontab 0 any_hour;
  queue = "default";
}

-- `CELERY_BEAT_SCHEDULE`, by its two settings.
abbrev pub celery_beat_schedule : ℕ → ℕ → List Entry
celery_beat_schedule cleanup_hours sweep_minutes =
    cleanup_uploads_entry cleanup_hours
    ∷ sweep_entry sweep_minutes
    ∷ cleanup_events_entry
    ∷ notify_entry
    ∷ []

-- Whether beat starts a crontab at a minute, as Celery documents it: `*/n` are the hours of the day
-- that n divides.
abbrev pub hour_matches : Hour → ℕ → Bool
hour_matches any_hour minute = true
hour_matches (every_nth_hour n) minute = ((minute / 60) % 24) % n == 0

pub record Beat : Type 0 where
  pub starts : Schedule → ℕ → Bool
  pub starts_crontab :
      (minute : ℕ) (hour : Hour) (t : ℕ)
      → starts (crontab minute hour) t ≡ (t % 60 == minute) && hour_matches hour t

-- The schedule has an entry for the task that starts at this minute.
abbrev pub runs : Beat → List Entry → String → ℕ → Bool
runs beat entries task t = any (λ e. str_eq task e.task && beat.starts e.schedule t) entries

-- `timedelta(minutes=n)` in microseconds.
abbrev pub minutes : ℕ → ℕ
minutes n = n * 60_000_000
