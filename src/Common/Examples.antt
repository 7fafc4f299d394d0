-- ===== src/Common/Examples.antt =====
-- Runs of the code on the sample data, and each theorem about the outbox at a concrete input.
use doorito.Common.Commands.{Flag, add_arguments, elapsed, back}
use doorito.Base.{
  count_if, filter, not, ◌-◌, ℕ, ◌+◌, ◌*◌, ◌≤◌, ◌≡◌, ◌<◌, ◌⊎◌, refl, ◌↔◌, true, false, none, some,
  List, [], ◌∷◌, arith, map, min,
}
use doorito.Base.Table.{find}
use doorito.Base.Time.{seconds}
use doorito.World.{World, Result, ok, integrity_error}
use doorito.Common.Models.{EventStatus, OutboxEvent, pending, delivered}
use doorito.Base.Sorting.{sort_by}
use doorito.Common.Transactions.{documented, finish}
use doorito.Common.Webhook.{deliver_to_endpoint}
use doorito.Common.Outbox.Purging.{clean_times, clean_times_drains}
use doorito.Common.Outbox.Cleanup.{is_stale}
use doorito.Common.Tasks.{outbox_retention_hours, deliver_outbox_events_task}
use doorito.Common.Outbox.Process.{Run, count_pending}
use doorito.Common.Outbox.Potential.{potential}
use doorito.Common.Outbox.Draining.{run_all, run_all_bounded}
use doorito.Common.Outbox.Settling.{Answers, Patient, runs_settle}
use doorito.Common.Sample.{http, event, up, down, world, empty, run, draw}
use doorito.Common.Outbox.Emit.{new_event, emit_event}
use doorito.Common.Outbox.Rows.{event_pk}
use doorito.Common.Outbox.Deliver.{Verdict, deliver_events}
use doorito.Common.Outbox.Process.{process_pending_events}
use doorito.Common.Outbox.Deliver.{Verdict, post_each, verdict}
use doorito.Common.Outbox.Settle.{retry_delay}
use doorito.Common.Outbox.Results.{RaisesNoOther}
use doorito.Common.Outbox.Backoff.{
  retry_delay_schedule, Failure, after_failures, doubled, repeated_failures,
}
use doorito.Common.Outbox.Cleanup.{cleanup_delivered_events}
use doorito.Common.Outbox.Retention.{Cleans, cleanup_delivered_events-Cleans}
use doorito.Common.Outbox.Validity.{IsConsistent}
use doorito.Common.Outbox.History.{here, next, emit, process, history-IsConsistent}
use doorito.Common.Outbox.Emission.{with_event, emit_rolled_back, emit_committed, emit_then}
use doorito.Common.Outbox.Overlap.{Phase, write_back, overlap_reopens_delivered}
use doorito.Common.Outbox.Requests.{
  expected_requests, AllAnswer, deliver_events_requests, verdict_all_ok,
}
use doorito.Common.Outbox.Accounting.{ReturnsAccounts, process_accounts, RowFate, process-RowFate}

no_other_error : RaisesNoOther http
no_other_error log r m h = ground (arith, h)

process_accounts_example :
    ReturnsAccounts documented http run 20 world
      (process_pending_events documented http run 20 world)
process_accounts_example =
    process_accounts documented http run 20 world no_other_error refl (refl, (refl, (refl, tt)))

process-RowFate_example :
    RowFate documented http run 20 world 1 (process_pending_events documented http run 20 world).1
process-RowFate_example =
    process-RowFate documented http run 20 world 1 refl (refl, (refl, (refl, tt)))

later_retry_delay :
    (60 ≤ retry_delay 3)
    × (retry_delay 3 ≤ 3600)
    × (retry_delay 3 ≤ retry_delay 4)
    × (retry_delay 4 ≡ min (2 * retry_delay 3) 3600)
    × (retry_delay 9 ≡ 3600)
later_retry_delay = retry_delay_schedule 2

abbrev good : Verdict
good = record { all_ok = true; error = "" }

abbrev bad : Verdict
bad = record { all_ok = false; error = "HTTP 500: oops" }

abbrev refused : ℕ → Failure
refused n = record { now = n; jitter = 5; error = "HTTP 500: oops" }

repeated_failures_example :
    let after = after_failures (refused 300 ∷ refused 400 ∷ []) (event 1 pending 0) in
    let delay = seconds (doubled 1) in
    (after.attempts ≡ 2)
    × (after.error_message ≡ "HTTP 500: oops")
    × (((1 + 1 ≡ 5) × (after.status ≡ EventStatus.failed) × (after.next_attempt_at ≡ none))
        ⊎ ((2 < 5)
            × (after.status ≡ pending)
            × ((t : ℕ) × (after.next_attempt_at ≡ some t)
                × (400 + delay ≤ t)
                × (t * 10 ≤ 400 * 10 + 11 * delay))))
repeated_failures_example =
    repeated_failures (refused 300 ∷ []) (refused 400) (event 1 pending 0) refl refl (omega arith)
      (omega arith)

cleanup_delivered_events-Cleans_example : Cleans 0 10 world (cleanup_delivered_events 0 10 world)
cleanup_delivered_events-Cleans_example =
    cleanup_delivered_events-Cleans 0 10 world (refl, (refl, (refl, tt)))

abbrev emitted : World
emitted = (emit_event documented "UploadFile" "7" "file.stored" none none draw empty).1

history-IsConsistent_example :
    IsConsistent (process_pending_events documented http run 20 emitted).1.db.outbox
history-IsConsistent_example =
    history-IsConsistent documented http {start = empty} (refl, refl) refl
      (next (next here (emit "UploadFile" "7" "file.stored" none none draw empty))
        (process run 20 emitted))

emitted_event :
    let new = new_event "UploadFile" "7" "file.stored" none none draw in
    documented.atomic OutboxEvent
      (emit_event documented "UploadFile" "7" "file.stored" none none draw)
      empty
    ≡ (ok new, record (with_event new empty) { sent = 1 })
emitted_event =
    emit_committed documented "UploadFile" "7" "file.stored" none none draw empty refl refl refl

emit_rolled_back_example :
    let after =
      (documented.atomic
        (Unit {0})
        (emit_then documented "UploadFile" "7" "file.stored" none none draw
          (λ _ w. (Result.err integrity_error, w)))
        empty).1 in
    (after.db ≡ empty.db) × (after.sent ≡ 0) × (after.hooks ≡ 0)
emit_rolled_back_example =
    emit_rolled_back documented "UploadFile" "7" "file.stored" none none draw
      (λ event w. (Result.err integrity_error, w)) empty (λ event v. (integrity_error, refl))
      (λ event v inside. refl)

abbrev phase : Phase
phase = record { now = 300; saved = 301; jitter = λ id. 5 }

overlap_reopens_delivered_example :
    (between after : OutboxEvent) × (find event_pk 1
        (write_back phase (event 1 pending 0) good world).db.outbox
      ≡ some between)
    × (between.status ≡ delivered)
    × (find event_pk 1
          (write_back phase
            (event 1 pending 0)
            bad
            (write_back phase (event 1 pending 0) good world)).db.outbox
        ≡ some after)
    × (after.status ≡ pending)
    × (after.delivered_at ≡ none)
    × (after.attempts ≡ 1)
overlap_reopens_delivered_example =
    overlap_reopens_delivered phase phase (event 1 pending 0) good bad world refl refl (omega arith)
      refl refl

deliver_events_requests_example :
    let events = event 1 pending 0 ∷ [] in
    let progress = deliver_events http (up ∷ down ∷ []) events [] in
    (progress.log ≡ expected_requests http (up ∷ down ∷ []) events)
    × (map (λ r. r.0) progress.results ≡ 1 ∷ [])
unfolding deliver_events post_each deliver_to_endpoint
deliver_events_requests_example =
    deliver_events_requests http (up ∷ down ∷ []) (event 1 pending 0 ∷ []) [] refl

verdict_all_ok_example :
    ((verdict (post_each http (down ∷ []) (event 1 pending 0) []).errors).all_ok ≡ true)
    ↔ AllAnswer http (down ∷ []) (event 1 pending 0) []
unfolding post_each deliver_to_endpoint
verdict_all_ok_example = verdict_all_ok http (down ∷ []) (event 1 pending 0) [] refl

-- The second event, at its last attempt, is delivered; the first as well.
run_delivers :
    (process_pending_events documented http run 20 world).0
    ≡ ok (record { processed = 2; delivered = 2; failed = 0; remaining = 0 })
unfolding process_pending_events finish sort_by deliver_to_endpoint verdict
run_delivers = refl

-- Runs an hour apart: the down endpoint fails the event five times.
abbrev hourly : ℕ → Run
hourly n = record run { started = n * 10000000000; finished_at = n * 10000000000 }

abbrev outage : World
outage = record empty { db = record empty.db { endpoints = down ∷ [] } }

abbrev waiting : World
waiting = (emit_event documented "UploadFile" "7" "file.expiring" none none draw outage).1

abbrev five_runs : List Run
five_runs = hourly 1 ∷ hourly 2 ∷ hourly 3 ∷ hourly 4 ∷ hourly 5 ∷ []

waiting-IsConsistent : IsConsistent waiting.db.outbox
waiting-IsConsistent =
    history-IsConsistent documented http {start = outage} (refl, refl) refl
      (next here (emit "UploadFile" "7" "file.expiring" none none draw outage))

run_all_bounded_example :
    let (processed, after) = run_all documented http five_runs waiting in
    processed + potential after.db.outbox ≤ potential waiting.db.outbox
unfolding emit_event doorito.Common.Transactions.register
run_all_bounded_example =
    run_all_bounded documented http five_runs waiting (refl, refl) waiting-IsConsistent

http_answers : Answers http
http_answers log request = ground arith

patience : Patient documented http http_answers five_runs waiting
unfolding emit_event doorito.Common.Transactions.register Patient deliver_outbox_events_task
    process_pending_events finish deliver_to_endpoint verdict post_each sort_by retry_delay
patience = (
  ((λ h. (refl, refl)), tt),
  (
    ((λ h. (refl, refl)), tt),
    (((λ h. (refl, refl)), tt), (((λ h. (refl, refl)), tt), (((λ h. (refl, refl)), tt), tt))),
  ),
)

runs_settle_example : count_pending (run_all documented http five_runs waiting).1.db.outbox ≡ 0
unfolding emit_event doorito.Common.Transactions.register
runs_settle_example =
    runs_settle documented http http_answers five_runs waiting (refl, refl) waiting-IsConsistent
      patience (omega arith)

-- The third event of the sample was delivered long before.
clean_times_drains_example :
    let after = clean_times 700000000000 1 world in
    (count_if (is_stale outbox_retention_hours 700000000000) after.db.outbox ≡ 1 - 1000 * 1)
    × (filter (λ e. not (is_stale outbox_retention_hours 700000000000 e)) after.db.outbox
        ≡ filter (λ e. not (is_stale outbox_retention_hours 700000000000 e)) world.db.outbox)
clean_times_drains_example = clean_times_drains 700000000000 1 world (refl, (refl, (refl, tt)))

-- The flags of a command that supports both, and a timer that was never started.
both_flags : map (λ (f : Flag). f.dest) (add_arguments true true) ≡ "dry_run" ∷ "json_output" ∷ []
unfolding add_arguments
both_flags = refl

never_started : elapsed none 100 105 ≡ back 5
unfolding elapsed
never_started = refl
