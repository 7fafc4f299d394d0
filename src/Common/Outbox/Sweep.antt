-- ===== src/Common/Outbox/Sweep.antt =====
-- One run of `process_pending_events` as a pure function of the state. What the transactions and
-- the saves could raise does not happen.
use doorito.Base.{
  ℕ, ◌≡◌, refl, ◌∙◌, Bool, true, some, List, [], ◌∷◌, ◌&&◌, not, All, arith, length, filter,
}
use doorito.Base.Table.{find, has, Keyed, find_own, find-has}
use doorito.Base.Sorting.{
  sort_by, All-weaken, All-filter, All-sort_by, All-take, Keyed-filter, Keyed-sort_by, Keyed-take,
}
use doorito.World.{World, Result, ok, err, Request, unexpected, ◌>>=◌, ◌>>◌, gets, pure}
use doorito.Common.Models.{OutboxEvent}
use doorito.Common.Transactions.{Transactions, finish, commit, enter}
use doorito.Common.Webhook.{Http}
use doorito.Common.Outbox.Fetch.{is_due, newer, fetch_due, active_endpoints}
use doorito.Common.Outbox.Deliver.{
  Results, Progress, Ending, finished, out_of_time, crashed, deliver_events,
}
use doorito.Common.Outbox.Settle.{save_results}
use doorito.Common.Outbox.Process.{
  Run, Summary, count_pending, uncaught, process_or_stop, process_fetched, process_pending_events,
}
use doorito.Common.Outbox.Rows.{
  event_pk, settled_rows, total_delivered, total_failed, save_results-eq,
}

-- No callback waits: the state in which a worker starts a task.
abbrev pub Idle : World → Type 0
Idle w = w.hooks ≡ 0

pub commit-Idle : (w : World) → Idle w → commit w ≡ w
unfolding commit
commit-Idle w h = ground arith

-- A fetched event is the row of the table, and it is pending and due.
abbrev pub Fetched : ℕ → List OutboxEvent → OutboxEvent → Type 0
Fetched now outbox e = (find event_pk e.id outbox ≡ some e) × (is_due now e ≡ true)

module _ (locked : ℕ → Bool) (now batch_size : ℕ) (outbox : List OutboxEvent) where
  pub fetch_due-Fetched :
      Keyed event_pk outbox → All (Fetched now outbox) (fetch_due locked now batch_size outbox)
  unfolding fetch_due
  fetch_due-Fetched d =
      let wanted : OutboxEvent → Bool = λ e. is_due now e && not (locked e.id) in
      let P : OutboxEvent → Type 0 = λ e. find event_pk e.id outbox ≡ some e in
      let rows = All-filter P wanted outbox (find_own event_pk outbox d) in
      All-take (Fetched now outbox) batch_size (sort_by newer (filter wanted outbox)) (
        All-sort_by (Fetched now outbox) newer (filter wanted outbox) (
          All-weaken {P = λ e. P e × (wanted e ≡ true)} {Q = Fetched now outbox}
            (λ e h. (h.0, ground (arith, h.1))) (filter wanted outbox) rows))

  pub fetch_due-Keyed :
      Keyed event_pk outbox → Keyed event_pk (fetch_due locked now batch_size outbox)
  unfolding fetch_due
  fetch_due-Keyed d =
      let wanted : OutboxEvent → Bool = λ e. is_due now e && not (locked e.id) in
      Keyed-take event_pk batch_size (sort_by newer (filter wanted outbox)) (
        Keyed-sort_by event_pk newer (filter wanted outbox) (Keyed-filter event_pk wanted outbox d))

module _ (http : Http) (run : Run) (events : List OutboxEvent) where
  abbrev pub progress_of : World → Progress
  progress_of w = deliver_events http (active_endpoints w.db.endpoints) events w.requests

  abbrev pub rows_of : World → List OutboxEvent
  rows_of w =
      settled_rows run.finished_at run.saved run.jitter (progress_of w).results events w.db.outbox

  -- The state after the updates.
  abbrev pub swept : World → World
  swept w = record w { db = record w.db { outbox = rows_of w }; requests = (progress_of w).log }

  abbrev pub summary_of : World → Summary
  summary_of w =
      let results = (progress_of w).results in
      record {
        processed = length results;
        delivered = total_delivered run.finished_at run.saved run.jitter results events;
        failed = total_failed run.finished_at run.saved run.jitter results events;
        remaining = count_pending (rows_of w);
      }

  abbrev pub sweep_ending : Ending → World → Result Summary × World
  sweep_ending finished w = (ok (summary_of w), swept w)
  sweep_ending out_of_time w = (ok (summary_of w), swept w)
  sweep_ending (crashed message) w =
      (err (unexpected message), record w { requests = (progress_of w).log })

module _ (http : Http) (run : Run) (batch_size : ℕ) where
  abbrev pub events_of : World → List OutboxEvent
  events_of w = fetch_due run.locked run.started batch_size w.db.outbox

  -- A crash in phase 2 leaves every row alone; else the rows of the events with a result change.
  unfoldable pub sweep : World → Result Summary × World
  sweep w =
      let events = events_of w in
      sweep_ending http run events (progress_of http run events w).ending w

finish_ok :
    {A : Type 0} (w : World) (a : A) (w' : World)
    → Idle w'
    → finish w (ok a, w') ≡ (ok a, record w' { depth = w.depth })
unfolding finish
finish_ok w a w' h = rw (commit-Idle (record w' { depth = w.depth }) h)

module _ (tx : Transactions) (http : Http) (run : Run) where
  saves-eq :
      (results : Results) (events : List OutboxEvent) (w : World)
      → Idle w
      → All (λ e. has event_pk e.id w.db.outbox ≡ true) events
      → tx.atomic (ℕ × ℕ) (save_results run.finished_at run.saved run.jitter results events) w ≡ (
        ok (
          total_delivered run.finished_at run.saved run.jitter results events,
          total_failed run.finished_at run.saved run.jitter results events,
        ),
        record w {
          db = record w.db {
            outbox = settled_rows run.finished_at run.saved run.jitter results events w.db.outbox;
          };
        },
      )
  saves-eq results events w idle h =
      tx.atomic_runs (ℕ × ℕ) (save_results run.finished_at run.saved run.jitter results events) w
      ∙ rw (save_results-eq run.finished_at run.saved run.jitter results events (enter w) h)
          (finish_ok w _ _ idle)

  fetch-eq :
      (batch_size : ℕ) (w : World)
      → Idle w
      → tx.atomic
          (List OutboxEvent)
          (gets (λ w. fetch_due run.locked run.started batch_size w.db.outbox))
          w
        ≡ (ok (events_of http run batch_size w), w)
  fetch-eq batch_size w idle =
      tx.atomic_runs (List OutboxEvent)
        (gets (λ w. fetch_due run.locked run.started batch_size w.db.outbox)) w
      ∙ finish_ok w _ (enter w) idle

  -- The actions after phase 2, at a known ending.
  abbrev after_delivery : Progress → List OutboxEvent → World → Result Summary × World
  after_delivery progress events = do
    uncaught progress.ending
    (d, f) ←
        tx.atomic (ℕ × ℕ)
          (save_results run.finished_at run.saved run.jitter progress.results events)
    remaining ← gets (λ w. count_pending w.db.outbox)
    pure (record {
      processed = length progress.results;
      delivered = d;
      failed = f;
      remaining = remaining;
    })

  abbrev expected : Progress → List OutboxEvent → Ending → World → Result Summary × World
  expected progress events (crashed message) w = (err (unexpected message), w)
  expected progress events ending w =
      let rows =
        settled_rows run.finished_at run.saved run.jitter progress.results events w.db.outbox in
      (
        ok (record {
          processed = length progress.results;
          delivered = total_delivered run.finished_at run.saved run.jitter progress.results events;
          failed = total_failed run.finished_at run.saved run.jitter progress.results events;
          remaining = count_pending rows;
        }),
        record w { db = record w.db { outbox = rows } },
      )

  after_delivery-eq :
      (results : Results) (log : List Request) (ending : Ending) (events : List OutboxEvent)
      (w : World)
      → Idle w
      → All (λ e. has event_pk e.id w.db.outbox ≡ true) events
      → after_delivery (record { results = results; log = log; ending = ending }) events w
        ≡ expected (record { results = results; log = log; ending = ending }) events ending w
  after_delivery-eq results log finished events w idle h = rw (saves-eq results events w idle h)
  after_delivery-eq results log out_of_time events w idle h = rw (saves-eq results events w idle h)
  after_delivery-eq results log (crashed message) events w idle h = refl

  expected_lem :
      (events : List OutboxEvent) (w : World) (ending : Ending)
      → expected
          (progress_of http run events w)
          events
          ending
          (record w { requests = (progress_of http run events w).log })
        ≡ sweep_ending http run events ending w
  expected_lem events w finished = refl
  expected_lem events w out_of_time = refl
  expected_lem events w (crashed message) = refl

  fetched-eq :
      (events : List OutboxEvent) (w : World)
      → Idle w
      → All (λ e. has event_pk e.id w.db.outbox ≡ true) events
      → process_fetched tx http run events w
        ≡ sweep_ending http run events (progress_of http run events w).ending w
  unfolding process_fetched
  fetched-eq events w idle h =
      let p = progress_of http run events w in
      after_delivery-eq p.results p.log p.ending events (record w { requests = p.log }) idle h
      ∙ expected_lem events w p.ending

  process_or_stop-eq :
      (events : List OutboxEvent) (w : World)
      → Idle w
      → All (λ e. has event_pk e.id w.db.outbox ≡ true) events
      → process_or_stop tx http run events w
        ≡ sweep_ending http run events (progress_of http run events w).ending w
  process_or_stop-eq [] w idle h =
      unfold deliver_events settled_rows total_delivered total_failed in refl
  process_or_stop-eq (event ∷ events) w idle h = fetched-eq (event ∷ events) w idle h

  -- With no waiting callback and distinct primary keys, a run of `process_pending_events` is
  -- exactly the pure `sweep`: same result, same exception, same final state.
  pub process_pending_events-eq :
      (batch_size : ℕ) (w : World)
      → Idle w
      → Keyed event_pk w.db.outbox
      → process_pending_events tx http run batch_size w ≡ sweep http run batch_size w
  unfolding process_pending_events sweep
  process_pending_events-eq batch_size w idle d = rw (fetch-eq batch_size w idle) (
      process_or_stop-eq (events_of http run batch_size w) w idle (
        All-weaken (λ e h. find-has event_pk e.id w.db.outbox h.0) (events_of http run batch_size w)
          (fetch_due-Fetched run.locked run.started batch_size w.db.outbox d)))
