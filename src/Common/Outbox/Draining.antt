-- ===== src/Common/Outbox/Draining.antt =====
-- Runs of the delivery task (common/tasks.py) one after the other, with no event emitted between
-- them: the retries come to an end.
use doorito.Base.{ℕ, ◌+◌, ◌≤◌, refl, List, [], ◌∷◌, arith, length}
use doorito.Base.Sorting.{All-weaken}
use doorito.World.{World, Result, ok, err}
use doorito.Common.Transactions.{Transactions}
use doorito.Common.Webhook.{Http}
use doorito.Common.Tasks.{deliver_outbox_events_task}
use doorito.Common.Outbox.Fetch.{delivery_batch_size, due, active_endpoints}
use doorito.Common.Outbox.Deliver.{Ending, finished, out_of_time, crashed}
use doorito.Common.Outbox.Process.{Run, Summary, process_pending_events}
use doorito.Common.Outbox.Sweep.{
  Idle, fetch_due-Fetched, fetch_due-Keyed, events_of, progress_of, swept, sweep_ending, sweep,
  process_pending_events-eq,
}
use doorito.Common.Outbox.Validity.{IsConsistent, Unclashed-Keyed}
use doorito.Common.Outbox.Invariant.{
  found-IsValid, pending_of_due, process_pending_events-IsConsistent,
}
use doorito.Common.Outbox.History.{Quiet, Good, process-Quiet}
use doorito.Common.Outbox.Potential.{potential, Live, potential-settled_rows, hits-deliver_events}

-- What a run does to the attempts that are left: each processed event uses one up at least.
abbrev pub Uses : World → Result Summary × World → Type 0
Uses w (ok s, after) = potential after.db.outbox + s.processed ≤ potential w.db.outbox
Uses w (err e, after) = potential after.db.outbox ≤ potential w.db.outbox

abbrev pub processed_of : Result Summary → ℕ
processed_of (ok s) = s.processed
processed_of (err e) = 0

module _ (tx : Transactions) (http : Http) where
  module _ (run : Run) (batch_size : ℕ) (w : World) (c : IsConsistent w.db.outbox) where
    swept-Uses :
        let events = events_of http run batch_size w in
        potential (swept http run events w).db.outbox
          + length (progress_of http run events w).results
        ≤ potential w.db.outbox
    swept-Uses =
        let d = Unclashed-Keyed w.db.outbox c.unclashed in
        let events = events_of http run batch_size w in
        let fetched = fetch_due-Fetched run.locked run.started batch_size w.db.outbox d in
        let keyed = fetch_due-Keyed run.locked run.started batch_size w.db.outbox d in
        let results = (progress_of http run events w).results in
        let live =
          All-weaken {Q = Live}
            (λ e h.
              let p = pending_of_due e.status (due e.next_attempt_at run.started) h.1 in
              (rw p refl, (found-IsValid e.id w.db.outbox c.valid h.0).pending_spare p))
            events fetched in
        let used =
          potential-settled_rows run.finished_at run.saved run.jitter results events w.db.outbox d
            keyed (All-weaken (λ e h. h.0) events fetched) live in
        omega (
          arith,
          used,
          hits-deliver_events http (active_endpoints w.db.endpoints) events w.requests keyed,
        )

    ending-Uses :
        (ending : Ending)
        → Uses w (sweep_ending http run (events_of http run batch_size w) ending w)
    ending-Uses finished = swept-Uses
    ending-Uses out_of_time = swept-Uses
    ending-Uses (crashed m) = omega arith

    pub process_pending_events-Uses :
        Idle w → Uses w (process_pending_events tx http run batch_size w)
    unfolding sweep
    process_pending_events-Uses idle =
        rw
          (process_pending_events-eq tx http run batch_size w idle
            (Unclashed-Keyed w.db.outbox c.unclashed))
          (ending-Uses (progress_of http run (events_of http run batch_size w) w).ending)

  -- The task again and again: the number of events processed in all, and the last state.
  unfoldable pub run_all : List Run → World → ℕ × World
  run_all [] w = (0, w)
  run_all (run ∷ runs) w =
      let (answer, v) = deliver_outbox_events_task tx http run w in
      let (n, u) = run_all runs v in (processed_of answer + n, u)

  pub task-Good :
      (run : Run) (w : World)
      → Good tx http w
      → Good tx http (deliver_outbox_events_task tx http run w).1
  unfolding deliver_outbox_events_task
  task-Good run w g = (
    process-Quiet tx http run delivery_batch_size w g,
    process_pending_events-IsConsistent tx http run delivery_batch_size w g.0.0 g.1,
  )

  pub task_uses :
      (run : Run) (w : World)
      → Good tx http w
      → let (answer, v) = deliver_outbox_events_task tx http run w in
        potential v.db.outbox + processed_of answer ≤ potential w.db.outbox
  unfolding deliver_outbox_events_task
  task_uses run w g =
      by_answer w (process_pending_events tx http run delivery_batch_size w)
        (process_pending_events-Uses run delivery_batch_size w g.1 g.0.0)
    where
      by_answer :
          (w : World) (r : Result Summary × World)
          → Uses w r
          → potential r.1.db.outbox + processed_of r.0 ≤ potential w.db.outbox
      by_answer w (ok s, v) u = u
      by_answer w (err e, v) u = omega arith

  -- From a consistent outbox outside transactions, however many runs follow each other and whatever
  -- the HTTP client does in them, the events that they process, each counted as often as it is
  -- processed, are at most the attempts that the pending events have left at the start.
  pub run_all_bounded :
      (runs : List Run) (w : World)
      → Quiet w
      → IsConsistent w.db.outbox
      → let (processed, after) = run_all runs w in
        processed + potential after.db.outbox ≤ potential w.db.outbox
  unfolding run_all
  run_all_bounded [] w q c = omega arith
  run_all_bounded (run ∷ runs) w q c =
      let (q', c') = task-Good run w (q, c) in
      let v = (deliver_outbox_events_task tx http run w).1 in
      omega (arith, task_uses run w (q, c), run_all_bounded runs v q' c')
