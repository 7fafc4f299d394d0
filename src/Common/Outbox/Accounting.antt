-- ===== src/Common/Outbox/Accounting.antt =====
-- What a run of `process_pending_events` (common/services/outbox.py) reports, against what it did.
use doorito.Base.{
  ℕ, ◌+◌, ◌≤◌, ◌≡◌, refl, sym, ◌⊎◌, inl, inr, Bool, true, false, Option, none, some, String, List,
  [], ◌∷◌, ◌==◌, All, arith, length, length-take, Bool-cases, ==→eq,
}
use doorito.Base.Table.{find, has, Keyed}
use doorito.Base.Sorting.{All-weaken, All-and}
use doorito.World.{World, Result, ok}
use doorito.Common.Models.{OutboxEvent}
use doorito.Common.Transactions.{Transactions}
use doorito.Common.Webhook.{Http}
use doorito.Common.Outbox.Fetch.{is_due, fetch_due, active_endpoints}
use doorito.Common.Outbox.Deliver.{Verdict, Results, Ending, finished, out_of_time, crashed}
use doorito.Common.Outbox.Settle.{settle, overwrite, result_of}
use doorito.Common.Outbox.Process.{Run, Summary, count_pending, process_pending_events}
use doorito.Common.Outbox.Rows.{event_pk}
use doorito.Common.Outbox.Outcomes.{
  outcome, find-settled_rows, find-settled_rows_ne, count_pending-settled_rows,
}
use doorito.Common.Outbox.Results.{
  RaisesNoOther, deliver_events-uncrashed, gained-deliver_events, length-deliver_events,
}
use doorito.Common.Outbox.Sweep.{
  Idle, Fetched, fetch_due-Fetched, fetch_due-Keyed, events_of, progress_of, summary_of, swept,
  sweep_ending, sweep, process_pending_events-eq,
}

length-fetch_due :
    (locked : ℕ → Bool) (now n : ℕ) (outbox : List OutboxEvent)
    → length (fetch_due locked now n outbox) ≤ n
unfolding fetch_due
length-fetch_due locked now n outbox = omega (arith, length-take {0} n)

module _ (tx : Transactions) (http : Http) (run : Run) (batch_size : ℕ) (w : World) where
  -- What a summary says is true of the run from `w` to the state after it.
  abbrev pub Accounts : Summary → World → Type 0
  Accounts s after =
      (s.remaining + s.delivered + s.failed ≡ count_pending w.db.outbox)
      × (s.remaining ≡ count_pending after.db.outbox)
      × (s.delivered + s.failed ≤ s.processed)
      × (s.processed ≤ batch_size)

  abbrev pub ReturnsAccounts : Result Summary × World → Type 0
  ReturnsAccounts r = (s : Summary) × (r.0 ≡ ok s) × (Accounts s r.1)

  sweep-Accounts :
      Keyed event_pk w.db.outbox
      → Accounts
          (summary_of http run (events_of http run batch_size w) w)
          (swept http run (events_of http run batch_size w) w)
  sweep-Accounts d =
      let events = events_of http run batch_size w in
      let results = (progress_of http run events w).results in
      let endpoints = active_endpoints w.db.endpoints in
      let fetched = fetch_due-Fetched run.locked run.started batch_size w.db.outbox d in
      let keyed = fetch_due-Keyed run.locked run.started batch_size w.db.outbox d in
      let count =
        count_pending-settled_rows run.finished_at run.saved run.jitter results events w.db.outbox d
          keyed (All-weaken (λ e h. h.0) events fetched)
          (All-weaken (λ e h. ground (arith, h.1)) events fetched) in
      let gained =
        gained-deliver_events run.finished_at run.saved run.jitter http endpoints events w.requests
          keyed in
      let made = length-deliver_events http endpoints events w.requests in
      let bound = length-fetch_due run.locked run.started batch_size w.db.outbox in
      (omega (arith, count), refl, gained, omega (arith, made, bound))

  ending_accounts :
      (ending : Ending)
      → ((m : String) → ending ≡ crashed m → ⊥)
      → Keyed event_pk w.db.outbox
      → ReturnsAccounts (sweep_ending http run (events_of http run batch_size w) ending w)
  ending_accounts finished h d =
      (summary_of http run (events_of http run batch_size w) w, refl, sweep-Accounts d)
  ending_accounts out_of_time h d =
      (summary_of http run (events_of http run batch_size w) w, refl, sweep-Accounts d)
  ending_accounts (crashed m) h d = absurd (h m refl)

  -- If the HTTP client raises only what is caught or the time limit, then from a state with distinct
  -- primary keys and no waiting callback the run returns a summary. The events pending before it
  -- are those that remain, those delivered and those that failed; `remaining` counts the pending
  -- rows of the final table; what is delivered or failed was processed; at most `batch_size` are
  -- processed.
  pub process_accounts :
      RaisesNoOther http
      → Idle w
      → Keyed event_pk w.db.outbox
      → ReturnsAccounts (process_pending_events tx http run batch_size w)
  unfolding sweep
  process_accounts no_other idle d =
      rw (process_pending_events-eq tx http run batch_size w idle d) (
        ending_accounts (progress_of http run (events_of http run batch_size w) w).ending
          (deliver_events-uncrashed http no_other (active_endpoints w.db.endpoints)
            (events_of http run batch_size w) w.requests)
          d)

-- The lookup in a list of fetched events: absent, or the event with what is known of it.
has_or_absent {κ} :
    {P : OutboxEvent → Type κ} (j : ℕ) (events : List OutboxEvent)
    → All P events
    → (has event_pk j events ≡ false) ⊎ ((e : OutboxEvent) × (e.id ≡ j) × P e)
has_or_absent j [] h = inl refl
has_or_absent j (e ∷ events) h = elim (Bool-cases (j == e.id)) [
  | inl eq ↦ inr (e, sym (==→eq j e.id eq), h.0)
  | inr ne ↦ elim (has_or_absent j events h.1) [
    | inl absent ↦ inl (ground arith)
    | inr found ↦ inr found
  ]
]

module _ (tx : Transactions) (http : Http) (run : Run) (batch_size : ℕ) (w : World) where
  -- What may become of the row with primary key `j`.
  abbrev pub RowFate : ℕ → World → Type 0
  RowFate j after =
      (find event_pk j after.db.outbox ≡ find event_pk j w.db.outbox)
      ⊎ ((e : OutboxEvent) × (find event_pk j w.db.outbox ≡ some e)
          × (is_due run.started e ≡ true)
          × ((r : Verdict) × (find event_pk j after.db.outbox
                ≡ some (overwrite run.saved (settle run.finished_at (run.jitter e.id) r e) e))))

  fetched_fate :
      (results : Results) (j : ℕ) (e : OutboxEvent) (o : Option Verdict) (after : World)
      → e.id ≡ j
      → find event_pk e.id w.db.outbox ≡ some e
      → is_due run.started e ≡ true
      → find event_pk e.id after.db.outbox
        ≡ some (outcome run.finished_at run.saved run.jitter results e o)
      → RowFate j after
  fetched_fate results j e none after same row due now = inl (cc)
  fetched_fate results j e (some r) after same row due now =
      inr (e, rw (← same) row, due, (r, rw (← same) now))

  swept_fate :
      (j : ℕ)
      → Keyed event_pk w.db.outbox
      → RowFate j (swept http run (events_of http run batch_size w) w)
  swept_fate j d =
      let events = events_of http run batch_size w in
      let results = (progress_of http run events w).results in
      let after = swept http run events w in
      let fetched = fetch_due-Fetched run.locked run.started batch_size w.db.outbox d in
      let keyed = fetch_due-Keyed run.locked run.started batch_size w.db.outbox d in
      let current = All-weaken (λ e h. h.0) events fetched in
      let rows =
        find-settled_rows run.finished_at run.saved run.jitter results events w.db.outbox keyed
          current in
      elim (has_or_absent j events (
        All-and (Fetched run.started w.db.outbox)
          (λ e.
            find event_pk e.id after.db.outbox
            ≡ some
                (outcome run.finished_at run.saved run.jitter results e (result_of e.id results)))
          events fetched rows)) [
            | inl absent ↦ inl (
                find-settled_rows_ne run.finished_at run.saved run.jitter results j events
                  w.db.outbox absent)
            | inr (e, same, both) ↦
                fetched_fate results j e (result_of e.id results) after same both.0.0 both.0.1
                  both.1
          ]

  ending_fate :
      (j : ℕ) (ending : Ending)
      → Keyed event_pk w.db.outbox
      → RowFate j (sweep_ending http run (events_of http run batch_size w) ending w).1
  ending_fate j finished d = swept_fate j d
  ending_fate j out_of_time d = swept_fate j d
  ending_fate j (crashed m) d = inl refl

  -- From a state with distinct primary keys and no waiting callback, whatever the HTTP client does,
  -- each row is afterwards as it was, or it was pending and due when the run began and holds the
  -- outcome of one delivery, written over the row that the run had read.
  pub process-RowFate :
      (j : ℕ)
      → Idle w
      → Keyed event_pk w.db.outbox
      → RowFate j (process_pending_events tx http run batch_size w).1
  unfolding sweep
  process-RowFate j idle d =
      rw (process_pending_events-eq tx http run batch_size w idle d)
        (ending_fate j (progress_of http run (events_of http run batch_size w) w).ending d)
