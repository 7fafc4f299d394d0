-- ===== src/Common/Outbox/Rows.antt =====
-- What `save_results` does to the table, as a fold over the rows with no errors and no state: the
-- loop of phase 3 runs through whenever the rows are there.
use doorito.Base.{ℕ, ◌+◌, ◌≡◌, refl, ◌∙◌, true, Option, none, some, List, [], ◌∷◌, All, arith}
use doorito.Base.Table.{has, modify, has-modify}
use doorito.World.{World, Result, ok}
use doorito.Base.Sorting.{All-weaken}
use doorito.Common.Models.{OutboxEvent}
use doorito.Common.Outbox.Deliver.{Verdict, Results}
use doorito.Common.Outbox.Settle.{
  settle, overwrite, save_event, result_of, delivered_one, failed_one, save_results, save_one,
}

abbrev pub event_pk : OutboxEvent → ℕ
event_pk e = e.id

module _ (now saved : ℕ) (jitter : ℕ → ℕ) (results : Results) where
  abbrev pub written : OutboxEvent → Verdict → OutboxEvent → OutboxEvent
  written event r = overwrite saved (settle now (jitter event.id) r event)

  abbrev pub row_step : OutboxEvent → Option Verdict → List OutboxEvent → List OutboxEvent
  row_step event none outbox = outbox
  row_step event (some r) outbox = modify event_pk event.id (written event r) outbox

  -- The table after the loop.
  unfoldable pub settled_rows : List OutboxEvent → List OutboxEvent → List OutboxEvent
  settled_rows [] outbox = outbox
  settled_rows (event ∷ events) outbox =
      settled_rows events (row_step event (result_of event.id results) outbox)

  abbrev pub gain_delivered : Option Verdict → ℕ
  gain_delivered none = 0
  gain_delivered (some r) = delivered_one r

  abbrev pub gain_failed : OutboxEvent → Option Verdict → ℕ
  gain_failed event none = 0
  gain_failed event (some r) = failed_one r event

  -- The numbers of events that are delivered, and that fail for good.
  unfoldable pub total_delivered : List OutboxEvent → ℕ
  total_delivered [] = 0
  total_delivered (event ∷ events) =
      gain_delivered (result_of event.id results) + total_delivered events

  unfoldable pub total_failed : List OutboxEvent → ℕ
  total_failed [] = 0
  total_failed (event ∷ events) =
      gain_failed event (result_of event.id results) + total_failed events

  pub settle-id : (j : ℕ) (r : Verdict) (event : OutboxEvent) → (settle now j r event).id ≡ event.id
  unfolding settle
  settle-id j r event = ground arith

  has-row_step :
      (j : ℕ) (event : OutboxEvent) (o : Option Verdict) (outbox : List OutboxEvent)
      → has event_pk j (row_step event o outbox) ≡ has event_pk j outbox
  has-row_step j event none outbox = refl
  has-row_step j event (some r) outbox =
      has-modify event_pk j event.id (written event r) outbox (λ x. unfold overwrite in refl)

  keep_rows :
      (events : List OutboxEvent) (event : OutboxEvent) (o : Option Verdict)
      (outbox : List OutboxEvent)
      → All (λ e. has event_pk e.id outbox ≡ true) events
      → All (λ e. has event_pk e.id (row_step event o outbox) ≡ true) events
  keep_rows events event o outbox h =
      All-weaken (λ e k. has-row_step e.id event o outbox ∙ k) events h

  save_one-eq :
      (event : OutboxEvent) (o : Option Verdict) (w : World) (rest : World → Result (ℕ × ℕ) × World)
      (d f : ℕ) (outbox : List OutboxEvent)
      → has event_pk event.id w.db.outbox ≡ true
      → rest (record w { db = record w.db { outbox = row_step event o w.db.outbox } })
        ≡ (ok (d, f), record w { db = record w.db { outbox = outbox } })
      → save_one now saved jitter results event o rest w ≡ (
        ok (gain_delivered o + d, gain_failed event o + f),
        record w { db = record w.db { outbox = outbox } },
      )
  unfolding save_event
  save_one-eq event none w rest d f outbox h e = ground arith
  save_one-eq event (some r) w rest d f outbox h e =
      ground (arith, settle-id (jitter event.id) r event)

  -- Every event that has a row is saved, and the counters count the branches taken.
  pub save_results-eq :
      (events : List OutboxEvent) (w : World)
      → All (λ e. has event_pk e.id w.db.outbox ≡ true) events
      → save_results now saved jitter results events w ≡ (
        ok (total_delivered events, total_failed events),
        record w { db = record w.db { outbox = settled_rows events w.db.outbox } },
      )
  unfolding save_results total_delivered total_failed settled_rows
  save_results-eq [] w h = refl
  save_results-eq (event ∷ events) w h =
      let o = result_of event.id results in
      let outbox' = row_step event o w.db.outbox in
      save_one-eq event o w (save_results now saved jitter results events) (total_delivered events)
        (total_failed events) (settled_rows events outbox') h.0
        (save_results-eq events (record w { db = record w.db { outbox = outbox' } })
          (keep_rows events event o w.db.outbox h.1))
