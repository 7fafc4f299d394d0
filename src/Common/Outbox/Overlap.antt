-- ===== src/Common/Outbox/Overlap.antt =====
-- Two overlapping runs of `process_pending_events` (common/services/outbox.py). Phase 1 gives its
-- locks up before the posts, so that both may read the same pending event; each later writes its
-- own copy of the row.
use doorito.Base.{ℕ, ◌+◌, ◌<◌, ◌≡◌, refl, ◌∙◌, ap, true, false, some, [], ◌∷◌, arith, ==_refl}
use doorito.Base.Table.{find, find-modify_self, find-has}
use doorito.World.{World}
use doorito.Common.Models.{OutboxEvent, pending, delivered}
use doorito.Common.Outbox.Deliver.{Verdict, Results}
use doorito.Common.Outbox.Settle.{settle, overwrite, result_of, save_results}
use doorito.Common.Outbox.Rows.{event_pk, written, settled_rows, save_results-eq}

-- The clocks and the jitter of phase 3 of one run.
pub record Phase : Type 0 where
  pub now : ℕ
  pub saved : ℕ
  pub jitter : ℕ → ℕ

-- Phase 3 of a run that read `event` and came to the verdict `r`.
abbrev pub write_back : Phase → OutboxEvent → Verdict → World → World
write_back p event r w = (save_results p.now p.saved p.jitter ((event.id, r) ∷ []) (event ∷ []) w).1

module _ (p : Phase) (event : OutboxEvent) (r : Verdict) where
  found_result : result_of event.id ((event.id, r) ∷ []) ≡ some r
  unfolding result_of
  found_result = rw (==_refl event.id)

  outbox-write_back :
      (w : World) {row : OutboxEvent}
      → find event_pk event.id w.db.outbox ≡ some row
      → find event_pk event.id (write_back p event r w).db.outbox
        ≡ some (overwrite p.saved (settle p.now (p.jitter event.id) r event) row)
  outbox-write_back w {row} h =
      let results : Results = (event.id, r) ∷ [] in
      ap (λ r. find event_pk event.id r.1.db.outbox)
        (save_results-eq p.now p.saved p.jitter results (event ∷ []) w
          (find-has event_pk event.id w.db.outbox h, tt))
      ∙ (unfold settled_rows in
          rw found_result (
            find-modify_self event_pk event.id (written p.now p.saved p.jitter results event r)
              w.db.outbox (λ x. unfold overwrite in refl) h))

-- Two runs have read the same pending event with at least two attempts left. The first delivers it
-- and writes so; the second fails and writes after it. Then the row is pending again, with the
-- delivery time that it had before both runs and one attempt counted for the two.
pub overlap_reopens_delivered :
    (first second : Phase) (event : OutboxEvent) (good bad : Verdict) (w : World)
    → find event_pk event.id w.db.outbox ≡ some event
    → event.status ≡ pending
    → event.attempts + 1 < event.max_attempts
    → good.all_ok ≡ true
    → bad.all_ok ≡ false
    → (between after : OutboxEvent) × (find event_pk event.id
          (write_back first event good w).db.outbox
        ≡ some between)
      × (between.status ≡ delivered)
      × (find event_pk event.id
            (write_back second event bad (write_back first event good w)).db.outbox
          ≡ some after)
      × (after.status ≡ pending)
      × (after.delivered_at ≡ event.delivered_at)
      × (after.attempts ≡ event.attempts + 1)
overlap_reopens_delivered first second event good bad w h p spare g b =
    let between =
      overwrite first.saved (settle first.now (first.jitter event.id) good event) event in
    let after =
      overwrite second.saved (settle second.now (second.jitter event.id) bad event) between in
    let here = outbox-write_back first event good w h in
    (
      between,
      after,
      here,
      unfold overwrite settle in ground arith,
      outbox-write_back second event bad (write_back first event good w) here,
      unfold overwrite settle in ground arith,
      unfold overwrite settle in ground arith,
      unfold overwrite settle in ground arith,
    )
