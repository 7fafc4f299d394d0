-- ===== src/Common/Outbox/Emission.antt =====
-- What `emit_event` (common/services/outbox.py) does on every path, alone and in a transaction.
use doorito.Base.{
  ◌+◌, ◌<◌, ◌≡◌, refl, ap, ◌∙◌, inl, inr, false, Option, String, [], ◌∷◌, ◌++◌ as append, arith,
  any, Bool-cases, if◌then◌else◌,
}
use doorito.World.{World, Action, Error, Result, ok, err, integrity_error, ◌>>=◌}
use doorito.Common.Models.{OutboxEvent, Payload}
use doorito.Common.Utils.{dispatch}
use doorito.Common.Transactions.{Transactions, register, finish, enter, commit, run_hooks}
use doorito.Common.Outbox.Emit.{Draw, emit_event, new_event, clashes}

-- The new row is added, and nothing else of the database changes.
abbrev pub with_event : OutboxEvent → World → World
with_event event w = record w { db = record w.db { outbox = append w.db.outbox (event ∷ []) } }

-- The end of a transaction whose body raised.
after_raise :
    {A : Type 0} (w : World) (r : Result A × World) (e : Error)
    → r.0 ≡ err e
    → r.1.sent ≡ w.sent
    → ((finish w r).1.db ≡ w.db) × ((finish w r).1.sent ≡ w.sent) × ((finish w r).1.hooks ≡ w.hooks)
unfolding finish
after_raise w (answer, v) e raised sent = rw raised (refl, sent, refl)

register-depth : (w : World) → 0 < w.depth → 0 < (register w).depth
unfolding register
register-depth w h = ground arith

register-sent : (w : World) → 0 < w.depth → (register w).sent ≡ w.sent
unfolding register
register-sent w h = ground arith

pub commit_registered :
    (w : World)
    → w.hooks ≡ 0
    → w.depth ≡ 0
    → commit (record (register (enter w)) { depth = w.depth })
      ≡ record w { sent = w.sent + (if w.broker_up then 1 else 0) }
unfolding register commit run_hooks dispatch
commit_registered w h d = ground arith

module _ (tx : Transactions) where
  -- An emission is refused exactly if a row has the new primary key, or the new event type and
  -- idempotency key; then nothing changes. Else the new row is added and the delivery is
  -- registered.
  pub emit_event_outcome :
      (type id event_type : String) (payload : Option Payload) (key : Option String) (draw : Draw)
      (w : World)
      → let new = new_event type id event_type payload key draw in
        emit_event tx type id event_type payload key draw w ≡ (
          if any (clashes new) w.db.outbox
          then (err integrity_error, w)
          else (ok new, register (with_event new w)))
  unfolding emit_event
  emit_event_outcome type id event_type payload key draw w =
      let new = new_event type id event_type payload key draw in
      elim (Bool-cases (any (clashes new) w.db.outbox)) [
        | inl clash ↦ rw clash
        | inr fresh ↦ rw (fresh, tx.on_commit_runs (with_event new w))
      ]

  -- The body of a transaction that emits an event and then goes on.
  abbrev pub emit_then :
      {A : Type 0}
      → String
      → String
      → String
      → Option Payload
      → Option String
      → Draw
      → (OutboxEvent → Action A)
      → Action A
  emit_then type id event_type payload key draw rest = do
    event ← emit_event tx type id event_type payload key draw
    rest event

  -- If what follows an emission in a transaction always raises an exception, and hands no delivery
  -- to the broker while the transaction is open, then after the transaction the database, the number
  -- of deliveries handed over and the number of waiting callbacks are as before, whether or not the
  -- emission itself was accepted.
  pub emit_rolled_back :
      {A : Type 0} (type id event_type : String) (payload : Option Payload) (key : Option String)
      (draw : Draw) (rest : OutboxEvent → Action A) (w : World)
      → ((event : OutboxEvent) (v : World) → (e : Error) × ((rest event v).0 ≡ err e))
      → ((event : OutboxEvent) (v : World) → 0 < v.depth → (rest event v).1.sent ≡ v.sent)
      → let after = (tx.atomic A (emit_then type id event_type payload key draw rest) w).1 in
        (after.db ≡ w.db) × (after.sent ≡ w.sent) × (after.hooks ≡ w.hooks)
  emit_rolled_back {A} type id event_type payload key draw rest w raises keeps =
      let new = new_event type id event_type payload key draw in
      rw
        (
          tx.atomic_runs A (emit_then type id event_type payload key draw rest) w,
          emit_event_outcome type id event_type payload key draw (enter w),
        )
        (elim (Bool-cases (any (clashes new) w.db.outbox)) [
          | inl clash ↦
              rw clash (after_raise w (err integrity_error, enter w) integrity_error refl refl)
          | inr fresh ↦
              let v = register (with_event new (enter w)) in
              let (e, raised) = raises new v in
              let sent = register-sent (with_event new (enter w)) (omega arith) in
              rw fresh (
                after_raise w (rest new v) e raised
                  (keeps new v (register-depth (with_event new (enter w)) (omega arith)) ∙ sent))
        ])

  -- In an outermost transaction that commits, with no callback waiting and no event that the new
  -- one would clash with, the row is added and the delivery is handed over once if the broker is
  -- up; a broker that is down loses the delivery and not the row.
  pub emit_committed :
      (type id event_type : String) (payload : Option Payload) (key : Option String) (draw : Draw)
      (w : World)
      → w.hooks ≡ 0
      → w.depth ≡ 0
      → any (clashes (new_event type id event_type payload key draw)) w.db.outbox ≡ false
      → let new = new_event type id event_type payload key draw in
        tx.atomic OutboxEvent (emit_event tx type id event_type payload key draw) w
        ≡ (ok new, record (with_event new w) { sent = w.sent + (if w.broker_up then 1 else 0) })
  unfolding finish
  emit_committed type id event_type payload key draw w h d fresh =
      let new = new_event type id event_type payload key draw in
      rw
        (
          tx.atomic_runs OutboxEvent (emit_event tx type id event_type payload key draw) w,
          emit_event_outcome type id event_type payload key draw (enter w),
          fresh,
        )
        (ap (λ (v : World). (ok new, v)) (commit_registered (with_event new w) h d))
