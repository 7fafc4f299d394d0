-- ===== src/Common/Outbox/Validity.antt =====
-- What holds of every row of the outbox between two service calls, and that the services of
-- common/services/outbox.py keep it.
use doorito.Base.{
  ℕ, ◌≤◌, ◌<◌, ◌≡◌, refl, Bool, false, Option, none, some, String, List, [], ◌∷◌, ◌++◌, All, arith,
  any, filter, map, str_eq, eq_iff, ◌∙◌,
}
use doorito.Base.Table.{has, Keyed}
use doorito.Common.Models.{OutboxEvent, Payload, pending, delivered, failed}
use doorito.Common.Outbox.Emit.{new_event, Draw, clashes}
use doorito.Common.Outbox.Deliver.{Verdict, Results}
use doorito.Common.Outbox.Settle.{settle, overwrite}
use doorito.Common.Outbox.Rows.{event_pk, written}

-- The documented lifecycle: a pending event has attempts to spare and a time for the next one; a
-- delivered event has the time of its delivery and no error; a failed one has used up its
-- attempts; neither of them is scheduled.
pub record IsValid (e : OutboxEvent) : Type 0 where
  pub some_attempts : 0 < e.max_attempts
  pub attempts_bounded : e.attempts ≤ e.max_attempts
  pub pending_spare : e.status ≡ pending → e.attempts < e.max_attempts
  pub pending_scheduled : e.status ≡ pending → (t : ℕ) × (e.next_attempt_at ≡ some t)
  pub delivered_stamped : e.status ≡ delivered → (t : ℕ) × (e.delivered_at ≡ some t)
  pub delivered_clean : e.status ≡ delivered → e.error_message ≡ ""
  pub delivered_done : e.status ≡ delivered → e.next_attempt_at ≡ none
  pub failed_exhausted : e.status ≡ failed → e.attempts ≡ e.max_attempts
  pub failed_done : e.status ≡ failed → e.next_attempt_at ≡ none

pub new_event-IsValid :
    (type id event_type : String) (payload : Option Payload) (key : Option String) (draw : Draw)
    → IsValid (new_event type id event_type payload key draw)
unfolding new_event
new_event-IsValid type id event_type payload key draw = ground arith

pub written-IsValid :
    (now saved : ℕ) (jitter : ℕ → ℕ) (results : Results) (r : Verdict) (e : OutboxEvent)
    → IsValid e
    → e.status ≡ pending
    → IsValid (written now saved jitter results e r e)
unfolding settle overwrite
written-IsValid now saved jitter results r e v p = ground arith

-- Pairwise, no two rows break a constraint of the table.
abbrev pub Unclashed : List OutboxEvent → Type 0
Unclashed [] = Unit
Unclashed (x ∷ xs) = (any (clashes x) xs ≡ false) × Unclashed xs

-- The invariant of the table.
pub record IsConsistent (outbox : List OutboxEvent) : Type 0 where
  pub valid : All IsValid outbox
  pub unclashed : Unclashed outbox

has-any-clashes :
    (x : OutboxEvent) (xs : List OutboxEvent)
    → any (clashes x) xs ≡ false
    → has event_pk x.id xs ≡ false
unfolding clashes
has-any-clashes x [] h = refl
has-any-clashes x (y ∷ ys) h = ground (arith, has-any-clashes x ys)

pub Unclashed-Keyed : (xs : List OutboxEvent) → Unclashed xs → Keyed event_pk xs
Unclashed-Keyed [] u = tt
Unclashed-Keyed (x ∷ xs) u = (has-any-clashes x xs u.0, Unclashed-Keyed xs u.1)

str_eq_comm : (s t : String) → str_eq s t ≡ str_eq t s
str_eq_comm s t = ground (arith, eq_iff s t, eq_iff t s)

clashes_comm : (x y : OutboxEvent) → clashes x y ≡ clashes y x
unfolding clashes
clashes_comm x y =
    ground (
      arith,
      str_eq_comm x.event_type y.event_type,
      str_eq_comm x.idempotency_key y.idempotency_key,
    )

any-clashes-append :
    (x new : OutboxEvent) (xs : List OutboxEvent)
    → any (clashes x) xs ≡ false
    → clashes x new ≡ false
    → any (clashes x) (xs ++ new ∷ []) ≡ false
any-clashes-append x new [] h c = ground arith
any-clashes-append x new (y ∷ ys) h c = ground (arith, any-clashes-append x new ys)

pub Unclashed-append :
    (new : OutboxEvent) (xs : List OutboxEvent)
    → any (clashes new) xs ≡ false
    → Unclashed xs
    → Unclashed (xs ++ new ∷ [])
Unclashed-append new [] h u = (refl, tt)
Unclashed-append new (x ∷ xs) h u = (
  any-clashes-append x new xs u.0 (ground (arith, clashes_comm x new)),
  Unclashed-append new xs (ground arith) u.1,
)

pub All-append :
    (P : OutboxEvent → Type 0) (x : OutboxEvent) (xs : List OutboxEvent)
    → All P xs
    → P x
    → All P (xs ++ x ∷ [])
All-append P x [] h p = (p, tt)
All-append P x (y ∷ ys) h p = (h.0, All-append P x ys h.1 p)

-- A change of rows that leaves the constrained columns alone.
abbrev pub KeepsKeys : (OutboxEvent → OutboxEvent) → Type 0
KeepsKeys f =
    (e : OutboxEvent)
    → ((f e).id ≡ e.id)
      × ((f e).event_type ≡ e.event_type)
      × ((f e).idempotency_key ≡ e.idempotency_key)

clashes_keep :
    (f g : OutboxEvent → OutboxEvent) (x y : OutboxEvent)
    → KeepsKeys f
    → KeepsKeys g
    → clashes (f x) (g y) ≡ clashes x y
unfolding clashes
clashes_keep f g x y kf kg = rw ((kf x).0, (kf x).1, (kf x).2, (kg y).0, (kg y).1, (kg y).2)

any-clashes-map :
    (f g : OutboxEvent → OutboxEvent) (x : OutboxEvent) (xs : List OutboxEvent)
    → KeepsKeys f
    → KeepsKeys g
    → any (clashes (f x)) (map g xs) ≡ any (clashes x) xs
any-clashes-map f g x [] kf kg = refl
any-clashes-map f g x (y ∷ ys) kf kg =
    rw (clashes_keep f g x y kf kg, any-clashes-map f g x ys kf kg)

pub Unclashed-map :
    (f : OutboxEvent → OutboxEvent) (xs : List OutboxEvent)
    → KeepsKeys f
    → Unclashed xs
    → Unclashed (map f xs)
Unclashed-map f [] k u = tt
Unclashed-map f (x ∷ xs) k u = (any-clashes-map f f x xs k k ∙ u.0, Unclashed-map f xs k u.1)

any-clashes-filter :
    (x : OutboxEvent) (p : OutboxEvent → Bool) (xs : List OutboxEvent)
    → any (clashes x) xs ≡ false
    → any (clashes x) (filter p xs) ≡ false
any-clashes-filter x p [] h = refl
any-clashes-filter x p (y ∷ ys) h = ground (arith, any-clashes-filter x p ys)

pub Unclashed-filter :
    (p : OutboxEvent → Bool) (xs : List OutboxEvent) → Unclashed xs → Unclashed (filter p xs)
Unclashed-filter p [] u = tt
Unclashed-filter p (x ∷ xs) u =
    ground (arith, any-clashes-filter x p xs u.0, Unclashed-filter p xs u.1)
