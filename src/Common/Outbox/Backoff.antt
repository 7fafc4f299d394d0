-- ===== src/Common/Outbox/Backoff.antt =====
-- The retry schedule of `process_pending_events` (common/services/outbox.py).
use doorito.Base.{
  leb, Bool-cases, ℕ, suc, ◌+◌, ◌-◌, ◌*◌, ◌^◌, ◌≤◌, ◌<◌, ◌≡◌, false, some, none, arith, min, zero,
  refl, ap, ◌∙◌, List, [], ◌∷◌, ◌++◌, length, String, ◌⊎◌, inl, inr,
}
use native.Mathlib.Nat.{one-le-pow, pow-suc}
use native.Mathlib.Numerals.{towards_suc}
use doorito.Base.Time.{seconds}
use doorito.Common.Models.{OutboxEvent, pending, failed}
use doorito.Common.Outbox.Settle.{retry_delay, settle}

retry_delay-suc : (n : ℕ) → retry_delay (suc n) ≡ min (60 * 2 ^ n) 3600
unfolding retry_delay
retry_delay-suc n = let e : suc n - 1 ≡ n = omega arith in rw e

retry_delay_late : (n : ℕ) → retry_delay (n + 7) ≡ 3600
unfolding retry_delay
retry_delay_late n =
    let e : n + 7 - 1 ≡ n + 6 = omega arith in
    rw e (simp towards_suc (omega (arith, one-le-pow n 2 (omega arith), pow-suc 2)))

-- The delay after the n-th failed attempt, n from 1 on, lies between one minute and one hour, never
-- falls from one attempt to the next, doubles until it reaches the hour, and is an hour from the
-- seventh attempt on.
pub retry_delay_schedule :
    (n : ℕ)
    → (60 ≤ retry_delay (suc n))
      × (retry_delay (suc n) ≤ 3600)
      × (retry_delay (suc n) ≤ retry_delay (suc (suc n)))
      × (retry_delay (suc (suc n)) ≡ min (2 * retry_delay (suc n)) 3600)
      × (retry_delay (n + 7) ≡ 3600)
retry_delay_schedule n =
    let p = one-le-pow n 2 (omega arith) in
    let q = pow-suc 2 n in
    let a = retry_delay-suc n in
    let b = retry_delay-suc (suc n) in
    (omega arith, omega arith, omega arith, omega arith, retry_delay_late n)

-- A minute, doubled with each further failure up to an hour.
abbrev pub doubled : ℕ → ℕ
doubled zero = 60
doubled (suc n) = min (2 * doubled n) 3600

retry_delay-doubled : (n : ℕ) → retry_delay (suc n) ≡ doubled n
unfolding retry_delay
retry_delay-doubled zero = refl
retry_delay-doubled (suc n) =
    (retry_delay_schedule n).3 ∙ ap (λ d. min (2 * d) 3600) (retry_delay-doubled n)

-- A failed delivery: when it is settled, the jitter that is drawn, and the error.
pub record Failure : Type 0 where
  pub now : ℕ
  pub jitter : ℕ
  pub error : String

abbrev pub fail : Failure → OutboxEvent → OutboxEvent
fail f event = settle f.now f.jitter (record { all_ok = false; error = f.error }) event

-- The event after one failed delivery after the other.
abbrev pub after_failures : List Failure → OutboxEvent → OutboxEvent
after_failures [] event = event
after_failures (f ∷ fs) event = after_failures fs (fail f event)

fail_spare :
    (f : Failure) (event : OutboxEvent)
    → event.status ≡ pending
    → event.attempts + 1 < event.max_attempts
    → ((fail f event).status ≡ pending)
      × ((fail f event).attempts ≡ event.attempts + 1)
      × ((fail f event).max_attempts ≡ event.max_attempts)
unfolding settle
fail_spare f event waits spare =
    let more : leb event.max_attempts (event.attempts + 1) ≡ false = ground arith in
    rw more (waits, refl, refl)

-- As long as attempts are to spare, the event is pending.
failures_counted :
    (fs : List Failure) (event : OutboxEvent)
    → event.status ≡ pending
    → event.attempts + length fs < event.max_attempts
    → ((after_failures fs event).status ≡ pending)
      × ((after_failures fs event).attempts ≡ event.attempts + length fs)
      × ((after_failures fs event).max_attempts ≡ event.max_attempts)
failures_counted [] event waits spare = (waits, omega arith, refl)
failures_counted (f ∷ fs) event waits spare =
    let (kept, counted, same) = fail_spare f event waits (omega arith) in
    let (a, b, c) = failures_counted fs (fail f event) kept (omega arith) in
    (a, omega arith, c ∙ same)

after_failures-snoc :
    (fs : List Failure) (f : Failure) (event : OutboxEvent)
    → after_failures (fs ++ f ∷ []) event ≡ fail f (after_failures fs event)
after_failures-snoc [] f event = refl
after_failures-snoc (g ∷ fs) f event = after_failures-snoc fs f (fail g event)

-- What a further failure makes of a pending event, after `n` attempts of at most `most`.
abbrev Fails : ℕ → ℕ → Failure → OutboxEvent → Type 0
Fails n most f after =
    let delay = seconds (doubled n) in
    (after.attempts ≡ n + 1)
    × (after.error_message ≡ f.error)
    × (((n + 1 ≡ most) × (after.status ≡ failed) × (after.next_attempt_at ≡ none))
        ⊎ ((n + 1 < most)
            × (after.status ≡ pending)
            × ((t : ℕ) × (after.next_attempt_at ≡ some t)
                × (f.now + delay ≤ t)
                × (t * 10 ≤ f.now * 10 + 11 * delay))))

fail-Fails :
    (f : Failure) (event : OutboxEvent)
    → event.status ≡ pending
    → event.attempts < event.max_attempts
    → f.jitter * 10 ≤ seconds (doubled event.attempts)
    → Fails event.attempts event.max_attempts f (fail f event)
unfolding settle
fail-Fails f event waits few small =
    let n = event.attempts in
    let e : n + 1 ≡ suc n = omega arith in
    let delay : retry_delay (n + 1) ≡ doubled n = ap retry_delay e ∙ retry_delay-doubled n in
    elim (Bool-cases (leb event.max_attempts (n + 1))) [
      | inl spent ↦ rw spent (refl, refl, inl (ground arith, refl, refl))
      | inr spare ↦
          rw (spare, delay)
            (
              refl,
              refl,
              inr (
                ground arith,
                waits,
                (f.now + seconds (doubled n) + f.jitter, refl, omega arith, omega arith),
              ),
            )
    ]

-- A new event, pending and without an attempt, of which one delivery after the other fails, at most
-- as often as it may be tried, the last with a jitter of at most a tenth of the delay: it counts all
-- the failures and holds the last error; at the last attempt that it has, it is FAILED and waits
-- for no further one; before that it is pending, and its next attempt lies at least the delay
-- ahead and at most eleven tenths of it, where the delay is a minute after the first failure and
-- doubles with each further one, up to an hour.
pub repeated_failures :
    (earlier : List Failure) (last : Failure) (event : OutboxEvent)
    → event.status ≡ pending
    → event.attempts ≡ 0
    → length earlier < event.max_attempts
    → last.jitter * 10 ≤ seconds (doubled (length earlier))
    → let after = after_failures (earlier ++ last ∷ []) event in
      let delay = seconds (doubled (length earlier)) in
      (after.attempts ≡ length earlier + 1)
      × (after.error_message ≡ last.error)
      × (((length earlier + 1 ≡ event.max_attempts)
            × (after.status ≡ failed)
            × (after.next_attempt_at ≡ none))
          ⊎ ((length earlier + 1 < event.max_attempts)
              × (after.status ≡ pending)
              × ((t : ℕ) × (after.next_attempt_at ≡ some t)
                  × (last.now + delay ≤ t)
                  × (t * 10 ≤ last.now * 10 + 11 * delay))))
repeated_failures earlier last event waits new few small =
    let before = after_failures earlier event in
    let (kept, counted, same) = failures_counted earlier event waits (omega arith) in
    let attempts : before.attempts ≡ length earlier = omega arith in
    let fails = fail-Fails last before kept (omega arith) (rw attempts small) in
    rw (after_failures-snoc earlier last event) (rw (attempts, same) at fails)
