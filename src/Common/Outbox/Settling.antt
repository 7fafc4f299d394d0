-- ===== src/Common/Outbox/Settling.antt =====
-- The delivery task (common/tasks.py), run often enough and late enough, settles every event.
use doorito.Base.{
  ℕ, ◌≤◌, ◌<◌, ◌≡◌, refl, ap, true, false, Bool, List, [], ◌∷◌, ◌++◌, ◌==◌, ◌&&◌, not, All, arith,
  length, filter, count_if, map, min, length-take, length-filter, if◌then◌else◌, Bool-cases, inl,
  inr, String,
}
use doorito.Base.Sorting.{sort_by, length-sort_by}
use doorito.World.{World, Request}
use doorito.Common.Models.{OutboxEvent, WebhookEndpoint, EventStatus, is_pending, pending}
use doorito.Common.Transactions.{Transactions}
use doorito.Common.Webhook.{
  Http, Outcome, response, request_error, read_outcome, deliver_to_endpoint, delivery_request,
}
use doorito.Common.Tasks.{deliver_outbox_events_task}
use doorito.Common.Outbox.Fetch.{
  delivery_batch_size, is_due, newer, fetch_due, active_endpoints, matching,
}
use doorito.Common.Outbox.Deliver.{
  Verdict, Posts, Progress, Ending, finished, out_of_time, crashed, after_attempt, after_event,
  post_each, deliver_events,
}
use doorito.Common.Outbox.Process.{Run, count_pending}
use doorito.Common.Outbox.Sweep.{Idle, events_of, sweep, process_pending_events-eq}
use doorito.Common.Outbox.Requests.{deliver_events_all}
use doorito.Common.Outbox.Validity.{IsValid, IsConsistent, Unclashed-Keyed}
use doorito.Common.Outbox.History.{Quiet}
use doorito.Common.Outbox.Potential.{spare, potential}
use doorito.Common.Outbox.Draining.{run_all, processed_of, task-Good, task_uses}

-- The outcomes that a worker with time enough meets: an answer, or an error that is caught.
abbrev pub is_answer : Outcome → Bool
is_answer (response code body) = true
is_answer (request_error kind message) = true
is_answer _ = false

abbrev pub Answers : Http → Type 0
Answers http = (log : List Request) (request : Request) → is_answer (http.post log request) ≡ true

module _ (http : Http) (answers : Answers http) where
  attempt_answered :
      (o : Outcome) (url : String) (log : List Request) (rest : Posts)
      → is_answer o ≡ true
      → rest.ending ≡ finished
      → (after_attempt (read_outcome http.is_success o) url log rest).ending ≡ finished
  unfolding read_outcome
  attempt_answered (response code body) url log rest h e = ground arith
  attempt_answered (request_error kind message) url log rest h e = ground arith
  attempt_answered Outcome.time_limit url log rest h e = cc
  attempt_answered (Outcome.other_error m) url log rest h e = cc

  post_each_finishes :
      (eps : List WebhookEndpoint) (event : OutboxEvent) (log : List Request)
      → (post_each http eps event log).ending ≡ finished
  unfolding post_each deliver_to_endpoint
  post_each_finishes [] event log = refl
  post_each_finishes (ep ∷ eps) event log =
      let request = delivery_request http ep event in
      attempt_answered (http.post log request) ep.url (log ++ request ∷ [])
        (post_each http eps event (log ++ request ∷ [])) (answers log request)
        (post_each_finishes eps event (log ++ request ∷ []))

  event_finishes :
      (id : ℕ) (posts : Posts) (ending : Ending) (rest : Progress)
      → ending ≡ finished
      → rest.ending ≡ finished
      → (after_event id posts ending rest).ending ≡ finished
  event_finishes id posts finished rest h e = e
  event_finishes id posts out_of_time rest h e = cc
  event_finishes id posts (crashed m) rest h e = cc

  pub deliver_events_finishes :
      (eps : List WebhookEndpoint) (events : List OutboxEvent) (log : List Request)
      → (deliver_events http eps events log).ending ≡ finished
  unfolding deliver_events
  deliver_events_finishes eps [] log = refl
  deliver_events_finishes eps (event ∷ events) log =
      let posts = post_each http (matching eps event) event log in
      event_finishes event.id posts posts.ending (deliver_events http eps events posts.log)
        (post_each_finishes (matching eps event) event log)
        (deliver_events_finishes eps events posts.log)

length-map {ℓ κ} :
    {A : Type ℓ} {B : Type κ} (f : A → B) (xs : List A) → length (map f xs) ≡ length xs
length-map f [] = refl
length-map f (x ∷ xs) = omega (arith, length-map f xs)

-- Every pending event is due when the run starts, and no other transaction holds it.
abbrev pub InReach : Run → List OutboxEvent → Type 0
InReach run outbox =
    All
      (λ (e : OutboxEvent).
        is_pending e.status ≡ true → (is_due run.started e ≡ true) × (run.locked e.id ≡ false))
      outbox

count_wanted :
    (run : Run) (outbox : List OutboxEvent)
    → InReach run outbox
    → count_pending outbox ≤ count_if (λ e. is_due run.started e && not (run.locked e.id)) outbox
count_wanted run [] h = omega arith
count_wanted run (e ∷ es) h = elim (Bool-cases (is_pending e.status)) [
  | inl p ↦ ground (arith, count_wanted run es h.1, h.0 p)
  | inr p ↦ ground (arith, count_wanted run es h.1)
]

-- A pending event has attempts left.
one-le-spare :
    (e : OutboxEvent) (s : EventStatus)
    → e.status ≡ s
    → IsValid e
    → (if is_pending e.status then 1 else 0) ≤ spare e
one-le-spare e pending h v = ground (arith, v.pending_spare h)
one-le-spare e EventStatus.delivered h v = ground arith
one-le-spare e EventStatus.failed h v = ground arith

pending-le-potential :
    (outbox : List OutboxEvent) → All IsValid outbox → count_pending outbox ≤ potential outbox
pending-le-potential [] v = omega arith
pending-le-potential (e ∷ es) v =
    omega (arith, one-le-spare e e.status refl v.0, pending-le-potential es v.1)

-- With none pending there is nothing to use up.
none_pending : (outbox : List OutboxEvent) → count_pending outbox ≡ 0 → potential outbox ≡ 0
none_pending [] h = refl
none_pending (e ∷ es) h = ground (arith, none_pending es)

module _ (tx : Transactions) (http : Http) (answers : Answers http) where
  length-events_of :
      (run : Run) (w : World)
      → InReach run w.db.outbox
      → min delivery_batch_size (count_pending w.db.outbox)
        ≤ length (events_of http run delivery_batch_size w)
  unfolding fetch_due
  length-events_of run w reach =
      let wanted : OutboxEvent → Bool = λ e. is_due run.started e && not (run.locked e.id) in
      omega (
        arith,
        length-take delivery_batch_size (sort_by newer (filter wanted w.db.outbox)),
        length-sort_by newer (filter wanted w.db.outbox),
        length-filter wanted w.db.outbox,
        count_wanted run w.db.outbox reach,
      )

  -- A run processes what it fetches.
  task_processes :
      (run : Run) (w : World)
      → Idle w
      → IsConsistent w.db.outbox
      → InReach run w.db.outbox
      → min delivery_batch_size (count_pending w.db.outbox)
        ≤ processed_of (deliver_outbox_events_task tx http run w).0
  unfolding deliver_outbox_events_task sweep
  task_processes run w idle c reach =
      let events = events_of http run delivery_batch_size w in
      let eps = active_endpoints w.db.endpoints in
      let done = deliver_events_finishes http answers eps events w.requests in
      let ids = (deliver_events_all http eps events w.requests done).1 in
      rw
        (
          process_pending_events-eq tx http run delivery_batch_size w idle
              (Unclashed-Keyed w.db.outbox c.unclashed),
          done,
        )
        (omega (
          arith,
          length-events_of run w reach,
          ap length ids,
          length-map (λ (r : ℕ × Verdict). r.0) (deliver_events http eps events w.requests).results,
          length-map (λ (e : OutboxEvent). e.id) events,
        ))

  -- Each run starts so late that all pending events are due, and meets no lock.
  unfoldable pub Patient : List Run → World → Type 0
  Patient [] w = Unit
  Patient (run ∷ runs) w =
      InReach run w.db.outbox × Patient runs (deliver_outbox_events_task tx http run w).1

  -- If every post is answered or fails with an error that is caught, then from a consistent outbox
  -- outside transactions, runs that each find all pending events due and unlocked, as many as there
  -- are attempts left, leave no event pending: each is delivered or has failed for good.
  pub runs_settle :
      (runs : List Run) (w : World)
      → Quiet w
      → IsConsistent w.db.outbox
      → Patient runs w
      → potential w.db.outbox ≤ length runs
      → count_pending (run_all tx http runs w).1.db.outbox ≡ 0
  unfolding run_all Patient
  runs_settle [] w q c patient le = omega (arith, pending-le-potential w.db.outbox c.valid)
  runs_settle (run ∷ runs) w q c patient le =
      let (q', c') = task-Good tx http run w (q, c) in
      let v = (deliver_outbox_events_task tx http run w).1 in
      let used = task_uses tx http run w (q, c) in
      let enough : potential v.db.outbox ≤ length runs =
        elim (Bool-cases (count_pending w.db.outbox == 0)) [
          | inl none ↦ omega (arith, none_pending w.db.outbox (ground arith), used)
          | inr some ↦
              let more : 0 < count_pending w.db.outbox = ground arith in
              omega (arith, more, task_processes run w q.0 c patient.0, used)
        ] in
      runs_settle runs v q' c' patient.1 enough
