-- ===== src/Tests/Queue.antt =====
-- internal/queue on a few jobs.
use gopherci.Common.{
  ◌⊎◌, ℕ, ◌≡◌, refl, List, [], ◌∷◌, ◌++◌, Option, none, some, Bytes, lit, ok, err, wrap, Error,
  message,
}
use gopherci.Queue.Memory.{Reach, started, push, tick, start, next, receive_job, poll}
use gopherci.Queue.Memory.Order.{ticks-push_all, ticks, push_all}
use gopherci.Queue.Memory.Conservation.{Reach-IsExact, IsExact}
use gopherci.Queue.Memory.Bag.{Reach-Serves, Event, Serves, Traces}
use gopherci.Queue.Pubsub.Running as Running
use gopherci.Queue.Pubsub.Running.{started as wait_started, deliver, receive_message}
use gopherci.Queue.Pubsub.Running.Orderly.{Reach-IsOrderly, IsOrderly}
use mathlib.Mathlib.Data.Multiset.Defs.{of_list}
use gopherci.Queue.Pubsub.{Service, PubsubCall, code_ok, enqueue}
use gopherci.Queue.Pubsub.Publish.{enqueue_outcome, Accepted, Refused}

-- Two jobs came in and one was handled.
Reach-IsExact_example : IsExact (tick (push 2 (push 1 (started {A = ℕ}))))
unfolding started push
Reach-IsExact_example =
    Reach-IsExact {q = tick (push 2 (push 1 started))}
      (next (next (next start (receive_job _ 1 refl)) (receive_job _ 2 refl)) (poll _ refl))

abbrev run : Reach (tick (push 2 (push 1 (started {A = ℕ}))))
unfolding started push
run = next (next (next start (receive_job _ 1 refl)) (receive_job _ 2 refl)) (poll _ refl)

Reach-Serves_example :
    (events : List (Event ℕ)) × Traces run events
    × Serves events (of_list (tick (push 2 (push 1 (started {A = ℕ})))).queue)
Reach-Serves_example = Reach-Serves run

ticks-push_all_example :
    let q = push 1 (started {A = ℕ}) in
    let r = ticks {A = ℕ} 2 (push_all (3 ∷ 4 ∷ []) q) in
    (r.handled ≡ (3 ∷ 4 ∷ []) ++ q.handled) × (r.queue ≡ q.queue)
ticks-push_all_example = ticks-push_all (3 ∷ 4 ∷ []) (push 1 started)

-- A service that refuses the first message.
abbrev service : Service
service = record {
  client = λ h. none;
  topic = λ h name. (code_ok, message []);
  subscription = λ h name. (code_ok, message []);
  publish_result = λ h msg. refused h;
  encode = λ job. ok job;
  decode = λ msg. ok msg;
  subscriptions = [];
  deleted = λ h. none;
}
  where
    refused : List PubsubCall → Option Error
    refused [] = some (message [])
    refused (_ ∷ _) = none

abbrev job : Bytes
job = 1 ∷ []

enqueue_outcome_example :
    ((enqueue service job []).0 ≡ ok tt × Accepted service job [] (enqueue service job []).1)
    ⊎ ((e : Error) × ((enqueue service job []).0 ≡ err (wrap e (lit "could not publish job")))
        × Refused service job e [] (enqueue service job []).1)
enqueue_outcome_example = enqueue_outcome service job job [] refl

Reach-IsOrderly_example : IsOrderly (deliver service job wait_started)
unfolding wait_started
Reach-IsOrderly_example =
    Reach-IsOrderly service {q = deliver service job wait_started}
      (Running.next Running.start (receive_message _ job refl))
