-- ===== src/Queue/Memory/Bag.antt =====
-- internal/queue/memory.go: the queue as a bag, which forgets the order of the jobs.
use mathlib.Core.Path.{subst}
use mathlib.Core.List.{perm_append_singleton}
use mathlib.Core.Quot.{sound}
use mathlib.Mathlib.Data.Multiset.Defs.{Multiset, of_list}
use mathlib.Mathlib.Data.Multiset.ZeroCons.{cons}
use gopherci.Common.{
  ◌≡◌, ◌∙◌, sym, refl, ap, inl, inr, List, [], ◌∷◌, Option, Option-cases, none, some,
}
use gopherci.Queue.Memory.{
  MemoryQueue, pop, started, push, tick, waiter_exit, receiver_exit, cancel, receive_job, poll,
  stop_waiter, stop_receiver, Reach, start, next,
}
use gopherci.Queue.Memory.Conservation.{pop_cases}

-- What is seen of a queue from outside.
pub data Event (A : Type 0) : Type 0 where
  accepts : A → Event A
  handles : A → Event A

-- A job pool: it is a bag of jobs, takes any job, and hands out jobs that are in it. Events are
-- newest first.
pub data Serves {A : Type 0} : List (Event A) → Multiset A → Type 0 where
  idle : Serves [] (of_list [])
  accept_one :
      {events : List (Event A)} {b : Multiset A} (job : A)
      → Serves events b
      → Serves (accepts job ∷ events) (cons job b)
  handle_one :
      {events : List (Event A)} {b : Multiset A} (job : A)
      → Serves events (cons job b)
      → Serves (handles job ∷ events) b

module _ {A : Type 0} where
  abbrev popped : Option (A × List A) → List (Event A) → List (Event A)
  popped none events = events
  popped (some (job, _)) events = handles job ∷ events

  -- The events of a run; a poll of an empty queue is none.
  abbrev pub events_of : {q : MemoryQueue A} → Reach q → List (Event A)
  events_of start = []
  events_of (next r (cancel q)) = events_of r
  events_of (next r (receive_job q job w)) = accepts job ∷ events_of r
  events_of (next r (poll q e)) = popped (pop q.queue) (events_of r)
  events_of (next r (stop_waiter q d w)) = events_of r
  events_of (next r (stop_receiver q d e)) = events_of r

  tick-Serves :
      (q : MemoryQueue A) (events : List (Event A))
      → Serves events (of_list q.queue)
      → Serves (popped (pop q.queue) events) (of_list (tick q).queue)
  unfolding tick pop
  tick-Serves q events serves = elim (pop_cases q.queue) [
    | inl e ↦ let empty : pop q.queue ≡ none = ap pop e in rw empty serves
    | inr (last, init, p, e) ↦ rw p (
        handle_one last
          (subst (Serves events) (ap of_list e ∙ sound (perm_append_singleton last init)) serves))
  ]

  events_of-Serves : {q : MemoryQueue A} (r : Reach q) → Serves (events_of r) (of_list q.queue)
  unfolding push waiter_exit receiver_exit started
  events_of-Serves start = idle
  events_of-Serves (next r (cancel q)) = events_of-Serves r
  events_of-Serves (next r (receive_job q job w)) =
      subst (Serves (accepts job ∷ events_of r)) (sym (sound (perm_append_singleton job q.queue)))
        (accept_one job (events_of-Serves r))
  events_of-Serves (next r (poll q e)) = tick-Serves q (events_of r) (events_of-Serves r)
  events_of-Serves (next r (stop_waiter q d w)) = events_of-Serves r
  events_of-Serves (next r (stop_receiver q d e)) = events_of-Serves r

  -- What one step shows: that it accepted a job, that it handled one, or neither.
  abbrev pub Emits : MemoryQueue A → MemoryQueue A → Option (Event A) → Type 0
  Emits q q' none = (q'.accepted ≡ q.accepted) × (q'.handled ≡ q.handled)
  Emits q q' (some (accepts job)) = (q'.accepted ≡ job ∷ q.accepted) × (q'.handled ≡ q.handled)
  Emits q q' (some (handles job)) = (q'.accepted ≡ q.accepted) × (q'.handled ≡ job ∷ q.handled)

  abbrev pub followed : Option (Event A) → List (Event A) → List (Event A)
  followed none events = events
  followed (some event) events = event ∷ events

  -- The events that the steps of a run show, one after another.
  abbrev pub Traces : {q : MemoryQueue A} → Reach q → List (Event A) → Type 0
  Traces start events = events ≡ []
  Traces (next {q} {r} reach step) events =
      (event : Option (Event A)) × (earlier : List (Event A)) × Traces reach earlier
      × Emits q r event
      × (events ≡ followed event earlier)

  tick-Traces :
      (q : MemoryQueue A) (r : Reach q) (earlier : List (Event A))
      → Traces r earlier
      → (event : Option (Event A)) × (before : List (Event A)) × Traces r before
        × Emits q (tick q) event
        × (popped (pop q.queue) earlier ≡ followed event before)
  unfolding tick
  tick-Traces q r earlier traces = elim (Option-cases (pop q.queue)) [
    | inl p ↦ rw p (none, earlier, traces, (refl, refl), refl)
    | inr ((job, rest), p) ↦ rw p (some (handles job), earlier, traces, (refl, refl), refl)
  ]

  Traces-events_of : {q : MemoryQueue A} (r : Reach q) → Traces r (events_of r)
  unfolding push waiter_exit receiver_exit started
  Traces-events_of start = refl
  Traces-events_of (next r (cancel q)) = (none, events_of r, Traces-events_of r, (refl, refl), refl)
  Traces-events_of (next r (receive_job q job w)) =
      (some (accepts job), events_of r, Traces-events_of r, (refl, refl), refl)
  Traces-events_of (next r (poll q e)) = tick-Traces q r (events_of r) (Traces-events_of r)
  Traces-events_of (next r (stop_waiter q d w)) =
      (none, events_of r, Traces-events_of r, (refl, refl), refl)
  Traces-events_of (next r (stop_receiver q d e)) =
      (none, events_of r, Traces-events_of r, (refl, refl), refl)

  -- The queue refines a job pool, which is a bag of jobs, takes any job, and hands out one that is
  -- in it: for every run of the queue, the jobs that its steps accept and handle, in just the order
  -- of these steps, are a run of the pool, which then has the jobs that the queue has.
  pub Reach-Serves :
      {q : MemoryQueue A} (run : Reach q)
      → (events : List (Event A)) × Traces run events × Serves events (of_list q.queue)
  Reach-Serves run = (events_of run, Traces-events_of run, events_of-Serves run)
