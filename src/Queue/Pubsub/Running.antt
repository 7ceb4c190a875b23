-- ===== src/Queue/Pubsub/Running.antt =====
-- internal/queue/gcp-pubsub.go: `Wait` and `receive`. The two goroutines share no calls, so each has
-- a history of its own; the schedule, and when `Receive` returns, are left open.
pub mod Orderly
use gopherci.Common.{
  and_then, check, pure, wrap, lit, ℕ, zero, Option-cases, suc, ◌+◌, ◌-◌, ◌≡◌, ◌≤◌, refl, inl, inr,
  Bool, true, false, not, Bool-cases, List, [], ◌∷◌, Option, none, some, Bytes, Result, ok, err,
  panic, if◌then◌else◌, arith, Error,
}
use gopherci.Queue.Pubsub.{
  Service, PubsubCall, ack, process, publish, sleep, enqueue, on_message, attempts, processed,
  max_attempts,
}

-- The calls of either goroutine, newest first; whether the context is done, which goroutines run,
-- whether the topic was stopped, and the wait group's counter.
pub record PubsubRun : Type 0 where
  pub pushed : List PubsubCall
  pub received : List PubsubCall
  pub done : Bool
  pub waiting : Bool
  pub receiving : Bool
  pub topic_stopped : Bool
  pub wg : ℕ

-- `Wait` with an unused wait group.
unfoldable pub started : PubsubRun
started = record {
  pushed = [];
  received = [];
  done = false;
  waiting = true;
  receiving = true;
  topic_stopped = false;
  wg = 2;
}

-- `case <-ctx.Done()`
unfoldable pub waiter_exit : PubsubRun → PubsubRun
waiter_exit q = record q { waiting = false; topic_stopped = true; wg = q.wg - 1 }

-- `receive` returned: the context is done, or `Receive` failed, which is only logged.
unfoldable pub receiver_exit : PubsubRun → PubsubRun
receiver_exit q = record q { receiving = false; wg = q.wg - 1 }

module _ (service : Service) where
  -- `case job := <-queuePush`; an error is only logged.
  unfoldable pub wait_job : Bytes → PubsubRun → PubsubRun
  wait_job job q = record q { pushed = (enqueue service job q.pushed).1 }

  -- A message comes in.
  unfoldable pub deliver : Bytes → PubsubRun → PubsubRun
  deliver msg q = record q { received = (on_message service msg q.received).1 }

  pub data Step : PubsubRun → PubsubRun → Type 0 where
    cancel : (q : PubsubRun) → Step q (record q { done = true })
    receive_job : (q : PubsubRun) (job : Bytes) → q.waiting ≡ true → Step q (wait_job job q)
    receive_message : (q : PubsubRun) (msg : Bytes) → q.receiving ≡ true → Step q (deliver msg q)
    stop_waiter : (q : PubsubRun) → q.done ≡ true → q.waiting ≡ true → Step q (waiter_exit q)
    stop_receiver : (q : PubsubRun) → q.receiving ≡ true → Step q (receiver_exit q)

  pub data Reach : PubsubRun → Type 0 where
    start : Reach started
    next : {q r : PubsubRun} → Reach q → Step q r → Reach r
