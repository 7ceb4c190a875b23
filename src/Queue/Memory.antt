-- ===== src/Queue/Memory.antt =====
-- internal/queue/memory.go. `Wait` starts two goroutines that share the queue; here they are a
-- step relation, in which the schedule and the random choice of `select` are left open. The
-- receiver alone makes the queue shorter, so its test of the length and its locked removal are
-- one step.
pub mod Order
pub mod Conservation
pub mod Bag
use gopherci.Common.{
  ℕ, zero, suc, ◌+◌, ◌-◌, ◌≡◌, Bool, true, false, List, [], ◌∷◌, ◌++◌, Option, none, some,
}

module _ {A : Type 0} where
  -- `q.queue[len(q.queue)-1], q.queue[:len(q.queue)-1]`, if the queue is not empty.
  unfoldable pub pop : List A → Option (A × List A)
  pop [] = none
  pop (x ∷ xs) = after (pop xs)
    where
      after : Option (A × List A) → Option (A × List A)
      after none = some (x, [])
      after (some (last, init)) = some (last, x ∷ init)

-- The queue, the jobs that came in and those that `f` was called with, newest first; whether the
-- context is done, which goroutines still run, and the wait group's counter.
pub record MemoryQueue (A : Type 0) : Type 0 where
  pub queue : List A
  pub accepted : List A
  pub handled : List A
  pub done : Bool
  pub waiting : Bool
  pub receiving : Bool
  pub wg : ℕ

module _ {A : Type 0} where
  -- `NewMemoryQueue`, and then `Wait` with an unused wait group.
  unfoldable pub started : MemoryQueue A
  started = record {
    queue = [];
    accepted = [];
    handled = [];
    done = false;
    waiting = true;
    receiving = true;
    wg = 2;
  }

  -- `case job := <-queuePush`
  unfoldable pub push : A → MemoryQueue A → MemoryQueue A
  push job q = record q { queue = q.queue ++ (job ∷ []); accepted = job ∷ q.accepted }

  abbrev taken : MemoryQueue A → Option (A × List A) → MemoryQueue A
  taken q none = q
  taken q (some (job, rest)) = record q { queue = rest; handled = job ∷ q.handled }

  -- `case <-ticker.C`, the call of `f` included.
  unfoldable pub tick : MemoryQueue A → MemoryQueue A
  unfolding pop
  tick q = taken q (pop q.queue)

  -- `case <-ctx.Done()` of either goroutine.
  unfoldable pub waiter_exit : MemoryQueue A → MemoryQueue A
  waiter_exit q = record q { waiting = false; wg = q.wg - 1 }

  unfoldable pub receiver_exit : MemoryQueue A → MemoryQueue A
  receiver_exit q = record q { receiving = false; wg = q.wg - 1 }

  pub data Step : MemoryQueue A → MemoryQueue A → Type 0 where
    cancel : (q : MemoryQueue A) → Step q (record q { done = true })
    receive_job : (q : MemoryQueue A) (job : A) → q.waiting ≡ true → Step q (push job q)
    poll : (q : MemoryQueue A) → q.receiving ≡ true → Step q (tick q)
    stop_waiter : (q : MemoryQueue A) → q.done ≡ true → q.waiting ≡ true → Step q (waiter_exit q)
    stop_receiver :
        (q : MemoryQueue A) → q.done ≡ true → q.receiving ≡ true → Step q (receiver_exit q)

  pub data Reach : MemoryQueue A → Type 0 where
    start : Reach started
    next : {q r : MemoryQueue A} → Reach q → Step q r → Reach r
