-- ===== src/Main/System.antt =====
-- main.go: the parts that `main` puts together, with QUEUER=memory: the webhook handler, the memory
-- queue and the job processor. A request and a job are one step each; their order is open. The
-- channel between the handler and the queue has no buffer, so a job that is sent is received.
pub mod Sound
use gopherci.Common.{
  ℕ, ◌-◌, ◌≡◌, true, List, [], ◌∷◌, Option, none, some, Bytes, Result, length, take,
}
use gopherci.Github.{Config, World, History, Event}
use gopherci.Github.Webhook.{webhook}
use gopherci.Github.Webhook.Queued.{jobs}
use gopherci.Queue.Memory.{MemoryQueue, started, push, pop, tick, waiter_exit, receiver_exit}
use gopherci.Main.{process}

pub record System : Type 0 where
  pub history : History
  pub queue : MemoryQueue Event

-- `queuePush` and the memory queue before the first request.
unfoldable pub fresh : System
fresh = record { history = []; queue = started }

-- The events that a request sent, newest first.
abbrev pub sent : (before after : History) → List Event
sent before after = take (length (jobs after) - length (jobs before)) (jobs after)

abbrev pub push_each : List Event → MemoryQueue Event → MemoryQueue Event
push_each [] q = q
push_each (e ∷ events) q = push e (push_each events q)

module _ (config : Config) (world : World) where
  -- `WebHookHandler`, and the queue's receiving of what it sends.
  unfoldable pub serve_request :
      ℕ → (payload : Result Bytes) → (parse : Bytes → Result Event) → System → System
  serve_request fuel payload parse s =
      let after = (webhook config world fuel payload parse s.history).1 in
      record { history = after; queue = push_each (sent s.history after) s.queue }

  abbrev pub processed : (type_name url : Bytes) → Option (Event × List Event) → History → History
  processed type_name url none h = h
  processed type_name url (some (job, rest)) h = (process config world type_name url job h).1

  -- A poll of the queue, which calls `Process` with the job that it takes.
  unfoldable pub work : (type_name url : Bytes) → System → System
  unfolding tick pop process
  work type_name url s = record {
    history = processed type_name url (pop s.queue.queue) s.history;
    queue = tick s.queue;
  }

  pub data Step : System → System → Type 0 where
    request :
        (s : System) (fuel : ℕ) (payload : Result Bytes) (parse : Bytes → Result Event)
        → s.queue.waiting ≡ true
        → Step s (serve_request fuel payload parse s)
    poll :
        (s : System) (type_name url : Bytes)
        → s.queue.receiving ≡ true
        → Step s (work type_name url s)
    cancel : (s : System) → Step s (record s { queue = record s.queue { done = true } })
    stop_waiter :
        (s : System)
        → s.queue.done ≡ true
        → s.queue.waiting ≡ true
        → Step s (record s { queue = waiter_exit s.queue })
    stop_receiver :
        (s : System)
        → s.queue.done ≡ true
        → s.queue.receiving ≡ true
        → Step s (record s { queue = receiver_exit s.queue })

  pub data Reach : System → Type 0 where
    start : Reach fresh
    next : {s t : System} → Reach s → Step s t → Reach t
