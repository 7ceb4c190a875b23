-- ===== src/Main/System/Sound.antt =====
-- main.go: which events reach the job processor.
use mathlib.Core.Path.{subst}
use gopherci.Common.{
  ℕ, ◌-◌, ◌≡◌, ◌∙◌, refl, ap, inl, inr, List, [], ◌∷◌, ◌++◌, Option, none, some, Bytes, length,
  take, All, arith, IsQuiet, >>=-quiet, try, pure, true,
}
use gopherci.Github.{
  Config, World, Call, History, Event, queue_push, push_event, pull_request_event,
  installation_event, other_event,
}
use gopherci.Github.Jobs.{AnalyseConfig, push_config, pull_request_config}
use gopherci.Github.Webhook.{webhook}
use gopherci.Github.Webhook.Queued.{jobs}
use gopherci.Github.Webhook.Sent.{IsFit, Sends, webhook-Sends}
use gopherci.Github.Analyse.{recorded_executer, analyse}
use gopherci.Github.Analyse.Background.{Background}
use gopherci.Github.Analyse.Kept.{analyse-Quiet}
use gopherci.Queue.Memory as Memory
use gopherci.Queue.Memory.{MemoryQueue, pop, started, push, tick, waiter_exit, receiver_exit}
use gopherci.Queue.Memory.Conservation.{Reach-IsExact, IsExact, pop_cases}
use gopherci.Main.{process, job_error}
use gopherci.Main.System.{
  System, fresh, sent, push_each, serve_request, processed, work, Step, request, poll, cancel,
  stop_waiter, stop_receiver, Reach, start, next,
}

-- The events that were sent are those that the queue accepted; the queue keeps them as it should;
-- and only fit ones are queued, or were handed to the processor.
pub record IsSound (s : System) : Type 0 where
  pub received : jobs s.history ≡ s.queue.accepted
  pub exact : IsExact s.queue
  pub queued : All IsFit s.queue.queue
  pub handled : All IsFit s.queue.handled

module _ (config : Config) (world : World) where
  jobs-Background : (c : Call) → Background c → (h : History) → jobs (c ∷ h) ≡ jobs h
  jobs-Background (queue_push e) b h = absurd b
  jobs-Background _ b h = refl

  execute-Quiet :
      (id : ℕ) (args : List Bytes) → IsQuiet jobs ((recorded_executer config world id).execute args)
  unfolding recorded_executer
  execute-Quiet id args h = refl

  analyse-keeps : (cfg : AnalyseConfig) → IsQuiet jobs (analyse config world cfg)
  analyse-keeps =
      analyse-Quiet jobs config world jobs-Background execute-Quiet (λ _ _. refl) (λ _. refl)

  -- The processor queues nothing.
  jobs-process :
      (type_name url : Bytes) (e : Event) (h : History)
      → jobs (process config world type_name url e h).1 ≡ jobs h
  unfolding process
  jobs-process type_name url (push_event e) h =
      >>=-quiet jobs (try (analyse config world (push_config e)))
        (λ x. pure (job_error url (push_event e) x)) h (analyse-keeps (push_config e) h)
        (λ _ _. refl)
  jobs-process type_name url (pull_request_event e) h =
      >>=-quiet jobs (try (analyse config world (pull_request_config e)))
        (λ x. pure (job_error url (pull_request_event e) x)) h
        (analyse-keeps (pull_request_config e) h) (λ _ _. refl)
  jobs-process type_name url (installation_event e) h = refl
  jobs-process type_name url other_event h = refl

  jobs-processed :
      (type_name url : Bytes) (o : Option (Event × List Event)) (h : History)
      → jobs (processed config world type_name url o h) ≡ jobs h
  jobs-processed type_name url none h = refl
  jobs-processed type_name url (some (job, rest)) h = jobs-process type_name url job h

  -- The queue of the system is a run of the memory queue.
  push_each-Reach :
      (events : List Event) (q : MemoryQueue Event)
      → Memory.Reach q
      → q.waiting ≡ true
      → Memory.Reach (push_each events q) × ((push_each events q).waiting ≡ true)
  unfolding push
  push_each-Reach [] q r w = (r, w)
  push_each-Reach (e ∷ events) q r w =
      let (r', w') = push_each-Reach events q r w in
      (Memory.next r' (Memory.receive_job (push_each events q) e w'), w')

  queue-Reach : {s : System} → Reach config world s → Memory.Reach s.queue
  unfolding fresh serve_request work
  queue-Reach start = Memory.start
  queue-Reach (next r (request s fuel payload parse w)) =
      (push_each-Reach _ s.queue (queue-Reach r) w).0
  queue-Reach (next r (poll s type_name url w)) =
      Memory.next (queue-Reach r) (Memory.poll s.queue w)
  queue-Reach (next r (cancel s)) = Memory.next (queue-Reach r) (Memory.cancel s.queue)
  queue-Reach (next r (stop_waiter s d w)) =
      Memory.next (queue-Reach r) (Memory.stop_waiter s.queue d w)
  queue-Reach (next r (stop_receiver s d w)) =
      Memory.next (queue-Reach r) (Memory.stop_receiver s.queue d w)

-- What is left to keep.
record Kept (s : System) : Type 0 where
  pub received : jobs s.history ≡ s.queue.accepted
  pub queued : All IsFit s.queue.queue
  pub handled : All IsFit s.queue.handled

All-snoc :
    {A : Type 0} (P : A → Type 0) (xs : List A) (x : A) → All P xs → P x → All P (xs ++ (x ∷ []))
All-snoc P [] x all p = (p, tt)
All-snoc P (y ∷ xs) x (q, all) p = (q, All-snoc P xs x all p)

All-init :
    {A : Type 0} (P : A → Type 0) (xs : List A) (x : A) → All P (xs ++ (x ∷ [])) → All P xs × P x
All-init P [] x (p, _) = (tt, p)
All-init P (y ∷ xs) x (q, all) = let (rest, p) = All-init P xs x all in ((q, rest), p)

module _ (config : Config) (world : World) where
  sent-same : (h h' : History) → jobs h' ≡ jobs h → sent h h' ≡ []
  sent-same h h' q =
      let none_more : length (jobs h') - length (jobs h) ≡ 0 =
        ap (λ l. length l - length (jobs h)) q ∙ omega arith in
      rw none_more refl

  sent-one : (h h' : History) (e : Event) → jobs h' ≡ e ∷ jobs h → sent h h' ≡ e ∷ []
  sent-one h h' e q =
      let one_more : length (jobs h') - length (jobs h) ≡ 1 =
        ap (λ l. length l - length (jobs h)) q ∙ omega arith in
      rw one_more (ap (take 1) q)

  request-Kept :
      (s : System) (h : History)
      → Sends (jobs s.history) h
      → Kept s
      → Kept (record { history = h; queue = push_each (sent s.history h) s.queue })
  unfolding push
  request-Kept s h (inl q) k =
      rw (sent-same s.history h q)
        (record { received = q ∙ k.received; queued = k.queued; handled = k.handled })
  request-Kept s h (inr (e, fit, q)) k = rw (sent-one s.history h e q) (record {
    received = q ∙ ap (λ l. e ∷ l) k.received;
    queued = All-snoc IsFit s.queue.queue e k.queued fit;
    handled = k.handled;
  })

  work-Kept :
      (type_name url : Bytes) (s : System) → Kept s → Kept (work config world type_name url s)
  unfolding work tick pop
  work-Kept type_name url s k = elim (pop_cases s.queue.queue) [
    | inl e ↦ let empty : pop s.queue.queue ≡ none = ap pop e in rw empty k
    | inr (last, init, p, e) ↦
        let (left, fit) = All-init IsFit init last (subst (All IsFit) e k.queued) in
        rw p (record {
          received = jobs-process config world type_name url last s.history ∙ k.received;
          queued = left;
          handled = (fit, k.handled);
        })
  ]

  Step-Kept : {s t : System} → Step config world s t → Kept s → Kept t
  unfolding serve_request waiter_exit receiver_exit
  Step-Kept (request s fuel payload parse w) k =
      request-Kept s (webhook config world fuel payload parse s.history).1
        (webhook-Sends config world fuel payload parse s.history) k
  Step-Kept (poll s type_name url w) k = work-Kept type_name url s k
  Step-Kept (cancel s) k = record { received = k.received; queued = k.queued; handled = k.handled }
  Step-Kept (stop_waiter s d w) k = record {
    received = k.received;
    queued = k.queued;
    handled = k.handled;
  }
  Step-Kept (stop_receiver s d w) k = record {
    received = k.received;
    queued = k.queued;
    handled = k.handled;
  }

  Reach-Kept : {s : System} → Reach config world s → Kept s
  unfolding fresh started
  Reach-Kept start = record { received = refl; queued = tt; handled = tt }
  Reach-Kept (next r step) = Step-Kept step (Reach-Kept r)

  -- In every state that requests, polls and the end of the context can lead to: the events that the
  -- handler sent are those that the queue accepted, in the same order; queued and handled ones are
  -- together the accepted ones, as often; and every event that is queued or was handed to the
  -- processor is a push with a commit that modified, added or removed .gopherci.yml or a file whose
  -- name ends in .go, or a pull request with one of the three actions, and has public repositories
  -- only.
  pub Reach-IsSound : {s : System} → Reach config world s → IsSound s
  Reach-IsSound r =
      let k = Reach-Kept r in
      record {
        received = k.received;
        exact = Reach-IsExact (queue-Reach config world r);
        queued = k.queued;
        handled = k.handled;
      }
