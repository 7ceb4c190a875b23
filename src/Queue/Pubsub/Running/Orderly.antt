-- ===== src/Queue/Pubsub/Running/Orderly.antt =====
-- internal/queue/gcp-pubsub.go: when jobs are handed over, and what the wait group counts.
use gopherci.Common.{
  and_then, check, pure, wrap, lit, ℕ, zero, Option-cases, suc, ◌+◌, ◌≡◌, refl, inl, inr, Bool,
  true, false, not, List, [], ◌∷◌, Option, none, some, Bytes, Result, ok, err, panic, if◌then◌else◌,
  arith, Error,
}
use gopherci.Queue.Pubsub.{
  Service, PubsubCall, ack, process, publish, sleep, enqueue, on_message, attempts, processed,
  max_attempts,
}
use gopherci.Queue.Pubsub.Running.{
  PubsubRun, started, waiter_exit, receiver_exit, wait_job, deliver, Step, cancel, receive_job,
  receive_message, stop_waiter, stop_receiver, Reach, start, next,
}

abbrev count_true : Bool → ℕ
count_true b = if b then 1 else 0

abbrev pub StartsWithAck : List PubsubCall → Type 0
StartsWithAck (ack ∷ h) = Unit {0}
StartsWithAck _ = ⊥

-- Only acknowledgements and jobs handed over, and each of the latter right after one of the former.
abbrev pub AckedFirst : List PubsubCall → Type 0
AckedFirst [] = Unit {0}
AckedFirst (ack ∷ h) = AckedFirst h
AckedFirst (process job ∷ h) = StartsWithAck h × AckedFirst h
AckedFirst (_ ∷ h) = ⊥

-- Only publications and sleeps.
abbrev pub OnlyPublishes : List PubsubCall → Type 0
OnlyPublishes [] = Unit {0}
OnlyPublishes (publish msg ∷ h) = OnlyPublishes h
OnlyPublishes (sleep seconds ∷ h) = OnlyPublishes h
OnlyPublishes (_ ∷ h) = ⊥

pub record IsOrderly (q : PubsubRun) : Type 0 where
  pub acked : AckedFirst q.received
  pub published : OnlyPublishes q.pushed
  pub counted : q.wg ≡ count_true q.waiting + count_true q.receiving
  pub waits : q.done ≡ false → q.waiting ≡ true
  pub stopped : q.topic_stopped ≡ not q.waiting

module _ (service : Service) where
  attempts-OnlyPublishes :
      (msg : Bytes) (i left : ℕ) (last : Option Error) (h : List PubsubCall)
      → OnlyPublishes h
      → OnlyPublishes (attempts service msg i left last h).1
  unfolding attempts
  attempts-OnlyPublishes msg i zero last h p = p
  attempts-OnlyPublishes msg i (suc left) last h p =
      elim (Option-cases (service.publish_result h msg)) [
        | inl q ↦ rw q p
        | inr (x, q) ↦
            rw q (attempts-OnlyPublishes msg (i + 1) left (some x) (sleep i ∷ publish msg ∷ h) p)
      ]

  -- What follows the attempts makes no call.
  check_same :
      (r : Result (Option Error)) (f : Error → Error) (h : List PubsubCall)
      → (and_then r (λ e. check {B = Unit {0}} e f (pure tt)) h).1 ≡ h
  check_same (ok none) f h = refl
  check_same (ok (some e)) f h = refl
  check_same (err e) f h = refl
  check_same (panic text) f h = refl

  enqueue-OnlyPublishes :
      (job : Bytes) (h : List PubsubCall) (r : Result Bytes)
      → service.encode job ≡ r
      → OnlyPublishes h
      → OnlyPublishes (enqueue service job h).1
  unfolding enqueue
  enqueue-OnlyPublishes job h (ok msg) q p =
      let tried = attempts service msg 1 (max_attempts service) none h in
      rw (q, check_same tried.0 (λ x. wrap x (lit "could not publish job")) tried.1)
        (attempts-OnlyPublishes msg 1 (max_attempts service) none h p)
  enqueue-OnlyPublishes job h (err e) q p = rw q p
  enqueue-OnlyPublishes job h (panic text) q p = rw q p

  processed-AckedFirst :
      (r : Result Bytes) (h : List PubsubCall)
      → AckedFirst h
      → AckedFirst (processed service r (ack ∷ h)).1
  processed-AckedFirst (ok job) h p = (tt, p)
  processed-AckedFirst (err e) h p = p
  processed-AckedFirst (panic text) h p = p

  Step-IsOrderly : {q r : PubsubRun} → Step service q r → IsOrderly q → IsOrderly r
  unfolding wait_job deliver on_message waiter_exit receiver_exit
  Step-IsOrderly (cancel q) o = record {
    acked = o.acked;
    published = o.published;
    counted = o.counted;
    waits = λ p. absurd (cc p);
    stopped = o.stopped;
  }
  Step-IsOrderly (receive_job q job w) o = record {
    acked = o.acked;
    published = enqueue-OnlyPublishes job q.pushed (service.encode job) refl o.published;
    counted = o.counted;
    waits = o.waits;
    stopped = o.stopped;
  }
  Step-IsOrderly (receive_message q msg r) o = record {
    acked = processed-AckedFirst (service.decode msg) q.received o.acked;
    published = o.published;
    counted = o.counted;
    waits = o.waits;
    stopped = o.stopped;
  }
  Step-IsOrderly (stop_waiter q d w) o = record {
    acked = o.acked;
    published = o.published;
    counted = ground (arith, o.counted);
    waits = λ p. absurd (cc (d, p));
    stopped = refl;
  }
  Step-IsOrderly (stop_receiver q r) o = record {
    acked = o.acked;
    published = o.published;
    counted = ground (arith, o.counted);
    waits = o.waits;
    stopped = o.stopped;
  }

  -- In every reachable state: the receiver only acknowledges messages and hands jobs over, each job
  -- right after an acknowledgement of its own; the other goroutine only publishes and sleeps; the
  -- wait group counts the goroutines that run; jobs are taken as long as the context is not done,
  -- and the topic is stopped exactly when no more are taken.
  pub Reach-IsOrderly : {q : PubsubRun} → Reach service q → IsOrderly q
  unfolding started
  Reach-IsOrderly start = record {
    acked = tt;
    published = tt;
    counted = refl;
    waits = λ _. refl;
    stopped = refl;
  }
  Reach-IsOrderly (next r s) = Step-IsOrderly s (Reach-IsOrderly r)
