-- ===== src/Queue/Memory/Order.antt =====
-- internal/queue/memory.go: which job a poll hands out.
use gopherci.Common.{ℕ, zero, suc, ◌≡◌, ◌∙◌, refl, ap, List, [], ◌∷◌, ◌++◌, some, length}
use gopherci.Queue.Memory.{MemoryQueue, pop, push, tick}

module _ {A : Type 0} where
  -- A pop takes off what was appended last.
  pub pop-append : (xs : List A) (x : A) → pop (xs ++ (x ∷ [])) ≡ some (x, xs)
  unfolding pop
  pop-append [] x = refl
  pop-append (y ∷ xs) x = rw (pop-append xs x) refl

  abbrev pub push_all : List A → MemoryQueue A → MemoryQueue A
  push_all [] q = q
  push_all (job ∷ jobs) q = push_all jobs (push job q)

  abbrev pub ticks : ℕ → MemoryQueue A → MemoryQueue A
  ticks zero q = q
  ticks (suc n) q = ticks n (tick q)

  ticks-suc : (n : ℕ) (q : MemoryQueue A) → ticks (suc n) q ≡ tick (ticks n q)
  ticks-suc zero q = refl
  ticks-suc (suc n) q = ticks-suc n (tick q)

  tick_last :
      (q : MemoryQueue A) (rest : List A) (job : A)
      → q.queue ≡ rest ++ (job ∷ [])
      → ((tick q).handled ≡ job ∷ q.handled) × ((tick q).queue ≡ rest)
  unfolding tick
  tick_last q rest job e =
      let popped : pop q.queue ≡ some (job, rest) = ap pop e ∙ pop-append rest job in
      (rw popped refl, rw popped refl)

  -- After jobs came in, as many polls call `f` with exactly these jobs, the last one first, and
  -- leave the jobs queued before them where they were: the newest job is always served first.
  pub ticks-push_all :
      (jobs : List A) (q : MemoryQueue A)
      → let r = ticks (length jobs) (push_all jobs q) in
        (r.handled ≡ jobs ++ q.handled) × (r.queue ≡ q.queue)
  unfolding push
  ticks-push_all [] q = (refl, refl)
  ticks-push_all (job ∷ jobs) q =
      let (handled, queue) = ticks-push_all jobs (push job q) in
      let r = ticks (length jobs) (push_all jobs (push job q)) in
      let (served, left) = tick_last r q.queue job queue in
      rw (ticks-suc (length jobs) (push_all jobs (push job q)))
        (served ∙ ap (λ l. job ∷ l) handled, left)
