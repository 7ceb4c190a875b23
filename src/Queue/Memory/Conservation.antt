-- ===== src/Queue/Memory/Conservation.antt =====
-- internal/queue/memory.go: where the jobs are, and what the wait group counts.
use mathlib.Core.List.{Perm, perm_middle, append_assoc}
use mathlib.Core.List.Perm
use mathlib.Core.Path.{subst}
use gopherci.Common.{
  inl, inr, ap, ◌⊎◌, Option-cases, ℕ, ◌+◌, ◌≡◌, refl, Bool, true, false, List, [], ◌∷◌, ◌++◌, none,
  some, arith, if◌then◌else◌,
}
use gopherci.Queue.Memory.{
  MemoryQueue, pop, started, push, tick, waiter_exit, receiver_exit, Step, cancel, receive_job,
  poll, stop_waiter, stop_receiver, Reach, start, next,
}

abbrev count_true : Bool → ℕ
count_true b = if b then 1 else 0

-- Queued and handled jobs together are the accepted ones, each as often; the wait group counts
-- the goroutines that run; one of them has stopped only if the context is done.
pub record IsExact {A : Type 0} (q : MemoryQueue A) : Type 0 where
  pub conserved : Perm (q.queue ++ q.handled) q.accepted
  pub counted : q.wg ≡ count_true q.waiting + count_true q.receiving
  pub waits : q.done ≡ false → (q.waiting ≡ true) × (q.receiving ≡ true)

module _ {A : Type 0} where
  -- A pop of a queue that is not empty splits off its last element.
  pub pop_cases :
      (xs : List A)
      → (xs ≡ [])
        ⊎ ((last : A) × (init : List A) × (pop xs ≡ some (last, init)) × (xs ≡ init ++ (last ∷ [])))
  unfolding pop
  pop_cases [] = inl refl
  pop_cases (x ∷ xs) = elim (pop_cases xs) [
    | inl e ↦ inr (x, [], rw e refl, rw e refl)
    | inr (last, init, p, e) ↦ inr (last, x ∷ init, rw p refl, ap (λ l. x ∷ l) e)
  ]

  tick-conserved :
      (q : MemoryQueue A)
      → Perm (q.queue ++ q.handled) q.accepted
      → Perm ((tick q).queue ++ (tick q).handled) q.accepted
  unfolding tick pop
  tick-conserved q p = elim (pop_cases q.queue) [
    | inl e ↦ let empty : pop q.queue ≡ none = ap pop e in rw empty p
    | inr (last, init, popped, e) ↦
        rw popped
          (rw append_assoc at (subst (λ (l : List A). Perm (l ++ q.handled) q.accepted) e p))
  ]

  tick-IsExact : (q : MemoryQueue A) → IsExact q → IsExact (tick q)
  unfolding tick
  tick-IsExact q e = elim (Option-cases (pop q.queue)) [
    | inl p ↦ rw p e
    | inr ((last, init), p) ↦ rw p (record {
      conserved = rw p at (tick-conserved q e.conserved);
      counted = e.counted;
      waits = e.waits;
    })
  ]

  Step-IsExact : {q r : MemoryQueue A} → Step q r → IsExact q → IsExact r
  unfolding push waiter_exit receiver_exit
  Step-IsExact (cancel q) e = record {
    conserved = e.conserved;
    counted = e.counted;
    waits = λ p. absurd (cc p);
  }
  Step-IsExact (receive_job q job w) e = record {
    conserved =
        rw append_assoc (Perm.trans (perm_middle q.queue q.handled) (Perm.cons job e.conserved));
    counted = e.counted;
    waits = e.waits;
  }
  Step-IsExact (poll q r) e = tick-IsExact q e
  Step-IsExact (stop_waiter q d w) e = record {
    conserved = e.conserved;
    counted = ground (arith, e.counted);
    waits = λ p. absurd (cc (d, p));
  }
  Step-IsExact (stop_receiver q d r) e = record {
    conserved = e.conserved;
    counted = ground (arith, e.counted);
    waits = λ p. absurd (cc (d, p));
  }

  -- In every reachable state the jobs in the queue and the jobs handled are together the jobs
  -- that were accepted, none lost and none twice; the wait group's counter is the number of
  -- goroutines that still run; and neither stops before the context is done.
  pub Reach-IsExact : {q : MemoryQueue A} → Reach q → IsExact q
  unfolding started
  Reach-IsExact start = record {
    conserved = Perm.refl [];
    counted = refl;
    waits = λ _. (refl, refl);
  }
  Reach-IsExact (next r s) = Step-IsExact s (Reach-IsExact r)
