-- ===== src/Queue/Pubsub/Publish.antt =====
-- internal/queue/gcp-pubsub.go: how often a job is published, and with what result.
use gopherci.Common.{
  ℕ, ◌+◌, ◌≤◌, ◌≡◌, ◌⊎◌, inl, inr, refl, List, [], ◌∷◌, none, some, Bytes, lit, ok, err, Error,
  wrap, arith, Option-cases,
}
use gopherci.Queue.Pubsub.{Service, PubsubCall, publish, sleep, enqueue}

-- The messages published in a history, and the seconds slept.
abbrev pub published : List PubsubCall → ℕ
published [] = 0
published (publish _ ∷ h) = published h + 1
published (_ ∷ h) = published h

abbrev pub slept : List PubsubCall → ℕ
slept [] = 0
slept (sleep n ∷ h) = slept h + n
slept (_ ∷ h) = slept h

-- The job was accepted by the last call, within three attempts and three seconds of waiting.
abbrev pub Accepted : Service → Bytes → List PubsubCall → List PubsubCall → Type 0
Accepted service msg before after =
    (h : List PubsubCall) × (after ≡ publish msg ∷ h)
    × (service.publish_result h msg ≡ none)
    × (published after ≤ published before + 3)
    × (slept after ≤ slept before + 3)

-- The service refused the job with this error in the last call before the last sleep, after exactly
-- three attempts and six seconds.
abbrev pub Refused : Service → Bytes → Error → List PubsubCall → List PubsubCall → Type 0
Refused service msg e before after =
    (h : List PubsubCall) × (seconds : ℕ) × (after ≡ sleep seconds ∷ publish msg ∷ h)
    × (service.publish_result h msg ≡ some e)
    × (published after ≡ published before + 3)
    × (slept after ≡ slept before + 6)

-- A job that can be encoded has one of two outcomes. Either no error is returned, and the last
-- call is an attempt that the service accepted, after at most three attempts and three seconds of
-- sleep; or the service's error in the last attempt is returned, wrapped, after exactly three attempts
-- and six seconds of sleep.
pub enqueue_outcome :
    (service : Service) (job msg : Bytes) (h : List PubsubCall)
    → service.encode job ≡ ok msg
    → let r = enqueue service job h in
      ((r.0 ≡ ok tt) × Accepted service msg h r.1)
      ⊎ ((e : Error) × (r.0 ≡ err (wrap e (lit "could not publish job")))
          × Refused service msg e h r.1)
unfolding enqueue
enqueue_outcome service job msg h encoded =
    let answer = λ (k : List PubsubCall). service.publish_result k msg in
    let k₁ = sleep 1 ∷ publish msg ∷ h in
    let k₂ = sleep 2 ∷ publish msg ∷ k₁ in
    elim (Option-cases (answer h)) [
      | inl a ↦ inl (rw (encoded, a) refl, rw (encoded, a) (h, refl, a, omega arith, omega arith))
      | inr (x, a) ↦ elim (Option-cases (answer k₁)) [
        | inl b ↦
            inl
              (rw (encoded, a, b) refl, rw (encoded, a, b) (k₁, refl, b, omega arith, omega arith))
        | inr (y, b) ↦ elim (Option-cases (answer k₂)) [
          | inl c ↦ inl (
            rw (encoded, a, b, c) refl,
            rw (encoded, a, b, c) (k₂, refl, c, omega arith, omega arith),
          )
          | inr (z, c) ↦ inr (
            z,
            rw (encoded, a, b, c) refl,
            rw (encoded, a, b, c) (k₂, 3, refl, c, omega arith, omega arith),
          )
        ]
      ]
    ]
