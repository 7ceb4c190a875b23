-- ===== src/Github/Webhook/Replies.antt =====
-- internal/github/handlers.go: the replies of `WebHookHandler`, and what they say of the queue.
use gopherci.Common.{
  ℕ, ◌≡◌, refl, List, ◌∷◌, Option, none, some, Bytes, lit, Result, ok, err, panic, pure, check,
  and_then, Error, message, wrap, non_zero, ignore_event, bytes_eq, ◌⊎◌, inl, inr, bytes_beq,
  Bool-cases,
}
use gopherci.Github.{
  Config, World, History, Event, InstallationEvent, installation_event, push_event,
  pull_request_event, other_event, add_gh_installation, remove_gh_installation, PullRequestEvent,
}
use gopherci.Github.Webhook.{
  Reply, replied_ok, Finished, finished, out_of_fuel, integration_installation_event, handle_push,
  handle_pull_request, logged_action, handle_event, reply_of, webhook,
}
use gopherci.Github.Webhook.Queued.{
  jobs, Ends, PullRequestQueued, PushEligible, handle_push-Ends, handle_pull_request-Ends,
}

-- After the reply of success, the queue is as before or has the event; after any other reply, or
-- none, it is as before.
abbrev pub Grows : Event → List Event → Result (Finished Reply) × History → Type 0
Grows e js (ok (finished replied_ok), h) = (jobs h ≡ js) ⊎ (jobs h ≡ e ∷ js)
Grows e js (_, h) = jobs h ≡ js

-- The same of a handler, whose success has no value.
abbrev Handles : Event → List Event → Result (Finished (Unit {0})) × History → Type 0
Handles e js (ok (finished _), h) = (jobs h ≡ js) ⊎ (jobs h ≡ e ∷ js)
Handles e js (_, h) = jobs h ≡ js

quiet-Handles :
    (config : Config) (world : World) (e : Event) (js : List Event)
    (r : Result (Unit {0}) × History)
    → jobs r.1 ≡ js
    → Handles e js (and_then r.0 (λ u. pure (finished u)) r.1)
quiet-Handles config world e js (ok _, h) same = inl same
quiet-Handles config world e js (err _, h) same = same
quiet-Handles config world e js (panic _, h) same = same

queued-Handles :
    (e : Event) (js : List Event) (P : Type 0) (r : Result (Unit {0}) × History)
    → Ends (λ _ h. P × (jobs h ≡ e ∷ js)) js r
    → Handles e js (and_then r.0 (λ u. pure (finished u)) r.1)
queued-Handles e js P (ok _, h) (_, grown) = inr grown
queued-Handles e js P (err _, h) same = same
queued-Handles e js P (panic _, h) same = same

pull_request-Handles :
    (config : Config) (world : World) (e : PullRequestEvent) (h : History)
    (r : Result (Finished (Unit {0})) × History)
    → Ends (PullRequestQueued config world e h) (jobs h) r
    → Handles (pull_request_event e) (jobs h) r
pull_request-Handles config world e h (ok (finished _), h') (_, grown) = inr grown
pull_request-Handles config world e h (ok out_of_fuel, h') same = same
pull_request-Handles config world e h (err _, h') same = same
pull_request-Handles config world e h (panic _, h') same = same

module _ (config : Config) (world : World) where
  logged_action-Handles :
      (fuel : ℕ) (e : PullRequestEvent) (action : Option Bytes) (h : History)
      → Handles (pull_request_event e) (jobs h) (logged_action config world fuel e action h)
  logged_action-Handles fuel e none h = refl
  logged_action-Handles fuel e (some _) h =
      pull_request-Handles config world e h (handle_pull_request config world fuel e h)
        (handle_pull_request-Ends config world fuel e h)

  checked_jobs :
      (failure : Option Error) (f : Error → Error) (h : History)
      → jobs (check failure f (pure (tt {0})) h).1 ≡ jobs h
  checked_jobs none f h = refl
  checked_jobs (some _) f h = refl

  pub jobs-integration_installation_event :
      (e : InstallationEvent) (h : History)
      → jobs (integration_installation_event config world e h).1 ≡ jobs h
  unfolding integration_installation_event
  jobs-integration_installation_event e h = elim (Bool-cases (bytes_beq e.action (lit "created"))) [
    | inl created ↦
        rw created
          (checked_jobs _ _ (add_gh_installation e.installation_id e.account_id e.sender_id ∷ h))
    | inr other ↦ elim (Bool-cases (bytes_beq e.action (lit "deleted"))) [
      | inl deleted ↦
          rw (other, deleted) (checked_jobs _ _ (remove_gh_installation e.installation_id ∷ h))
      | inr neither ↦ rw (other, neither) refl
    ]
  ]

  handle_event-Handles :
      (fuel : ℕ) (e : Event) (h : History) → Handles e (jobs h) (handle_event config world fuel e h)
  unfolding handle_event
  handle_event-Handles fuel (installation_event e) h =
      quiet-Handles config world (installation_event e) (jobs h)
        (integration_installation_event config world e h) (jobs-integration_installation_event e h)
  handle_event-Handles fuel (push_event e) h =
      queued-Handles (push_event e) (jobs h) (PushEligible config world e h)
        (handle_push config world e h) (handle_push-Ends config world e h)
  handle_event-Handles fuel (pull_request_event e) h = logged_action-Handles fuel e e.action h
  handle_event-Handles fuel other_event h = refl

  reply_of-Grows :
      (e : Event) (js : List Event) (r : Result (Finished (Unit {0})) × History)
      → Handles e js r
      → Grows e js (reply_of config world r.0, r.1)
  reply_of-Grows e js (ok (finished _), h) handled = handled
  reply_of-Grows e js (ok out_of_fuel, h) same = same
  reply_of-Grows e js (err (message _), h) same = same
  reply_of-Grows e js (err (wrap _ _), h) same = same
  reply_of-Grows e js (err (non_zero _ _), h) same = same
  reply_of-Grows e js (err (ignore_event _ _), h) same = inl same
  reply_of-Grows e js (panic _, h) same = same

  -- A request whose payload is valid and is decoded to an event changes the queue by at most that
  -- event, put on it once; and if the reply is an error, or there is none because of a panic or too
  -- little fuel for the pages of a pull request, the queue is as before.
  pub webhook-Grows :
      (fuel : ℕ) (payload : Bytes) (parse : Bytes → Result Event) (e : Event) (h : History)
      → parse payload ≡ ok e
      → Grows e (jobs h) (webhook config world fuel (ok payload) parse h)
  unfolding webhook
  webhook-Grows fuel payload parse e h parsed = rw parsed (
      reply_of-Grows e (jobs h) (handle_event config world fuel e h)
        (handle_event-Handles fuel e h))
