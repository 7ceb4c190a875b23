-- ===== src/Github/Webhook/Sent.antt =====
-- internal/github/handlers.go: what a request may put on the queue.
use gopherci.Common.{
  ℕ, ◌≡◌, refl, inl, inr, ◌⊎◌, not, ◌||◌, true, List, ◌∷◌, Option, none, some, Bytes, Result, ok,
  err, panic, and_then, pure, has_prefix, error_text, Bool-cases, lit,
}
use gopherci.Github.{
  Config, World, Call, History, Event, installation_event, push_event, pull_request_event,
  other_event, PullRequestEvent,
}
use gopherci.Github.Webhook.Affects.{Affects}
use gopherci.Github.Webhook.{
  Finished, finished, out_of_fuel, check_pr_action, handle_push, handle_pull_request, logged_action,
  handle_event, parsed_webhook, webhook, integration_installation_event,
}
use gopherci.Github.Webhook.Queued.{
  jobs, Ends, PullRequestQueued, PushEligible, handle_push-Ends, handle_pull_request-Ends,
}
use gopherci.Github.Webhook.Replies.{jobs-integration_installation_event}

-- An event that is worth an analysis: of public repositories only, a push with a commit that
-- modified, added or removed .gopherci.yml or a file whose name ends in .go, or a pull request whose
-- action is one of the three.
abbrev pub IsFit : Event → Type 0
IsFit (push_event e) = Affects e.commits × (not e.repo.private ≡ true)
IsFit (pull_request_event e) =
    (check_pr_action e.action ≡ none)
    × (not (e.repo.private || (e.head.repo.private || e.base.repo.private)) ≡ true)
IsFit _ = ⊥

-- At most one event was sent, and that is fit.
abbrev pub Sends : List Event → History → Type 0
Sends js h = (jobs h ≡ js) ⊎ ((e : Event) × IsFit e × (jobs h ≡ e ∷ js))

ended-Sends :
    {A : Type 0} (P : Type 0) (e : Event) (js : List Event) (r : Result A × History)
    → Ends (λ _ h. P × (jobs h ≡ e ∷ js)) js r
    → (P → IsFit e)
    → Sends js r.1
ended-Sends P e js (ok _, h) (p, grown) fit = inr (e, fit p, grown)
ended-Sends P e js (err _, h) same fit = inl same
ended-Sends P e js (panic _, h) same fit = inl same

-- The result of a handler is only wrapped.
once-Sends :
    (js : List Event) (r : Result (Unit {0})) (h : History)
    → Sends js h
    → Sends js (and_then {C = Call} r (λ u. pure (finished u)) h).1
once-Sends js (ok _) h sends = sends
once-Sends js (err _) h sends = sends
once-Sends js (panic _) h sends = sends

module _ (config : Config) (world : World) where
  pull_request-Sends :
      (e : PullRequestEvent) (h : History) (r : Result (Finished (Unit {0})) × History)
      → Ends (PullRequestQueued config world e h) (jobs h) r
      → Sends (jobs h) r.1
  pull_request-Sends e h (ok (finished _), h') ((action, enabled, public), grown) =
      inr (pull_request_event e, (action, public), grown)
  pull_request-Sends e h (ok out_of_fuel, h') same = inl same
  pull_request-Sends e h (err _, h') same = inl same
  pull_request-Sends e h (panic _, h') same = inl same

  logged_action-Sends :
      (fuel : ℕ) (e : PullRequestEvent) (action : Option Bytes) (h : History)
      → Sends (jobs h) (logged_action config world fuel e action h).1
  logged_action-Sends fuel e none h = inl refl
  logged_action-Sends fuel e (some _) h =
      pull_request-Sends e h (handle_pull_request config world fuel e h)
        (handle_pull_request-Ends config world fuel e h)

  handle_event-Sends :
      (fuel : ℕ) (e : Event) (h : History) → Sends (jobs h) (handle_event config world fuel e h).1
  unfolding handle_event
  handle_event-Sends fuel (installation_event e) h =
      let (r, h') = integration_installation_event config world e h in
      once-Sends (jobs h) r h' (inl (jobs-integration_installation_event config world e h))
  handle_event-Sends fuel (push_event e) h =
      let (r, h') = handle_push config world e h in
      once-Sends (jobs h) r h' (
        ended-Sends (PushEligible config world e h) (push_event e) (jobs h) (r, h')
          (handle_push-Ends config world e h) (λ (enabled, affects, public). (affects, public)))
  handle_event-Sends fuel (pull_request_event e) h = logged_action-Sends fuel e e.action h
  handle_event-Sends fuel other_event h = inl refl

  parsed_webhook-Sends :
      (fuel : ℕ) (r : Result Event) (h : History)
      → Sends (jobs h) (parsed_webhook config world fuel r h).1
  parsed_webhook-Sends fuel (ok e) h = handle_event-Sends fuel e h
  parsed_webhook-Sends fuel (err e) h =
      elim (Bool-cases (
        has_prefix (error_text e)
          (lit "unknown X-Github-Event in message: integration_installation"))) [
            | inl deprecated ↦ rw deprecated (inl refl)
            | inr bad ↦ rw bad (inl refl)
          ]
  parsed_webhook-Sends fuel (panic text) h = inl refl

  -- A request, whatever it holds, sends at most one event, and only one that is fit.
  pub webhook-Sends :
      (fuel : ℕ) (payload : Result Bytes) (parse : Bytes → Result Event) (h : History)
      → Sends (jobs h) (webhook config world fuel payload parse h).1
  unfolding webhook
  webhook-Sends fuel (ok payload) parse h = parsed_webhook-Sends fuel (parse payload) h
  webhook-Sends fuel (err e) parse h = inl refl
  webhook-Sends fuel (panic text) parse h = inl refl
