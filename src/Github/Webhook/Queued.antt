-- ===== src/Github/Webhook/Queued.antt =====
-- internal/github/handlers.go: which events are put on the queue.
use gopherci.Common.{
  IsQuiet, quiet_rules, ℕ, zero, suc, Bool, true, false, not, ◌||◌, ◌≡◌, refl, List, [], ◌∷◌,
  Option, none, some, Bytes, Result, ok, err, panic, Go, pure, fail, check, map_error, and_then,
  Error, ◌>>=◌, if◌then◌else◌, ◌==◌, nat_eq, any, lit, wrap,
}
use gopherci.Db.{GhInstallation, is_enabled}
use gopherci.Github.{
  Config, World, Call, History, Event, PushEvent, PullRequestEvent, push_event, pull_request_event,
  queue_push, get_gh_installation, list_files, get_pull_request,
}
use gopherci.Github.Installation.{Installation, new_installation, from_row, with_client}
use gopherci.Github.Webhook.Affects.{Affects, check_push_affects_go-Affects}
use gopherci.Github.Webhook.{
  Finished, finished, out_of_fuel, is_go_file, check_push_affects_go, check_pr_action,
  check_pr_accessible, inaccessible, after_page, pages_affect_go, check_pr_affects_go,
  require_enabled, handle_push, queue_if_finished, handle_pull_request,
}

-- The events on the queue, newest first.
abbrev pub jobs : History → List Event
jobs [] = []
jobs (queue_push e ∷ h) = e ∷ jobs h
jobs (_ ∷ h) = jobs h

-- With no error and no panic, Q holds of the result; otherwise the queue is still `js`.
abbrev pub Ends : {A : Type 0} → (A → History → Type 0) → List Event → Result A × History → Type 0
Ends Q js (ok a, h) = Q a h
Ends Q js (_, h) = jobs h ≡ js

-- `IsEnabled` holds of what `NewInstallation` returns.
abbrev pub Enabled : Result (Option Installation) → Type 0
Enabled (ok (some _)) = Unit
Enabled _ = ⊥

module _ {A : Type 0} (Q : A → History → Type 0) (js : List Event) where
  and_then-Ends :
      {B : Type 0} (r : Result B × History) (k : B → Go Call A)
      → jobs r.1 ≡ js
      → ((b : B) → Ends Q js (k b r.1))
      → Ends Q js (and_then r.0 k r.1)
  and_then-Ends (ok b, h) k same rest = rest b
  and_then-Ends (err _, h) k same rest = same
  and_then-Ends (panic _, h) k same rest = same

  check-Ends :
      (failure : Option Error) (f : Error → Error) (k : Go Call A) (h : History)
      → jobs h ≡ js
      → (failure ≡ none → Ends Q js (k h))
      → Ends Q js ((check failure f (pure (tt {0})) >>= λ _. k) h)
  check-Ends none f k h same rest = rest refl
  check-Ends (some _) f k h same rest = same

  -- `if b then pure tt else fail e`, which is `require`.
  require-Ends :
      (b : Bool) (e : Error) (k : Go Call A) (h : History)
      → jobs h ≡ js
      → (b ≡ true → Ends Q js (k h))
      → Ends Q js (((if b then pure (tt {0}) else fail e) >>= λ _. k) h)
  require-Ends true e k h same rest = rest refl
  require-Ends false e k h same rest = same

jobs_if :
    {A : Type 0} (b : Bool) (m k : Go Call A) (h : History)
    → jobs (m h).1 ≡ jobs h
    → jobs (k h).1 ≡ jobs h
    → jobs ((if b then m else k) h).1 ≡ jobs h
jobs_if true m k h first second = first
jobs_if false m k h first second = second

jobs-and_then :
    {A B : Type 0} (r : Result A) (k : A → Go Call B) (h : History)
    → ((a : A) → jobs (k a h).1 ≡ jobs h)
    → jobs (and_then r k h).1 ≡ jobs h
jobs-and_then (ok a) k h rest = rest a
jobs-and_then (err _) k h rest = refl
jobs-and_then (panic _) k h rest = refl

jobs-after_page :
    (found last : Bool) (rest : Go Call (Finished Bool)) (h : History)
    → jobs (rest h).1 ≡ jobs h
    → jobs (after_page found last rest h).1 ≡ jobs h
jobs-after_page true last rest h same = refl
jobs-after_page false true rest h same = refl
jobs-after_page false false rest h same = same

module _ (config : Config) (world : World) where
  jobs-with_client : (i : GhInstallation) → IsQuiet jobs (with_client config world i)
  jobs-with_client i = search quiet_rules

  jobs-from_row :
      (row : Option GhInstallation) (h : History) → jobs (from_row config world row h).1 ≡ jobs h
  jobs-from_row none h = refl
  jobs-from_row (some i) h =
      jobs_if (is_enabled (world.now h) i) (with_client config world i) (pure none) h
        (jobs-with_client i h) refl

  jobs-new_installation :
      (id : ℕ) (h : History) → jobs (new_installation config world id h).1 ≡ jobs h
  unfolding new_installation
  jobs-new_installation id h =
      jobs-and_then (world.installation h id) (from_row config world) (get_gh_installation id ∷ h)
        (λ row. jobs-from_row row (get_gh_installation id ∷ h))

  jobs-pages_affect_go :
      (owner repo : Bytes) (number fuel page : ℕ) (h : History)
      → jobs (pages_affect_go config world owner repo number fuel page h).1 ≡ jobs h
  unfolding pages_affect_go
  jobs-pages_affect_go owner repo number zero page h = refl
  jobs-pages_affect_go owner repo number (suc fuel) page h =
      let h' = list_files owner repo number page ∷ h in
      let go = pages_affect_go config world owner repo number fuel in
      jobs-and_then (map_error (λ e. wrap e (lit "could not list files")) (world.files h page))
        (λ a. after_page (any is_go_file a.0) (a.1 == 0) (go a.1)) h'
        λ a.
          jobs-after_page (any is_go_file a.0) (a.1 == 0) (go a.1) h'
            (jobs-pages_affect_go owner repo number fuel a.1 h')

-- What the handler of a push makes sure of.
abbrev pub PushEligible : Config → World → PushEvent → History → Type 0
PushEligible config world e h =
    Enabled (new_installation config world e.installation_id h).0
    × Affects e.commits
    × (not e.repo.private ≡ true)

-- Those of a pull request, less the two that ask GitHub.
abbrev pub PullRequestEligible : Config → World → PullRequestEvent → History → Type 0
PullRequestEligible config world e h =
    (check_pr_action e.action ≡ none)
    × Enabled (new_installation config world e.installation_id h).0
    × (not (e.repo.private || (e.head.repo.private || e.base.repo.private)) ≡ true)

-- The queue after a pull request's handler returned.
abbrev pub PullRequestQueued :
    Config → World → PullRequestEvent → History → Finished (Unit {0}) → History → Type 0
PullRequestQueued config world e h (finished _) h' =
    PullRequestEligible config world e h × (jobs h' ≡ pull_request_event e ∷ jobs h)
PullRequestQueued config world e h out_of_fuel h' = jobs h' ≡ jobs h

module _ (config : Config) (world : World) where
  queue_if_finished-Ends :
      (e : PullRequestEvent) (h : History)
      → PullRequestEligible config world e h
      → (affects : Finished Bool) (h' : History) → jobs h' ≡ jobs h
      → Ends
          (PullRequestQueued config world e h)
          (jobs h)
          (queue_if_finished config world e affects h')
  queue_if_finished-Ends e h eligible out_of_fuel h' same = same
  queue_if_finished-Ends e h eligible (finished true) h' same = (eligible, rw same refl)
  queue_if_finished-Ends e h eligible (finished false) h' same = same

  -- The last part of the handler: the two questions to GitHub.
  accessible :
      (e : PullRequestEvent) (h : History)
      → PullRequestEligible config world e h
      → (fuel : ℕ) (h' : History) → jobs h' ≡ jobs h
      → Ends (PullRequestQueued config world e h) (jobs h) (
          (check_pr_accessible config world e.repo.owner e.repo.name e.number >>= λ failure.
          check failure (λ x. x) (pure (tt {0})) >>= λ _.
          check_pr_affects_go config world fuel e.repo.owner e.repo.name e.number
          >>= queue_if_finished config world e)
            h')
  unfolding check_pr_accessible
  accessible e h eligible fuel h' same =
      let h'' = get_pull_request e.repo.owner e.repo.name e.number ∷ h' in
      check-Ends _ (jobs h) (inaccessible (world.pull h')) _ _ h'' same λ _.
        let r = pages_affect_go config world e.repo.owner e.repo.name e.number fuel 0 h'' in
        let paged : jobs r.1 ≡ jobs h'' =
          jobs-pages_affect_go config world e.repo.owner e.repo.name e.number fuel 0 h'' in
        let still : jobs r.1 ≡ jobs h = cc in
        and_then-Ends _ (jobs h) r _ still (λ b. queue_if_finished-Ends e h eligible b r.1 still)

  Enabled-Ends :
      {A : Type 0} (Q : A → History → Type 0) (js : List Event)
      (r : Result (Option Installation) × History) (k : Go Call A)
      → jobs r.1 ≡ js
      → (Enabled r.0 → Ends Q js (k r.1))
      → Ends Q js (and_then r.0 (λ i. require_enabled config world i >>= λ _. k) r.1)
  Enabled-Ends Q js (ok (some i), h) k same rest = rest tt
  Enabled-Ends Q js (ok none, h) k same rest = same
  Enabled-Ends Q js (err _, h) k same rest = same
  Enabled-Ends Q js (panic _, h) k same rest = same

  -- The handler of a push either puts it on the queue, and then the installation was found and
  -- enabled, some commit modified, added or removed a file that is .gopherci.yml or whose name ends
  -- in .go, and the repository is public, or it ends with an error or a panic and the queue is as
  -- before.
  pub handle_push-Ends :
      (e : PushEvent) (h : History)
      → Ends
          (λ _ h'. PushEligible config world e h × (jobs h' ≡ push_event e ∷ jobs h))
          (jobs h)
          (handle_push config world e h)
  unfolding handle_push
  handle_push-Ends e h =
      let r = new_installation config world e.installation_id h in
      let same : jobs r.1 ≡ jobs h = jobs-new_installation config world e.installation_id h in
      Enabled-Ends _ (jobs h) r _ same λ enabled.
        require-Ends _ (jobs h) (check_push_affects_go e.commits) _ _ r.1 same λ affects.
          require-Ends _ (jobs h) (not e.repo.private) _ _ r.1 same λ public.
            ((enabled, check_push_affects_go-Affects e.commits affects, public), rw same refl)

  -- The handler of a pull request either returns nothing, and then it put the event on the queue,
  -- its action is one of the three, the installation was found and enabled, and all three
  -- repositories are public; or the queue is as before: after an error, a panic, or too little
  -- fuel for the pages.
  pub handle_pull_request-Ends :
      (fuel : ℕ) (e : PullRequestEvent) (h : History)
      → Ends
          (PullRequestQueued config world e h)
          (jobs h)
          (handle_pull_request config world fuel e h)
  unfolding handle_pull_request
  handle_pull_request-Ends fuel e h =
      let Q = PullRequestQueued config world e h in
      let js = jobs h in
      let r = new_installation config world e.installation_id h in
      let same : jobs r.1 ≡ js = jobs-new_installation config world e.installation_id h in
      check-Ends Q js (check_pr_action e.action) _ _ h refl λ action.
        Enabled-Ends Q js r _ same λ enabled.
          require-Ends Q js (not (e.repo.private || (e.head.repo.private || e.base.repo.private))) _
            _ r.1 same λ public. accessible e h (action, enabled, public) fuel r.1 same
