-- ===== src/Github/Webhook.antt =====
-- internal/github/handlers.go: the two HTTP handlers. Checking a payload's signature and decoding
-- it are third-party code, so a request comes with the results of both.
pub mod Affects
pub mod Queued
pub mod Pages
pub mod Callback
pub mod Replies
pub mod Sent
use gopherci.Common.{
  ℕ, zero, suc, Bool, true, false, not, ◌&&◌, ◌||◌, List, [], ◌∷◌, ◌++◌, Option, none, some, Bytes,
  lit, Result, ok, err, panic, Go, ask, pure, fail, check, wrapping, to_result, ◌>>=◌, ◌>>◌, Error,
  message, wrap, ignore_event, IgnoreReason, unknown_event, invalid_action, no_action,
  no_installation, no_go_files, private_repos, pr_inaccessible, error_text, if◌then◌else◌, ◌==◌,
  nat_eq, bytes_eq, has_prefix, has_suffix, any,
}
use gopherci.Github.{
  Commit, PushEvent, PullRequestEvent, InstallationEvent, Event, installation_event, push_event,
  pull_request_event, other_event, Call, History, World, Config, PullFailure, add_gh_installation,
  remove_gh_installation, queue_push, list_files, get_pull_request,
}
use gopherci.Github.Installation.{Installation, new_installation}

-- `http.Error`, a redirect, or the empty reply with status 200.
pub data Reply : Type 0 where
  replied_ok : Reply
  http_error : (body : Bytes) → (code : ℕ) → Reply
  redirected : (target : Bytes) → (code : ℕ) → Reply

-- `CallbackHandler`, from the result of `ParseForm` and the form's target_url.
unfoldable pub callback : Config → (form : Result (Unit {0})) → (target : Bytes) → Reply
callback config (err e) target = http_error (error_text e) 400
callback config (panic m) target = http_error m 500
callback config (ok _) target =
    if target == []
    then http_error (lit "no target_url set") 400
    else if not (has_prefix target config.gci_base_url)
    then http_error (lit "invalid target_url") 400
    else redirected target 303

unfoldable pub config_filename : Bytes
config_filename = lit ".gopherci.yml"

unfoldable pub has_go_extension : Bytes → Bool
has_go_extension filename = has_suffix filename (lit ".go")

-- `hasGoExtension(filename) || filename == configFilename`
unfoldable pub is_go_file : Bytes → Bool
unfolding has_go_extension
is_go_file filename = has_go_extension filename || filename == config_filename

unfoldable pub check_push_affects_go : List Commit → Bool
check_push_affects_go [] = false
check_push_affects_go (c ∷ commits) =
    (any is_go_file c.modified || (any is_go_file c.added || any is_go_file c.removed))
    || check_push_affects_go commits

unfoldable pub check_pr_action : Option Bytes → Option Error
check_pr_action none = some (ignore_event no_action [])
check_pr_action (some a) =
    if not (a == lit "opened") && (not (a == lit "synchronize") && not (a == lit "reopened"))
    then some (ignore_event invalid_action a)
    else none

abbrev pub inaccessible : Option PullFailure → Option Error
inaccessible none = none
inaccessible (some f) = of_response f.response
  where
    of_response : Option (ℕ × Bytes) → Option Error
    of_response none = none
    of_response (some (code, status)) =
        if code == 404 then some (ignore_event pr_inaccessible status) else none

-- Whether a loop on fuel came to its end.
pub data Finished (A : Type 0) : Type 0 where
  finished : A → Finished A
  out_of_fuel : Finished A

-- The body of the loop over the pages: the rest of it, unless a file was found or there is no next
-- page.
abbrev pub after_page : (found last : Bool) → Go Call (Finished Bool) → Go Call (Finished Bool)
after_page true last rest = pure (finished true)
after_page false true rest = pure (finished false)
after_page false false rest = rest

module _ (config : Config) (world : World) where
  unfoldable pub check_pr_accessible : (owner repo : Bytes) → ℕ → Go Call (Option Error)
  check_pr_accessible owner repo number = do
    failure ← ask (get_pull_request owner repo number) (λ h. ok (world.pull h))
    pure (inaccessible failure)

  -- The loop over the pages of a pull request's files, from page `page`. Fuel counts requests.
  unfoldable pub pages_affect_go :
      (owner repo : Bytes) → ℕ → (fuel page : ℕ) → Go Call (Finished Bool)
  pages_affect_go owner repo number zero page = pure out_of_fuel
  pages_affect_go owner repo number (suc fuel) page =
      wrapping (lit "could not list files")
        (ask (list_files owner repo number page) (λ h. world.files h page))
      >>= λ (names, next).
          after_page (any is_go_file names) (next == 0)
            (pages_affect_go owner repo number fuel next)

  abbrev pub check_pr_affects_go : ℕ → (owner repo : Bytes) → ℕ → Go Call (Finished Bool)
  check_pr_affects_go fuel owner repo number = pages_affect_go owner repo number fuel 0

  -- `if !installation.IsEnabled()`
  abbrev pub require_enabled : Option Installation → Go Call (Unit {0})
  require_enabled none = fail (ignore_event no_installation [])
  require_enabled (some i) = pure tt

  abbrev pub require : Bool → IgnoreReason → Go Call (Unit {0})
  require b reason = if b then pure tt else fail (ignore_event reason [])

  unfoldable pub integration_installation_event : InstallationEvent → Go Call (Unit {0})
  integration_installation_event e = do
    failure ←
        (if e.action == lit "created"
          then ask (add_gh_installation e.installation_id e.account_id e.sender_id)
              (λ h. ok (world.added h))
          else if e.action == lit "deleted"
          then ask (remove_gh_installation e.installation_id) (λ h. ok (world.removed h))
          else pure none)
    check failure (λ x. wrap x (lit "database error handling integration installation event"))
        (pure tt)

  -- `g.queuePush <- e`
  abbrev pub push_to_queue : Event → Go Call (Unit {0})
  push_to_queue e = ask (queue_push e) (λ _. ok tt)

  unfoldable pub handle_push : PushEvent → Go Call (Unit {0})
  handle_push e = do
    installation ← new_installation config world e.installation_id
    require_enabled installation
    require (check_push_affects_go e.commits) no_go_files
    require (not e.repo.private) private_repos
    push_to_queue (push_event e)

  abbrev pub queue_if_finished : PullRequestEvent → Finished Bool → Go Call (Finished (Unit {0}))
  queue_if_finished e out_of_fuel = pure out_of_fuel
  queue_if_finished e (finished affects) = do
    require affects no_go_files
    push_to_queue (pull_request_event e)
    pure (finished tt)

  -- The case of a pull request after its action was logged.
  unfoldable pub handle_pull_request : ℕ → PullRequestEvent → Go Call (Finished (Unit {0}))
  unfolding pages_affect_go
  handle_pull_request fuel e = do
    check (check_pr_action e.action) (λ x. x) (pure tt)
    installation ← new_installation config world e.installation_id
    require_enabled installation
    require (not (e.repo.private || (e.head.repo.private || e.base.repo.private))) private_repos
    failure ← check_pr_accessible e.repo.owner e.repo.name e.number
    check failure (λ x. x) (pure tt)
    affects ← check_pr_affects_go fuel e.repo.owner e.repo.name e.number
    queue_if_finished e affects

  abbrev pub once : Go Call (Unit {0}) → Go Call (Finished (Unit {0}))
  once m = m >>= λ u. pure (finished u)

  -- `*e.Action` is read for the log before `checkPRAction` looks whether it is nil.
  abbrev pub logged_action : ℕ → PullRequestEvent → Option Bytes → Go Call (Finished (Unit {0}))
  logged_action fuel e none h = (panic (lit "nil pointer dereference"), h)
  logged_action fuel e (some _) h = handle_pull_request fuel e h

  -- The switch on the type of the event.
  unfoldable pub handle_event : ℕ → Event → Go Call (Finished (Unit {0}))
  handle_event fuel (installation_event e) = once (integration_installation_event e)
  handle_event fuel (push_event e) = once (handle_push e)
  handle_event fuel (pull_request_event e) = logged_action fuel e e.action
  handle_event fuel other_event = once (fail (ignore_event unknown_event []))

  -- The switch on the type of the error.
  abbrev pub reply_of : Result (Finished (Unit {0})) → Result (Finished Reply)
  reply_of (ok out_of_fuel) = ok out_of_fuel
  reply_of (ok (finished _)) = ok (finished replied_ok)
  reply_of (err (ignore_event _ _)) = ok (finished replied_ok)
  reply_of (err e) = ok (finished (http_error (error_text e) 500))
  reply_of (panic m) = panic m

  abbrev pub bad_request : Go Call (Finished Reply)
  bad_request = pure (finished (http_error (lit "Bad Request") 400))

  abbrev pub parsed_webhook : ℕ → Result Event → Go Call (Finished Reply)
  parsed_webhook fuel (ok event) h = let (r, h') = handle_event fuel event h in (reply_of r, h')
  parsed_webhook fuel (err e) h =
      (if has_prefix (error_text e)
            (lit "unknown X-Github-Event in message: integration_installation")
          then pure (finished replied_ok)
          else bad_request)
        h
  parsed_webhook fuel (panic m) h = (panic m, h)

  -- `WebHookHandler`, from the results of `ValidatePayload` and `ParseWebHook`.
  unfoldable pub webhook :
      ℕ → (payload : Result Bytes) → (parse : Bytes → Result Event) → Go Call (Finished Reply)
  unfolding handle_event
  webhook fuel (ok payload) parse = parsed_webhook fuel (parse payload)
  webhook fuel (err e) parse = bad_request
  webhook fuel (panic m) parse = λ h. (panic m, h)
