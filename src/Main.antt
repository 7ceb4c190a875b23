-- ===== src/Main.antt =====
-- main.go and health-check.go: the processor of jobs, the checks of the environment, and the health
-- check. `main` itself is in the children Calls and Startup.
pub mod Calls
pub mod Startup
pub mod System
use gopherci.Common.{
  ℕ, suc, Bool, true, false, [], ◌++◌, Option, none, some, Bytes, lit, Go, pure, try, ◌>>=◌, Error,
  message, wrap, if◌then◌else◌, ◌==◌, bytes_eq, ltb, ◌-◌,
}
use gopherci.Github.{Config, World, Call, Event, push_event, pull_request_event}
use gopherci.Github.Jobs.{push_config, pull_request_config}
use gopherci.Github.Analyse.{analyse}

-- The error that `Process` logs; `url` is the pull request's, which a push does not have.
unfoldable pub job_error : (url : Bytes) → Event → Option Error → Option Error
job_error url (push_event e) (some x) = some (
    wrap x (
      lit "cannot analyse push event for sha "
      ++ (e.after ++ (lit " on repo " ++ e.repo.html_url))))
job_error url (pull_request_event e) (some x) = some (wrap x (lit "cannot analyse pr " ++ url))
job_error url _ none = none
job_error url _ (some x) = some x

-- `Process`, with the name of the job's type; it gives the error that it logs.
unfoldable pub process : Config → World → (type_name url : Bytes) → Event → Go Call (Option Error)
unfolding push_config pull_request_config analyse
process config world type_name url (push_event e) =
    try (analyse config world (push_config e)) >>= λ x. pure (job_error url (push_event e) x)
process config world type_name url (pull_request_event e) =
    try (analyse config world (pull_request_config e)) >>= λ x.
    pure (job_error url (pull_request_event e) x)
process config world type_name url _ =
    pure (some (message (lit "unknown queue job type " ++ type_name)))

-- The first switch of `main`: what it does about the first variable that is blank.
pub data Checked : Type 0 where
  goes_on : Checked
  informs : Bytes → Checked
  reports : Bytes → Checked
  exits : Bytes → Checked

unfoldable pub check_environment :
    (gci_base_url github_id github_pem_file github_webhook_secret : Bytes) → Checked
check_environment gci_base_url github_id github_pem_file github_webhook_secret =
    if gci_base_url == []
    then informs (lit "GCI_BASE_URL is blank, URLs linking back to GopherCI will not work")
    else if github_id == []
    then reports (lit "GITHUB_ID is not set")
    else if github_pem_file == []
    then exits (lit "GITHUB_PEM_FILE is not set")
    else if github_webhook_secret == []
    then exits (lit "GITHUB_WEBHOOK_SECRET is not set")
    else goes_on

-- The health check's status and body: the body's second part is written in both cases.
unfoldable pub health_check : (shutting_down : Bool) → ℕ × Bytes
health_check true = (503, lit "Service shutting down\n" ++ lit "Service OK")
health_check false = (200, lit "Service OK")

-- What the signal handler knows and has done.
pub record Signals : Type 0 where
  pub last_signal : Option ℕ
  pub shutting_down : Bool
  pub forced : Bool
  pub shutdowns : ℕ

abbrev pub second : ℕ
second = 1000000000

-- Whether the last signal is less than a second ago; at first there is none.
abbrev pub is_recent : Option ℕ → ℕ → Bool
is_recent none now = false
is_recent (some t) now = ltb (now - t) second

-- The body of the loop, at a signal; `logger.Fatal` ends the process.
unfoldable pub on_signal : (now : ℕ) → Signals → Signals
on_signal now s = if is_recent s.last_signal now then record s { forced = true } else record {
  last_signal = some now;
  shutting_down = true;
  forced = s.forced;
  shutdowns = suc s.shutdowns;
}
