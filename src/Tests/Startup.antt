-- ===== src/Tests/Startup.antt =====
-- main.go and internal/logger: the start on small environments.
use gopherci.Common.{
  ◌≡◌, refl, [], ◌∷◌, none, some, Bytes, lit, ok, message, Dict, lookup, bytes_eq, bytes_beq,
  Option,
}
use gopherci.Logger.{Logrus, new, settings, enable_sentry}
use gopherci.Logger.Sentry.{new-Created, Created}
use gopherci.Main.{check_environment}
use gopherci.Main.Calls.{Host, server_closed, parse_int, digits_from}
use gopherci.Main.Startup.{
  root_logger, main, start_up, serve, check_variables, open_database, migrate, memory_limit,
  choose_analyser, analyser_named, start_github, queue_named, start_web, file_server,
}
use gopherci.Main.Startup.Configured.{main-Outcome, Outcome}

-- No base URL and no webhook secret are set.
abbrev variables : Dict Bytes Bytes
variables =
    (lit "ANALYSER", lit "docker") ∷ (lit "QUEUER", lit "memory") ∷ (lit "GITHUB_ID", lit "7") ∷ []

abbrev value_or_blank : Option Bytes → Bytes
value_or_blank none = []
value_or_blank (some value) = value

abbrev host : Host
host = record {
  getenv = λ name. value_or_blank (lookup name variables);
  args = [];
  build = [];
  quoted = λ s. s;
  int_error = λ s. message s;
  fails = λ h c. none;
  applied = λ h. 0;
  read_file = λ h. ([], none);
  served = λ h. server_closed;
}

-- A hook that is refused for every DSN.
abbrev logrus : Logrus
logrus = record {
  Entry = Dict Bytes Bytes;
  logger_with_field = λ formatter level key value. (key, value) ∷ [];
  with_field = λ entry key value. (key, value) ∷ entry;
  hostname = ok (lit "ci");
  hook_result = λ dsn. (none, some (message dsn));
}

-- It listens although anyone can then sign a webhook.
main-without_secret : (main host logrus []).0 ≡ ok tt
unfolding main root_logger new settings enable_sentry start_up serve check_variables
    check_environment open_database migrate memory_limit choose_analyser analyser_named start_github
    queue_named start_web file_server parse_int digits_from lit bytes_beq lookup
main-without_secret = refl

-- The DSN is blank.
main-Outcome_example : Outcome host logrus [] (main host logrus [])
main-Outcome_example = main-Outcome host logrus tt []

new-Created_example : Created logrus (1 ∷ []) [] (new logrus [] [] (1 ∷ []) [])
new-Created_example = new-Created logrus [] [] (1 ∷ []) [] tt
