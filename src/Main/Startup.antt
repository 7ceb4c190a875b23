-- ===== src/Main/Startup.antt =====
-- main.go: `main`, from the environment to the end of the process. The router's middleware is left
-- out, and so is the text that the logger adds. The goroutine of `SignalHandler`, which may end the
-- process by itself, is started here and is no part of `main`.
pub mod Configured
use gopherci.Common.{
  String, nat_eq, ℕ, ◌+◌, Bool, true, false, List, [], ◌∷◌, ◌++◌, Option, none, some, Bytes, lit,
  itoa, Result, ok, err, panic, ℤ, pos, Go, ask, pure, Error, ◌>>=◌, ◌>>◌, if◌then◌else◌, ◌==◌,
  bytes_eq,
}
use gopherci.Logger.{Logrus, new}
use gopherci.Main.{Checked, goes_on, informs, reports, exits, check_environment}
use gopherci.Main.Calls.{
  new_logger, MainCall, Host, Chosen, filesystem, docker, Direction, up, down, Served,
  server_closed, returned, error_level, log, start_signal_handler, open_db, exec_migrations,
  new_sql_db, start_cleanup, new_analyser, read_file, new_github, route, new_memory_queue,
  new_pubsub_queue, start_queue, new_web, listen, cancel, wait, run, inform, fatal, fatal_with,
  or_fatal, or_fatal_with, attempt, parse_int,
}

-- `len(os.Args) > 1 && os.Args[1] == "down"`
abbrev wants_down : List Bytes → Bool
wants_down (program ∷ first ∷ rest) = first == lit "down"
wants_down _ = false

abbrev last_byte : Bytes → Option ℕ
last_byte [] = none
last_byte (c ∷ []) = some c
last_byte (c ∷ d ∷ s) = last_byte (d ∷ s)

abbrev get : Bytes → Go MainCall (Unit {0})
get pattern = run (route (lit "GET") pattern)

-- The redirect of a path that ends in no slash; `path[len(path)-1]` panics on an empty path.
abbrev redirect_slash : Bytes → Option ℕ → Go MainCall Bytes
redirect_slash path none = λ h. (panic (lit "index out of range"), h)
redirect_slash path (some c) =
    if c == b'/' then pure path else (get path >>= λ _. pure (path ++ lit "/"))

-- `FileServer`
unfoldable pub file_server : Bytes → Go MainCall (Unit {0})
file_server path = do
  base ← (if path == lit "/" then pure path else redirect_slash path (last_byte path))
  get (base ++ lit "*")

abbrev docker_default_image : Bytes
docker_default_image = lit "gopherci/gopherci-env:latest"

-- The result of a parsed number, or the end of the process.
abbrev int_or_fatal : Go MainCall ℤ → Option ℤ → Go MainCall ℤ
int_or_fatal failing none = failing
int_or_fatal failing (some n) = pure n

abbrev report : Checked → Go MainCall (Unit {0})
report goes_on = pure tt
report (informs text) = inform text
report (reports text) = run (log error_level none text)
report (exits text) = fatal text

module _ (host : Host) where
  abbrev pub env : String → Bytes
  env name = host.getenv (lit name)

  unfoldable pub check_variables : Go MainCall (Unit {0})
  check_variables = report (
      check_environment (env "GCI_BASE_URL") (env "GITHUB_ID") (env "GITHUB_PEM_FILE")
        (env "GITHUB_WEBHOOK_SECRET"))

  unfoldable pub data_source : Bytes
  data_source =
      env "DB_USERNAME"
      ++ (lit ":"
          ++ (env "DB_PASSWORD"
              ++ (lit "@tcp("
                  ++ (env "DB_HOST"
                      ++ (lit ":"
                          ++ (env "DB_PORT"
                              ++ (lit ")/"
                                  ++ (env "DB_DATABASE"
                                      ++ lit
                                          "?charset=utf8&collation=utf8_unicode_ci&timeout=6s&time_zone='%2B00:00'&parseTime=true"))))))))

  abbrev connecting : Bytes
  connecting =
      lit "connecting to "
      ++ (host.quoted (env "DB_DRIVER")
          ++ (lit " db name: "
              ++ (host.quoted (env "DB_DATABASE")
                  ++ (lit ", username: "
                      ++ (host.quoted (env "DB_USERNAME")
                          ++ (lit ", host: "
                              ++ (host.quoted (env "DB_HOST")
                                  ++ (lit ", port: " ++ host.quoted (env "DB_PORT")))))))))

  -- The call of `migrate.ExecMax`.
  abbrev migration : MainCall
  migration =
      if wants_down host.args
      then exec_migrations (env "DB_DRIVER") down 1
      else exec_migrations (env "DB_DRIVER") up 0

  unfoldable pub migrate : Go MainCall (Unit {0})
  migrate = do
    (n, e) ← ask migration (λ h. ok (host.applied h, host.fails h migration))
    inform (lit "applied " ++ (itoa n ++ lit " migrations to database"))
    or_fatal_with (lit "could not execute all migrations") e

  unfoldable pub open_database : Go MainCall (Unit {0})
  unfolding data_source migrate
  open_database = do
    inform connecting
    e ← attempt host (open_db (env "DB_DRIVER") data_source)
    or_fatal_with (lit "could not open database") e
    migrate
    e' ← attempt host (new_sql_db (env "DB_DRIVER"))
    or_fatal_with (lit "could not initialise database") e'
    run start_cleanup

  unfoldable pub memory_limit : Go MainCall ℤ
  memory_limit =
      if env "ANALYSER_MEMORY_LIMIT" == []
      then pure (pos 0)
      else int_or_fatal
          (fatal_with (some (host.int_error (env "ANALYSER_MEMORY_LIMIT")))
            (lit "could not parse ANALYSER_MEMORY_LIMIT"))
          (parse_int 32 (env "ANALYSER_MEMORY_LIMIT"))

  -- A new analyser, or the end of the process.
  abbrev made : Bytes → Chosen → Go MainCall Chosen
  made text chosen = do e ← attempt host (new_analyser chosen); or_fatal text e; pure chosen

  abbrev on_filesystem : Bytes → ℤ → Go MainCall Chosen
  on_filesystem path limit =
      if path == []
      then fatal (lit "ANALYSER_FILESYSTEM_PATH is not set")
      else made (lit "could not initialise file system analyser:") (filesystem path limit)

  abbrev on_docker : Bytes → ℤ → Go MainCall Chosen
  on_docker image limit =
      made (lit "could not initialise Docker analyser:")
        (docker (if image == [] then docker_default_image else image) limit)

  -- The switch on the name of an analyser.
  unfoldable pub analyser_named : Bytes → ℤ → Go MainCall Chosen
  analyser_named name limit =
      if name == lit "filesystem"
      then on_filesystem (env "ANALYSER_FILESYSTEM_PATH") limit
      else if name == lit "docker"
      then on_docker (env "ANALYSER_DOCKER_IMAGE") limit
      else if name == []
      then fatal (lit "ANALYSER is not set")
      else fatal (lit "Unknown ANALYSER option " ++ host.quoted name)

  unfoldable pub choose_analyser : ℤ → Go MainCall Chosen
  unfolding analyser_named
  choose_analyser limit = do
    inform (lit "using analyser " ++ host.quoted (env "ANALYSER"))
    analyser_named (env "ANALYSER") limit

  -- The integration's id and key, and `github.New`.
  unfoldable pub start_github : Chosen → Go MainCall (Unit {0})
  start_github analyser = do
    inform (
        lit "github Integration ID: "
        ++ (host.quoted (env "GITHUB_ID")
            ++ (lit ", GitHub Integration PEM File: " ++ host.quoted (env "GITHUB_PEM_FILE"))))
    id ←
        int_or_fatal (fatal (lit "could not parse integrationID " ++ host.quoted (env "GITHUB_ID")))
          (parse_int 64 (env "GITHUB_ID"))
    (key, e) ← ask (read_file (env "GITHUB_PEM_FILE")) (λ h. ok (host.read_file h))
    or_fatal (lit "could not read private key for GitHub integration: ") e
    e' ←
        attempt host (new_github analyser id key (env "GITHUB_WEBHOOK_SECRET") (env "GCI_BASE_URL"))
    or_fatal (lit "could not initialise GitHub:") e'
    run (route (lit "POST") (lit "/gh/webhook"))
    get (lit "/gh/callback")

  abbrev on_pubsub : Bytes → Go MainCall (Unit {0})
  on_pubsub project_id =
      if project_id == [] then fatal (lit "QUEUER_GCPPUBSUB_PROJECT_ID is not set") else do
        e ← attempt host (new_pubsub_queue project_id (env "QUEUER_GCPPUBSUB_TOPIC"))
        or_fatal (lit "Could not initialise GCPPubSubQueue:") e
        run start_queue

  -- The switch on the name of a queue.
  unfoldable pub queue_named : Bytes → Go MainCall (Unit {0})
  queue_named name =
      if name == lit "memory"
      then (run new_memory_queue >> run start_queue)
      else if name == lit "gcppubsub"
      then on_pubsub (env "QUEUER_GCPPUBSUB_PROJECT_ID")
      else if name == []
      then fatal (lit "QUEUER is not set")
      else fatal (lit "Unknown QUEUER option " ++ host.quoted name)

  unfoldable pub start_web : Go MainCall (Unit {0})
  unfolding file_server
  start_web = do
    e ← attempt host new_web
    or_fatal_with (lit "could not instantiate web") e
    file_server (lit "/static")
    run (route (lit "NOTFOUND") [])
    get (lit "/analysis/{analysisID}")
    get (lit "/health-check")

  -- What follows `ListenAndServe`: an error other than `http.ErrServerClosed` cancels.
  abbrev after_serving : Served → Go MainCall (Unit {0})
  after_serving (returned (some e)) = do
    run (log error_level (some e) (lit "http server error"))
    run cancel
  after_serving _ = pure tt

  abbrev wind_down : Served → Go MainCall (Unit {0})
  wind_down result = do
    after_serving result
    inform (lit "waiting for queuer to finish")
    run wait
    inform (lit "exiting gracefully")

  unfoldable pub serve : Go MainCall (Unit {0})
  serve = do
    inform (lit "listening on :3000")
    result ← ask listen (λ h. ok (host.served h))
    wind_down result

  -- `main` from the logger on, up to where it listens.
  unfoldable pub start_up : Go MainCall (Unit {0})
  unfolding check_variables open_database memory_limit choose_analyser start_github queue_named
      start_web
  start_up = do
    inform (lit "starting gopherci")
    run start_signal_handler
    check_variables
    open_database
    limit ← memory_limit
    analyser ← choose_analyser limit
    start_github analyser
    queue_named (env "QUEUER")
    start_web

-- What becomes of `main` by the result of `logger.New`.
abbrev pub made_logger : {A : Type 0} → Result A → Result (Unit {0})
made_logger (ok _) = ok tt
made_logger (err e) = err e
made_logger (panic text) = panic text

module _ (host : Host) (logrus : Logrus) where
  -- `logger.New`, whose own calls are those of internal/logger.
  unfoldable pub root_logger : Go MainCall (Unit {0})
  unfolding new
  root_logger =
      let dsn = env host "LOGGER_SENTRY_DSN" in
      ask (new_logger (env host "LOGGER_ENV") dsn)
        (λ h. made_logger (new logrus host.build (env host "LOGGER_ENV") dsn []).0)

  unfoldable pub main : Go MainCall (Unit {0})
  unfolding root_logger start_up serve
  main = root_logger >> (start_up host >> serve host)
