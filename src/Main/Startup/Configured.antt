-- ===== src/Main/Startup/Configured.antt =====
-- main.go: what `main` has made sure of when it listens.
use mathlib.Core.Path.{subst}
use gopherci.Common.{
  ℕ, suc, ◌≡◌, ◌≢◌, refl, ap, inl, inr, ◌⊎◌, List, [], ◌∷◌, none, some, Bytes, lit, Result, ok, err,
  panic, ℤ, Go, and_then, Error, ◌>>◌, message, ◌>>=◌, bytes_eq, bytes_beq, bytes_beq_iff, arith,
}
use gopherci.Logger.{Logrus, Log, LoggerCall, new}
use gopherci.Logger.Sentry.{OneIsNil, Created, new-Created}
use gopherci.Main.{check_environment}
use gopherci.Main.Calls.{
  new_logger, Served, server_closed, returned, start_signal_handler, MainCall, Host, Chosen, log,
  listen, fatal_level, info_level, wait, parse_int,
}
use gopherci.Main.Startup.{
  root_logger, made_logger, check_variables, open_database, migrate, memory_limit, choose_analyser,
  analyser_named, start_github, queue_named, start_web, file_server, serve, start_up, main,
  wind_down, report, env,
}

-- How often a history listens.
abbrev pub listens : List MainCall → ℕ
listens [] = 0
listens (listen ∷ h) = suc (listens h)
listens (_ ∷ h) = listens h

-- The process ended: the last call logs why, at the level of `Fatal`.
abbrev pub Died : ℕ → Error → List MainCall → Type 0
Died n e (log fatal_level _ text ∷ h) = (e ≡ message text) × (listens h ≡ n)
Died n e _ = ⊥

-- How a phase ends: with a value of which P holds, or the end of the process; it does not listen.
abbrev Left : {A : Type 0} → (A → Type 0) → ℕ → Result A × List MainCall → Type 0
Left P n (ok a, h) = P a × (listens h ≡ n)
Left P n (err e, h) = Died n e h
Left P n (panic _, h) = ⊥

abbrev Phase : {A : Type 0} → (A → Type 0) → Go MainCall A → Type 0
Phase P m = (h : List MainCall) → Left P (listens h) (m h)

abbrev Any : {A : Type 0} → A → Type 0
Any a = Unit {0}

module _ {A B : Type 0} (P : A → Type 0) (Q : B → Type 0) where
  and_then-Left :
      (n : ℕ) (r : Result A) (h : List MainCall) (f : A → Go MainCall B)
      → Left P n (r, h)
      → ((a : A) → P a → Phase Q (f a))
      → Left Q n (and_then r f h)
  and_then-Left n (ok a) h f (p, e) k = subst (λ n'. Left Q n' (f a h)) e (k a p h)
  and_then-Left n (err e) h f left k = left
  and_then-Left n (panic _) h f left k = absurd left

  bind-Phase :
      (m : Go MainCall A) (f : A → Go MainCall B)
      → Phase P m
      → ((a : A) → P a → Phase Q (f a))
      → Phase Q (m >>= f)
  bind-Phase m f first rest h = and_then-Left (listens h) (m h).0 (m h).1 f (first h) rest

weaken-Phase :
    {A : Type 0} (P Q : A → Type 0) (m : Go MainCall A)
    → Phase P m
    → ((a : A) → P a → Q a)
    → Phase Q m
weaken-Phase P Q m phase f h = go (m h).0 (phase h)
  where
    go : (r : Result _) → Left P (listens h) (r, (m h).1) → Left Q (listens h) (r, (m h).1)
    go (ok a) (p, e) = (f a p, e)
    go (err e) left = left
    go (panic _) left = left

-- Which of the checked variables are set, if a check does not end the process.
abbrev Passed : (base id pem secret : Bytes) → Type 0
Passed base id pem secret = (base ≡ []) ⊎ ((id ≡ []) ⊎ ((pem ≢ []) × (secret ≢ [])))

check-Phase :
    (base id pem secret : Bytes)
    → Phase (λ _. Passed base id pem secret) (report (check_environment base id pem secret))
unfolding check_environment bytes_beq
check-Phase [] id pem secret h = (inl refl, refl)
check-Phase (b ∷ base) [] pem secret h = (inr (inl refl), refl)
check-Phase (b ∷ base) (c ∷ id) [] secret h = (refl, refl)
check-Phase (b ∷ base) (c ∷ id) (d ∷ pem) [] h = (refl, refl)
check-Phase (b ∷ base) (c ∷ id) (d ∷ pem) (e ∷ secret) h =
    (inr (inr ((λ q. ground arith), (λ q. ground arith))), refl)

-- The variables that name an analyser, and a queue.
abbrev AnalyserNamed : (name path : Bytes) → Type 0
AnalyserNamed name path = ((name ≡ lit "filesystem") × (path ≢ [])) ⊎ (name ≡ lit "docker")

abbrev QueueNamed : (name project : Bytes) → Type 0
QueueNamed name project = (name ≡ lit "memory") ⊎ ((name ≡ lit "gcppubsub") × (project ≢ []))

module _ (host : Host) where
  open_database-Phase : Phase Any (open_database host)
  unfolding open_database migrate
  open_database-Phase h = ground arith

  memory_limit-Phase : Phase Any (memory_limit host)
  unfolding memory_limit
  memory_limit-Phase h = ground arith

  analyser_named-Phase :
      (name : Bytes) (limit : ℤ)
      → Phase
          (λ _. AnalyserNamed name (env host "ANALYSER_FILESYSTEM_PATH"))
          (analyser_named host name limit)
  unfolding analyser_named
  analyser_named-Phase name limit h = ground (
    arith,
    bytes_beq_iff name (lit "filesystem"),
    bytes_beq_iff name (lit "docker"),
    bytes_beq_iff (env host "ANALYSER_FILESYSTEM_PATH") [],
  )

  start_github-Phase :
      (analyser : Chosen)
      → Phase (λ _. parse_int 64 (env host "GITHUB_ID") ≢ none) (start_github host analyser)
  unfolding start_github
  start_github-Phase analyser h = ground arith

  queue_named-Phase :
      (name : Bytes)
      → Phase
          (λ _. QueueNamed name (env host "QUEUER_GCPPUBSUB_PROJECT_ID"))
          (queue_named host name)
  unfolding queue_named
  queue_named-Phase name h = ground (
    arith,
    bytes_beq_iff name (lit "memory"),
    bytes_beq_iff name (lit "gcppubsub"),
    bytes_beq_iff (env host "QUEUER_GCPPUBSUB_PROJECT_ID") [],
  )

  start_web-Phase : Phase Any (start_web host)
  unfolding start_web file_server lit
  start_web-Phase h = ground arith

-- What is sure once the process listens.
pub record IsConfigured (host : Host) : Type 0 where
  pub analyser_named : AnalyserNamed (env host "ANALYSER") (env host "ANALYSER_FILESYSTEM_PATH")
  pub queue_named : QueueNamed (env host "QUEUER") (env host "QUEUER_GCPPUBSUB_PROJECT_ID")
  pub integration : parse_int 64 (env host "GITHUB_ID") ≢ none
  pub checked :
      (env host "GCI_BASE_URL" ≡ [])
      ⊎ ((env host "GITHUB_PEM_FILE" ≢ []) × (env host "GITHUB_WEBHOOK_SECRET" ≢ []))

-- An id that is blank is no number.
checked_of :
    (base id pem secret : Bytes)
    → Passed base id pem secret
    → parse_int 64 id ≢ none
    → (base ≡ []) ⊎ ((pem ≢ []) × (secret ≢ []))
unfolding parse_int
checked_of base id pem secret (inl q) parsed = inl q
checked_of base id pem secret (inr (inl q)) parsed = absurd (parsed (ap (parse_int 64) q))
checked_of base id pem secret (inr (inr set)) parsed = inr set

module _ (host : Host) where
  start_up-Phase : Phase (λ _. IsConfigured host) (start_up host)
  unfolding start_up check_variables choose_analyser
  start_up-Phase h =
      let configured : Unit {0} → Type 0 = λ _. IsConfigured host in
      bind-Phase (λ _. Passed _ _ _ _) configured _ _ (check-Phase _ _ _ _)
        (λ _ passed. bind-Phase Any configured _ _ (open_database-Phase host) λ _ _.
          bind-Phase Any configured _ _ (memory_limit-Phase host) λ limit _.
            bind-Phase (λ _. AnalyserNamed _ _) configured (choose_analyser host limit) _
              (λ h'. analyser_named-Phase host (env host "ANALYSER") limit _)
              λ analyser named.
                bind-Phase (λ _. parse_int 64 (env host "GITHUB_ID") ≢ none) configured _ _
                  (start_github-Phase host analyser)
                  λ _ parsed.
                    bind-Phase (λ _. QueueNamed _ _) configured _ _ (queue_named-Phase host _)
                      λ _ queue.
                        weaken-Phase Any configured (start_web host) (start_web-Phase host) λ _ _.
                          record {
                            analyser_named = named;
                            queue_named = queue;
                            integration = parsed;
                            checked = checked_of _ _ _ _ passed parsed;
                          })
        (start_signal_handler ∷ log info_level none (lit "starting gopherci") ∷ h)

-- How `main` ends, once it has a logger, after `n` times of listening: after one more, with the wait for the queue and a
-- last line in the log; or before it listens, by `Fatal`.
abbrev pub Ends : Host → ℕ → Result (Unit {0}) × List MainCall → Type 0
Ends host n (ok _, h) =
    IsConfigured host
    × (listens h ≡ suc n)
    × (before : List MainCall) × (h
        ≡ log info_level none (lit "exiting gracefully")
          ∷ wait
          ∷ log info_level none (lit "waiting for queuer to finish")
          ∷ before)
Ends host n (err e, h) = Died n e h
Ends host n (panic _, h) = ⊥

module _ (host : Host) where
  wind_down-Ends :
      (n : ℕ) (s : Served) (h : List MainCall)
      → IsConfigured host
      → listens h ≡ suc n
      → Ends host n (wind_down host s h)
  wind_down-Ends n server_closed h configured e = (configured, e, h, refl)
  wind_down-Ends n (returned none) h configured e = (configured, e, h, refl)
  wind_down-Ends n (returned (some x)) h configured e = (configured, e, _, refl)

  serve-Ends :
      (n : ℕ) (h : List MainCall) → IsConfigured host → listens h ≡ n → Ends host n (serve host h)
  unfolding serve
  serve-Ends n h configured e = wind_down-Ends n _ _ configured (ap suc e)

  served-Ends :
      (n : ℕ) (r : Result (Unit {0})) (h : List MainCall)
      → Left (λ _. IsConfigured host) n (r, h)
      → Ends host n (and_then r (λ _. serve host) h)
  served-Ends n (ok _) h (configured, e) = serve-Ends n h configured e
  served-Ends n (err x) h left = left
  served-Ends n (panic _) h left = absurd left

  started-Ends : (h : List MainCall) → Ends host (listens h) ((start_up host >> serve host) h)
  started-Ends h =
      served-Ends (listens h) (start_up host h).0 (start_up host h).1 (start_up-Phase host h)

abbrev sentry_dsn : Host → Bytes
sentry_dsn host = env host "LOGGER_SENTRY_DSN"

-- How `main` ends: as above with a logger, whose DSN is blank or was accepted; or, for a DSN that
-- is refused, with a panic of `logger.New`, before anything else.
abbrev pub Outcome : Host → Logrus → List MainCall → Result (Unit {0}) × List MainCall → Type 0
Outcome host logrus before (panic _, h) =
    (sentry_dsn host ≢ [])
    × ((logrus.hook_result (sentry_dsn host)).1 ≢ none)
    × (h ≡ new_logger (env host "LOGGER_ENV") (sentry_dsn host) ∷ before)
Outcome host logrus before r =
    ((sentry_dsn host ≡ []) ⊎ ((logrus.hook_result (sentry_dsn host)).1 ≡ none))
    × Ends host (listens before) r

module _ (host : Host) (logrus : Logrus) where
  logged-Outcome :
      (before : List MainCall) (r : Result (Unit {0}) × List MainCall)
      → (sentry_dsn host ≡ []) ⊎ ((logrus.hook_result (sentry_dsn host)).1 ≡ none)
      → Ends host (listens before) r
      → Outcome host logrus before r
  logged-Outcome before (ok _, h) logger ends = (logger, ends)
  logged-Outcome before (err _, h) logger ends = (logger, ends)
  logged-Outcome before (panic _, h) logger ends = absurd ends

  root_logger-Outcome :
      (before : List MainCall) (r : Result (Log logrus.Entry) × List (LoggerCall logrus.Entry))
      → Created logrus (sentry_dsn host) [] r
      → Outcome host logrus before (
          and_then
            (made_logger r.0)
            (λ _. start_up host >> serve host)
            (new_logger (env host "LOGGER_ENV") (sentry_dsn host) ∷ before))
  root_logger-Outcome before (ok _, _) logger =
      let h = new_logger (env host "LOGGER_ENV") (sentry_dsn host) ∷ before in
      logged-Outcome before ((start_up host >> serve host) h) logger (started-Ends host h)
  root_logger-Outcome before (err _, _) created = absurd created
  root_logger-Outcome before (panic _, _) (given, refused, _) = (given, refused, refl)

  -- If the constructor of Sentry's hook gives a hook or an error but not both: whatever the
  -- environment, the arguments and the other answers, and as long as the signal handler does not
  -- end the process, `main` ends in one of three ways. For a LOGGER_SENTRY_DSN that is refused it
  -- panics before anything else happens. Or it ends by `Fatal`, whose line is the last thing that
  -- happens, and has never listened. Or it listens once and at last waits for the queue, and then
  -- ANALYSER and QUEUER name one of the two that there are, with the path or the project that it
  -- needs, GITHUB_ID is a number, and if GCI_BASE_URL is set then so are GITHUB_PEM_FILE and
  -- GITHUB_WEBHOOK_SECRET.
  pub main-Outcome :
      OneIsNil (logrus.hook_result (sentry_dsn host))
      → (h : List MainCall) → Outcome host logrus h (main host logrus h)
  unfolding main root_logger
  main-Outcome one h =
      let dsn = sentry_dsn host in
      let environment = env host "LOGGER_ENV" in
      root_logger-Outcome h (new logrus host.build environment dsn [])
        (new-Created logrus host.build environment dsn [] one)
