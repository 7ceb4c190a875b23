-- ===== src/Logger.antt =====
-- internal/logger/logger.go. logrus and its hook for Sentry are third-party code, taken as the
-- parameter `Logrus`; values that are logged are known by their text.
pub mod Sentry
use gopherci.Common.{
  ℕ, Bool, true, List, [], ◌∷◌, Option, none, some, Bytes, lit, Result, ok, err, panic, Go, ask,
  pure, ◌>>=◌, ◌>>◌, Error, message, if◌then◌else◌, ◌==◌, bytes_eq,
}

-- The levels of logrus that the program names.
pub data LogrusLevel : Type 0 where
  panic_level fatal_level error_level info_level debug_level : LogrusLevel

pub data Formatter : Type 0 where
  json_formatter text_formatter : Formatter

-- The methods of the interface `Logger`, but for `With`; those in f have a format.
pub data Method : Type 0 where
  debug debugf info infof error errorf fatal fatalf : Method

-- The settings of a `*SentryHook`; the rest of it is known to its package alone.
pub record Hook : Type 0 where
  pub environment : Bytes
  pub release : Bytes
  pub stacktrace : Bool
  pub stacktrace_level : LogrusLevel
  pub timeout : ℕ

-- An entry belongs to a logger, which all entries made of it share; `fatal_line` is the line of
-- `logger.WithError(err).Fatal`.
pub data LoggerCall (Entry : Type 0) : Type 0 where
  new_hook : (dsn : Bytes) → List LogrusLevel → LoggerCall Entry
  add_hook : Hook → LoggerCall Entry
  entry_call : Method → Entry → List Bytes → LoggerCall Entry
  fatal_line : Error → Bytes → LoggerCall Entry

-- What logrus, the host and Sentry answer. `new_hook` gives Go's two results, a pointer and an error.
pub record Logrus : Type 1 where
  pub Entry : Type 0
  pub logger_with_field : Formatter → LogrusLevel → (key value : Bytes) → Entry
  pub with_field : Entry → (key value : Bytes) → Entry
  pub hostname : Result Bytes
  pub hook_result : Bytes → Option Hook × Option Error

-- `log`
pub record Log (Entry : Type 0) : Type 0 where
  pub logrus : Entry

-- The formatter and the level of an environment.
unfoldable pub settings : Bytes → Formatter × LogrusLevel
settings env =
    if env == lit "production" then (json_formatter, info_level) else (text_formatter, debug_level)

abbrev pub sentry_levels : List LogrusLevel
sentry_levels = panic_level ∷ fatal_level ∷ error_level ∷ []

-- The settings made through the pointer `hook`, which panic if it is nil.
unfoldable pub configured : (env build : Bytes) → Option Hook → Result Hook
configured env build none = panic (lit "invalid memory address or nil pointer dereference")
configured env build (some hook) = ok (record {
  environment = env;
  release = build;
  stacktrace = true;
  stacktrace_level = error_level;
  timeout = 1000000000;
})

module _ (l : Logrus) where
  open l use {Entry}

  -- The method of the same name of logrus' entry; `Fatal` and `Fatalf` then end the process.
  unfoldable pub call_method : Method → Log Entry → List Bytes → Go (LoggerCall Entry) (Unit {0})
  call_method method log args = ask (entry_call method log.logrus args) (λ h. after method)
    where
      after : Method → Result (Unit {0})
      after fatal = err (message (lit "exit status 1"))
      after fatalf = err (message (lit "exit status 1"))
      after _ = ok tt

  -- `With`
  unfoldable pub with : Log Entry → (key value : Bytes) → Log Entry
  with log key value = record { logrus = l.with_field log.logrus key value }

  abbrev with_hostname : Entry → Result Bytes → Entry
  with_hostname entry (ok hostname) = l.with_field entry (lit "server_name") hostname
  with_hostname entry _ = entry

  -- `if err != nil { logger.WithError(err).Fatal(...) }`
  abbrev exit_on : Option Error → Go (LoggerCall Entry) (Unit {0})
  exit_on none = pure tt
  exit_on (some e) =
      ask (fatal_line e (lit "could not setup sentry logrus"))
        (λ h. err (message (lit "exit status 1")))

  -- The hook for Sentry: it is set up before the error of its creation is looked at.
  unfoldable pub enable_sentry : Entry → (build env dsn : Bytes) → Go (LoggerCall Entry) (Unit {0})
  unfolding configured call_method
  enable_sentry entry build env dsn = do
    (hook, e) ← ask (new_hook dsn sentry_levels) (λ h. ok (l.hook_result dsn))
    set ← (λ h. (configured env build hook, h))
    exit_on e
    ask (add_hook set) (λ h. ok (tt {0}))
    let log : Log Entry = record { logrus = l.with_field entry (lit "area") (lit "logger") }
    call_method info log (lit "enabled sentry" ∷ [])

  -- `New`
  unfoldable pub new : (build env dsn : Bytes) → Go (LoggerCall Entry) (Log Entry)
  unfolding settings enable_sentry
  new build env dsn = do
    let (formatter, level) = settings env
    let plain = l.logger_with_field formatter level (lit "logger") (lit "gci")
    let entry = with_hostname plain l.hostname
    (if dsn == [] then pure (tt {0}) else enable_sentry entry build env dsn)
    pure (record { logrus = entry })

  -- `Testing`
  unfoldable pub testing : Go (LoggerCall Entry) (Log Entry)
  unfolding new
  testing = new [] (lit "testing") []
