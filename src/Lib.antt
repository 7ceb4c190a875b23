-- ===== src/Lib.antt =====
-- Verification of GopherCI, which runs Go tools on the pushes and pull requests of GitHub
-- repositories and reports the issues that they find in the changed lines.
--
-- The program's parts, and how they meet. GitHub calls the webhook handler, which looks the
-- installation up in the database, checks that the event is worth an analysis, and puts it on a
-- queue. The queue calls the job processor, which makes an `AnalyseConfig` of the event and runs
-- `GitHub.Analyse`: that asks an analyser for an executer, wraps it so that each execution is
-- stored, lets `analyser.Analyse` clone the repository and run the tools in it, reports the issues
-- to GitHub, and records the result. The web handler shows a recorded analysis with its diff.
--
-- Files:
--   Common            shared types; Common/Effect has Go's errors, panics and effectful functions,
--                     Common/Errors the texts of the program's own errors
--   Db, Db/Duration   internal/db/db.go
--   Db/Recording      internal/db/sqldb.go: `trim`, and what `WriteExecution` stores
--   Db/Recorder       internal/db/sqldb.go: `SQLExecuteWriter`
--   Db/Rows, Db/Sql   internal/db/sqldb.go: the methods of `SQLDB`; Db/Sql/Cleanup its `Cleanup`,
--                     Db/Sql/Tables what its statements make of the tables
--   Db/Mock           internal/db/mockdb.go
--   Analyser          internal/analyser: analyser.go's interfaces and helpers, cloner.go,
--                     refReader.go, configReader.go
--   Analyser/Suppress internal/analyser/reporter.go
--   Analyser/Run      internal/analyser/analyser.go: `Analyse`
--   Analyser/Docker, Analyser/Filesystem   the executers of docker.go and filesystem.go;
--                     Analyser/Docker/Connect has `NewDocker`
--   Analyser/Machine, Analyser/Replay   an executer's answers seen as a machine, on which
--                     the commands of `Analyse` run
--   Queue/Memory, Queue/Pubsub             internal/queue; Queue/Pubsub/Running its goroutines
--   Github            internal/github: the events, and the calls of the outside
--   Github/Installation, Github/Reporters  installation.go and reporters.go
--   Github/Webhook, Github/Jobs, Github/Analyse   handlers.go
--   Web/Diff, Web/Page   internal/web: `DiffIssues` and `AnalysisHandler`
--   Logger            internal/logger/logger.go
--   Main              main.go: `queueProcessor.Process`; health-check.go
--   Main/Calls, Main/Startup   main.go: `main` and `FileServer`, and their calls
--   Main/System       the webhook handler, the memory queue and the job processor together
--   Tests             runs on concrete inputs
--
-- How state and operations correspond. A Go function that may fail, panic or act on the outside
-- takes the history of the calls made so far, newest first, and gives a result (a value, an error or
-- a panic) and the longer history. What the outside answers (GitHub's API, the SQL database, the
-- commands that are run, Docker, the clock) is a parameter that may depend on that history; a
-- theorem holds for all answers, unless it names a condition on them. The goroutines of a
-- queue are a step relation whose schedule is open; a call of `logger.Fatal` in `main` is the error
-- with which it ends. Ids, times and sizes are natural numbers: the
-- database's columns are unsigned, and no size in the code comes near a machine word. Strings are
-- lists of bytes. Third-party code is a parameter where its result matters: revgrep, the YAML and
-- diff parsers, `%q` of fmt, `filepath.Join`, gob, logrus, the signature check and decoding of a
-- webhook.
--
-- Fuel. Only the loop over the pages of a pull request's files has fuel, which counts requests:
-- GitHub decides how many pages there are. It is enough if it is at least the number of pages, and
-- running out is a result of its own. All other loops are structural.
--
-- Not modelled: what is logged outside of `main` and the logger itself, templates and static files,
-- the router's middleware, migrations, the 15 minute limit of an analysis, and the tests. The signal
-- handler is a function of its own in Main, and no part of `main`, which it may end at any time. The
-- router, logrus, Sentry, Docker's client and Pub/Sub's are other projects.
pub mod Common
pub mod Db
pub mod Analyser
pub mod Queue
pub mod Github
pub mod Web
pub mod Logger
pub mod Main
pub mod Tests
