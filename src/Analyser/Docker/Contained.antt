-- ===== src/Analyser/Docker/Contained.antt =====
-- internal/analyser: `Analyse` with an executer of Docker.
use gopherci.Common.{
  ◌≡◌, ◌≢◌, refl, List, [], ◌∷◌, Option, none, some, Bytes, Result, ok, err, panic, Error, ℤ,
}
use gopherci.Db.{Tool, Analysis}
use gopherci.Analyser.{Executer, Library, Cloner, RefReader}
use gopherci.Analyser.Machine.{Commands, executer_of}
use gopherci.Analyser.Run.{analyse}
use gopherci.Analyser.Honesty.{Keeps}
use gopherci.Analyser.Run.Honest.{analyse-Keeps}
use gopherci.Analyser.Replay.{Answers, replay, machine_of, library_of, analyse-replayed}
use gopherci.Analyser.Docker.{
  DockerCall, create_exec, start_exec, inspect_exec, Engine, DockerExecuter, docker_cmd, execute,
  stop,
}

-- Histories that continue another by commands in the executer's container. Each command is created
-- as an exec of the container; if it was, it is started; and if it ran without an error of the
-- engine's, its exit is inspected.
pub data AreExecs (engine : Engine) (e : DockerExecuter) (start : List DockerCall)
    : List DockerCall → Type 0 where
  before : AreExecs engine e start start
  refused :
      (args : List Bytes) (x : Error) (h : List DockerCall)
      → engine.exec_created h ≡ err x
      → AreExecs engine e start h
      → AreExecs engine e start (create_exec e.container (docker_cmd e args) ∷ h)
  broken :
      (args : List Bytes) (exec out : Bytes) (x : Error) (h : List DockerCall)
      → engine.exec_created h ≡ ok exec
      → engine.exec_ran (create_exec e.container (docker_cmd e args) ∷ h) ≡ (out, some x)
      → AreExecs engine e start h
      → AreExecs engine e start (start_exec exec ∷ create_exec e.container (docker_cmd e args) ∷ h)
  inspected :
      (args : List Bytes) (exec out : Bytes) (h : List DockerCall)
      → engine.exec_created h ≡ ok exec
      → engine.exec_ran (create_exec e.container (docker_cmd e args) ∷ h) ≡ (out, none)
      → AreExecs engine e start h
      → AreExecs engine e start
          (inspect_exec exec ∷ start_exec exec ∷ create_exec e.container (docker_cmd e args) ∷ h)

-- The value of a computation that returned one.
abbrev answered : Result (Bytes × Option Error) → Bytes × Option Error
answered (ok r) = r
answered (err e) = ([], some e)
answered (panic m) = ([], none)

-- What the container answers to a command.
abbrev pub container_answer : Engine → DockerExecuter → Answers DockerCall
container_answer engine e args h = answered (execute engine e args h).0

-- The executer as `Analyse` takes it. Stopping it is its caller's.
abbrev pub docker_executer : Engine → DockerExecuter → Executer DockerCall
docker_executer engine e = record { execute = execute engine e; stop = stop engine e }

module _ (engine : Engine) (e : DockerExecuter)
    (creates : (h : List DockerCall) (m : Bytes) → engine.exec_created h ≢ panic m)
    (inspects : (h : List DockerCall) (m : Bytes) → engine.exec_inspected h ≢ panic m)
    (start : List DockerCall) where
  -- How a command ends: with a value, after calls in the container.
  abbrev Executes : Result (Bytes × Option Error) × List DockerCall → Type 0
  Executes (r, h) = AreExecs engine e start h × (r ≡ ok (answered r))

  inspected-Executes :
      (args : List Bytes) (exec out : Bytes) (h : List DockerCall) (code : Result ℤ)
      → engine.exec_created h ≡ ok exec
      → engine.exec_ran (create_exec e.container (docker_cmd e args) ∷ h) ≡ (out, none)
      → engine.exec_inspected (start_exec exec ∷ create_exec e.container (docker_cmd e args) ∷ h)
        ≡ code
      → AreExecs engine e start h
      → Executes (execute engine e args h)
  unfolding execute
  inspected-Executes args exec out h (ok code) created ran q execs =
      rw (created, ran, q) (inspected args exec out h created ran execs, refl)
  inspected-Executes args exec out h (err x) created ran q execs =
      rw (created, ran, q) (inspected args exec out h created ran execs, refl)
  inspected-Executes args exec out h (panic m) created ran q execs = absurd (inspects _ m q)

  ran-Executes :
      (args : List Bytes) (exec : Bytes) (h : List DockerCall) (answer : Bytes × Option Error)
      → engine.exec_created h ≡ ok exec
      → engine.exec_ran (create_exec e.container (docker_cmd e args) ∷ h) ≡ answer
      → AreExecs engine e start h
      → Executes (execute engine e args h)
  unfolding execute
  ran-Executes args exec h (out, none) created q execs =
      inspected-Executes args exec out h _ created q refl execs
  ran-Executes args exec h (out, some x) created q execs =
      rw (created, q) (broken args exec out x h created q execs, refl)

  created-Executes :
      (args : List Bytes) (h : List DockerCall) (created : Result Bytes)
      → engine.exec_created h ≡ created
      → AreExecs engine e start h
      → Executes (execute engine e args h)
  unfolding execute
  created-Executes args h (ok exec) q execs = ran-Executes args exec h _ q refl execs
  created-Executes args h (err x) q execs = rw q (refused args x h q execs, refl)
  created-Executes args h (panic m) q execs = absurd (creates h m q)

-- A result, and the calls that were made for it, all in the container; without an error, the answer
-- to each command that ran is tolerated.
abbrev pub IsContained :
    Engine → DockerExecuter → List DockerCall → Result Analysis × List DockerCall → Type 0
IsContained engine e start (r, h) =
    AreExecs engine e start h
    × ((d : Commands) × (h ≡ replay (docker_executer engine e) (container_answer engine e) start d)
        × Keeps (machine_of (docker_executer engine e) (container_answer engine e) start) (r, d))

module _ (engine : Engine) (e : DockerExecuter)
    (creates : (h : List DockerCall) (m : Bytes) → engine.exec_created h ≢ panic m)
    (inspects : (h : List DockerCall) (m : Bytes) → engine.exec_inspected h ≢ panic m) where
  execute_answers :
      (args : List Bytes) (h : List DockerCall)
      → (execute engine e args h).0 ≡ ok (container_answer engine e args h)
  execute_answers args h = (created-Executes engine e creates inspects h args h _ refl before).1

  replay-AreExecs :
      (start : List DockerCall) (d : Commands)
      → AreExecs engine e start
          (replay (docker_executer engine e) (container_answer engine e) start d)
  replay-AreExecs start [] = before
  replay-AreExecs start (args ∷ d) =
      (created-Executes engine e creates inspects start args _ _ refl (replay-AreExecs start d)).0

  -- If the engine's client does not panic, then all that `Analyse` does with an executer of Docker
  -- is to run its commands in the executer's container: it creates an exec of the container for
  -- each, starts it if it was created, and inspects it if the start gave no error. And if it returns no error,
  -- each of these commands succeeded, exited with a non-zero status, or was a `git diff`.
  pub analyse-IsContained :
      (lib : Library DockerCall) (start : List DockerCall) (cloner : Cloner) (preset : List Tool)
      (r : RefReader) (head_ref : Bytes) (a : Analysis)
      → IsContained engine e start
          (analyse lib (docker_executer engine e) cloner preset r head_ref a start)
  analyse-IsContained lib start cloner preset r head_ref a =
      let exec = docker_executer engine e in
      let answer = container_answer engine e in
      let machine = machine_of exec answer start in
      let lib' = library_of exec answer start lib in
      let n = analyse lib' (executer_of machine) cloner preset r head_ref a [] in
      rw (analyse-replayed lib exec answer start execute_answers cloner preset r head_ref a) (
        replay-AreExecs start n.1,
        (n.1, refl, analyse-Keeps machine lib' cloner preset r head_ref a [] tt),
      )
