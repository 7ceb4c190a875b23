-- ===== src/Analyser/Filesystem/Sandbox.antt =====
-- internal/analyser: `Analyse` with an executer of the file system.
use gopherci.Common.{
  ◌≡◌, refl, ap, List, [], ◌∷◌, ◌++◌, Bytes, lit, Result, ok, err, panic, some, sym, pure, ◌>>◌,
}
use gopherci.Db.{Tool, Analysis}
use gopherci.Analyser.{Executer, Library, Cloner, RefReader}
use gopherci.Analyser.Machine.{Machine, Commands, executer_of}
use gopherci.Analyser.Run.{analyse}
use gopherci.Analyser.Honesty.{Tolerated, IsHonest, Keeps}
use gopherci.Analyser.Run.Honest.{analyse-Keeps}
use gopherci.Analyser.Replay.{Answers, replay, machine_of, library_of, analyse-replayed}
use gopherci.Analyser.Filesystem.{
  FilesystemCall, combined_output, Ran, succeeded, exited, not_run, Disk, FilesystemExecuter,
  bash_args, run_results, execute, stop,
}

-- The environment of the commands.
abbrev pub env_of : Disk → FilesystemExecuter → List Bytes
env_of disk e = (lit "GOPATH=" ++ e.gopath) ∷ (lit "PATH=" ++ disk.path_variable) ∷ []

-- One run of bash for each command, newest first: all in the executer's directory and environment.
unfoldable pub runs :
    Disk → FilesystemExecuter → List FilesystemCall → Commands → List FilesystemCall
runs disk e start [] = start
runs disk e start (args ∷ d) =
    combined_output (bash_args e args) e.projpath (env_of disk e) ∷ runs disk e start d

-- What bash answers to a command.
abbrev pub bash_answer : Disk → FilesystemExecuter → Answers FilesystemCall
bash_answer disk e args h = run_results (bash_args e args) (disk.ran h)

-- The executer as `Analyse` takes it. Stopping it is its caller's.
abbrev pub filesystem_executer : Disk → FilesystemExecuter → Executer FilesystemCall
filesystem_executer disk e = record { execute = execute disk e; stop = stop disk e >> pure tt }

module _ (disk : Disk) (e : FilesystemExecuter) where
  pub execute_answers :
      (args : List Bytes) (h : List FilesystemCall)
      → (execute disk e args h).0 ≡ ok (bash_answer disk e args h)
  unfolding execute
  execute_answers args h = refl

  replay-runs :
      (start : List FilesystemCall) (d : Commands)
      → replay (filesystem_executer disk e) (bash_answer disk e) start d ≡ runs disk e start d
  unfolding execute runs
  replay-runs start [] = refl
  replay-runs start (args ∷ d) =
      ap (λ h. combined_output (bash_args e args) e.projpath (env_of disk e) ∷ h)
        (replay-runs start d)

-- Which ends of bash may stand in a successful analysis: any exit, and a failure to run it only for
-- `git diff`.
abbrev pub Passed : List Bytes → Ran → Type 0
Passed args succeeded = Unit
Passed args (exited status) = Unit
Passed args (not_run e) = Tolerated args (some e)

-- All commands ended so.
abbrev pub AllPassed : Disk → FilesystemExecuter → List FilesystemCall → Commands → Type 0
AllPassed disk e start [] = Unit
AllPassed disk e start (args ∷ d) =
    Passed args (disk.ran (runs disk e start d)).1 × AllPassed disk e start d

abbrev pub PassedIfOk :
    {A : Type 0} → Disk → FilesystemExecuter → List FilesystemCall → Result A → Commands → Type 0
PassedIfOk disk e start (ok a) d = AllPassed disk e start d
PassedIfOk disk e start (err x) d = Unit
PassedIfOk disk e start (panic m) d = Unit

-- A result, the commands that ran, and the calls that were made for them.
abbrev pub IsSandboxed :
    Disk → FilesystemExecuter → List FilesystemCall → Result Analysis × List FilesystemCall → Type 0
IsSandboxed disk e start (r, h) =
    (d : Commands) × (h ≡ runs disk e start d) × PassedIfOk disk e start r d

module _ (disk : Disk) (e : FilesystemExecuter) (start : List FilesystemCall) where
  abbrev machine : Machine
  machine = machine_of (filesystem_executer disk e) (bash_answer disk e) start

  results-Passed :
      (bash args : List Bytes) (out : Bytes) (ran : Ran)
      → Tolerated args (run_results bash (out, ran)).1
      → Passed args ran
  unfolding run_results
  results-Passed bash args out succeeded t = tt
  results-Passed bash args out (exited status) t = tt
  results-Passed bash args out (not_run x) t = t

  IsHonest-AllPassed : (d : Commands) → IsHonest machine d → AllPassed disk e start d
  IsHonest-AllPassed [] honest = tt
  IsHonest-AllPassed (args ∷ d) (t, honest) = (
    results-Passed (bash_args e args) args (disk.ran (runs disk e start d)).0 _
        (rw (sym (replay-runs disk e start d)) t),
    IsHonest-AllPassed d honest,
  )

  Keeps-PassedIfOk :
      (r : Result Analysis) (d : Commands) → Keeps machine (r, d) → PassedIfOk disk e start r d
  Keeps-PassedIfOk (ok a) d keeps = IsHonest-AllPassed d keeps
  Keeps-PassedIfOk (err x) d keeps = tt
  Keeps-PassedIfOk (panic m) d keeps = tt

module _ (disk : Disk) (lib : Library FilesystemCall) (e : FilesystemExecuter)
    (start : List FilesystemCall) where
  abbrev exec : Executer FilesystemCall
  exec = filesystem_executer disk e

  -- All that `Analyse` does with an executer of the file system is to run bash, once for each of
  -- its commands, always in the executer's project directory and with its GOPATH and the PATH of
  -- the process alone as the environment. If it returns no error, bash exited, with any status, for
  -- each of these commands; a failure to run bash is passed over only for a `git diff`, or if the
  -- failure is itself the error of a non-zero exit.
  pub analyse-IsSandboxed :
      (cloner : Cloner) (preset : List Tool) (r : RefReader) (head_ref : Bytes) (a : Analysis)
      → IsSandboxed disk e start
          (analyse lib (filesystem_executer disk e) cloner preset r head_ref a start)
  analyse-IsSandboxed cloner preset r head_ref a =
      let answer = bash_answer disk e in
      let lib' = library_of exec answer start lib in
      let n = analyse lib' (executer_of (machine disk e start)) cloner preset r head_ref a [] in
      rw
        (analyse-replayed lib exec answer start (execute_answers disk e) cloner preset r head_ref a)
        (
          n.1,
          replay-runs disk e start n.1,
          Keeps-PassedIfOk disk e start n.0 n.1
              (analyse-Keeps (machine disk e start) lib' cloner preset r head_ref a [] tt),
        )
