-- ===== src/Analyser/Docker/Cleanup.antt =====
-- internal/analyser/docker.go: what becomes of a container if no executer can be made.
use gopherci.Common.{
  ◌≡◌, ◌≢◌, refl, List, ◌∷◌, Option, none, some, Bytes, Result, ok, err, panic, Go, pure, and_then,
  ◌>>◌, Error,
}
use gopherci.Analyser.Docker.{
  DockerCall, stop_container, remove_container, Engine, Docker, DockerExecuter, stop, stop_on_error,
  start, create, execute, executer_for, new_executer, mkdir_args, mkdir_failure, returned,
  start_container,
}

-- How an executer is made from a created container: it is that one's; or the last calls stopped and
-- removed the container. (The engine's own panics are left out.)
abbrev pub IsClean : Bytes → Result DockerExecuter × List DockerCall → Type 0
IsClean container (ok e, h) = e.container ≡ container
IsClean container (err _, h) =
    (rest : List DockerCall) × (h ≡ remove_container container ∷ (stop_container container ∷ rest))
IsClean container (panic _, h) = Unit

-- How `NewExecuter` ends after the container's creation.
abbrev pub MakesExecuter :
    Result Bytes × List DockerCall → Result DockerExecuter × List DockerCall → Type 0
MakesExecuter (ok container, h) r = IsClean container r
MakesExecuter (err e, h) r = r ≡ (err e, h)
MakesExecuter (panic m, h) r = r ≡ (panic m, h)

module _ (engine : Engine) where
  stop_on_error-IsClean :
      (e : DockerExecuter) (failure : Option Error) (f : Error → Error) (h : List DockerCall)
      (k : Go DockerCall DockerExecuter)
      → IsClean e.container (k h)
      → IsClean e.container ((stop_on_error engine e failure f >> k) h)
  unfolding stop
  stop_on_error-IsClean e none f h k rest = rest
  stop_on_error-IsClean e (some x) f h k rest = (h, refl)

  made-IsClean :
      (e : DockerExecuter) (r : Result (Bytes × Option Error) × List DockerCall)
      (f : Bytes × Option Error → Error → Error)
      → ((x : Error) → r.0 ≢ err x)
      → IsClean e.container
          (and_then r.0 (λ made. stop_on_error engine e made.1 (f made) >> pure e) r.1)
  made-IsClean e (ok made, h) f never = stop_on_error-IsClean e made.1 (f made) h (pure e) refl
  made-IsClean e (err x, h) f never = absurd (never x refl)
  made-IsClean e (panic _, h) f never = tt

  returned_never : (r : Result (Bytes × Option Error)) (x : Error) → returned r ≢ err x
  returned_never (ok r) x = λ q. absurd (cc q)
  returned_never (err e) x = λ q. absurd (cc q)
  returned_never (panic m) x = λ q. absurd (cc q)

  execute_never :
      (e : DockerExecuter) (args : List Bytes) (h : List DockerCall) (x : Error)
      → (execute engine e args h).0 ≢ err x
  unfolding execute
  execute_never e args h x = returned_never _ x

  start-IsClean :
      (e : DockerExecuter) (h : List DockerCall) → IsClean e.container (start engine e h)
  unfolding start
  start-IsClean e h =
      let h' = start_container e.container ∷ h in
      stop_on_error-IsClean e (engine.container_started h) _ h' _ (
        made-IsClean e (execute engine e (mkdir_args engine e) h')
          (λ made. mkdir_failure engine e made.0) (execute_never e (mkdir_args engine e) h'))

  -- If `NewExecuter` of the Docker analyser creates a container and then fails, be it to start the
  -- container or to make the directory, the last calls stop and remove that container; otherwise
  -- the executer runs in it. If the creation fails, its error is returned and nothing else is done.
  pub new_executer-MakesExecuter :
      (d : Docker) (go_src_path : Bytes) (h : List DockerCall)
      → MakesExecuter (create engine d h) (new_executer engine d go_src_path h)
  unfolding new_executer
  new_executer-MakesExecuter d go_src_path h = created (create engine d h)
    where
      created :
          (r : Result Bytes × List DockerCall)
          → MakesExecuter r (
              and_then r.0
                (λ container. start engine (executer_for engine d go_src_path container))
                r.1)
      created (ok container, h') = start-IsClean (executer_for engine d go_src_path container) h'
      created (err _, h') = refl
      created (panic _, h') = refl
