-- ===== src/Analyser/Docker.antt =====
-- internal/analyser/docker.go: executers that run commands in a container. The engine's answers,
-- the clock and `filepath.Join` are parameters.
pub mod Cleanup
pub mod Connect
pub mod Contained
use gopherci.Common.{
  ℕ, zero, ◌*◌, List, [], ◌∷◌, ◌++◌, Option, none, some, Bytes, lit, itoa, itoa_signed, join,
  show_args, Result, ok, err, panic, Go, ask, pure, fail, check, wrapping, ◌>>=◌, ◌>>◌, Error,
  message, wrap, non_zero, ℤ, pos, if◌then◌else◌, ◌==◌, nat_eq, to_result,
}

pub data DockerCall : Type 0 where
  create_container : (name image : Bytes) → DockerCall
  start_container : (id : Bytes) → DockerCall
  create_exec : (id : Bytes) → (cmd : List Bytes) → DockerCall
  start_exec : (exec_id : Bytes) → DockerCall
  inspect_exec : (exec_id : Bytes) → DockerCall
  stop_container : (id : Bytes) → DockerCall
  remove_container : (id : Bytes) → DockerCall

pub record Engine : Type 0 where
  pub unix_nano : List DockerCall → ℕ
  pub join_path : List Bytes → Bytes
  pub quoted : Bytes → Bytes
  pub container_created : List DockerCall → Result Bytes
  pub container_started : List DockerCall → Option Error
  pub exec_created : List DockerCall → Result Bytes
  pub exec_ran : List DockerCall → Bytes × Option Error
  pub exec_inspected : List DockerCall → Result ℤ
  pub container_stopped : List DockerCall → Option Error
  pub container_removed : List DockerCall → Option Error

pub record Docker : Type 0 where
  pub image : Bytes
  pub mem_limit : ℕ

pub record DockerExecuter : Type 0 where
  pub container : Bytes
  pub proj_path : Bytes
  pub mem_limit : ℕ

unfoldable pub docker_cmd : DockerExecuter → List Bytes → List Bytes
docker_cmd e args =
    let limit = lit "ulimit -v " ++ itoa (e.mem_limit * 1024) in
    let cd = lit "cd " ++ (e.proj_path ++ (lit "; " ++ join (lit " ") args)) in
    lit "bash" ∷ lit "-c" ∷ (limit ++ (lit " && " ++ cd)) ∷ []

-- The results for an exit status: a status other than 0 is an error.
unfoldable pub exit_results : List Bytes → Bytes → ℤ → Bytes × Option Error
exit_results args out (pos zero) = (out, none)
exit_results args out code = (out, some (non_zero args code))

-- `return nil, err`
abbrev pub returned : Result (Bytes × Option Error) → Result (Bytes × Option Error)
returned (ok r) = ok r
returned (err e) = ok ([], some e)
returned (panic m) = panic m

abbrev pub values : Go DockerCall (Bytes × Option Error) → Go DockerCall (Bytes × Option Error)
values m h = let (r, h') = m h in (returned r, h')

module _ (engine : Engine) where
  -- `Execute`
  unfoldable pub execute : DockerExecuter → List Bytes → Go DockerCall (Bytes × Option Error)
  unfolding docker_cmd exit_results
  execute e args = values (do
    let cmd = docker_cmd e args
    exec ←
        wrapping (lit "could not create exec for containerID " ++ e.container)
          (ask (create_exec e.container cmd) (λ h. engine.exec_created h))
    ran ← ask (start_exec exec) (λ h. ok (engine.exec_ran h))
    check ran.1
        (λ x. wrap x (
          lit "could not start exec, cmd: "
          ++ (show_args cmd ++ (lit " containerID " ++ e.container))))
        (pure tt)
    code ←
        wrapping (lit "could not inspect exec for containerID " ++ e.container)
          (ask (inspect_exec exec) (λ h. engine.exec_inspected h))
    pure (exit_results args ran.0 code))

  -- `Stop`, which only logs errors.
  unfoldable pub stop : DockerExecuter → Go DockerCall (Unit {0})
  stop e = do
    ask (stop_container e.container) (λ h. ok (engine.container_stopped h))
    ask (remove_container e.container) (λ h. ok (engine.container_removed h))
    pure tt

  -- `exec.Stop(ctx)`, then the error is returned.
  abbrev pub stop_on_error :
      DockerExecuter → Option Error → (Error → Error) → Go DockerCall (Unit {0})
  stop_on_error e none f = pure tt
  stop_on_error e (some x) f = stop e >> fail (f x)

  abbrev pub mkdir_args : DockerExecuter → List Bytes
  mkdir_args e = lit "mkdir" ∷ lit "-p" ∷ e.proj_path ∷ []

  abbrev pub mkdir_failure : DockerExecuter → Bytes → Error → Error
  mkdir_failure e out x = wrap x (
      lit "could not execute "
      ++ (show_args (mkdir_args e) ++ (lit ", output: " ++ engine.quoted out)))

  -- From the created container on.
  unfoldable pub start : DockerExecuter → Go DockerCall DockerExecuter
  start e = do
    failure ← ask (start_container e.container) (λ h. ok (engine.container_started h))
    stop_on_error e failure (λ x. wrap x (lit "could not start container"))
    made ← execute e (mkdir_args e)
    stop_on_error e made.1 (mkdir_failure e made.0)
    pure e

  abbrev pub create : Docker → Go DockerCall Bytes
  create d h =
      wrapping (lit "could not create container")
        (ask (create_container (lit "goperci-" ++ itoa (engine.unix_nano h)) d.image)
          (λ h'. engine.container_created h'))
        h

  abbrev pub executer_for : Docker → (go_src_path : Bytes) → Bytes → DockerExecuter
  executer_for d go_src_path container = record {
    container = container;
    proj_path = engine.join_path (lit "$GOPATH" ∷ lit "src" ∷ go_src_path ∷ []);
    mem_limit = d.mem_limit;
  }

  -- `NewExecuter`
  unfoldable pub new_executer : Docker → (go_src_path : Bytes) → Go DockerCall DockerExecuter
  unfolding start
  new_executer d go_src_path =
      create d >>= λ container. start (executer_for d go_src_path container)
