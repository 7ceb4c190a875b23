-- ===== src/Analyser/Filesystem.antt =====
-- internal/analyser/filesystem.go: executers that run commands in a directory. The file system's
-- answers, the clock, the environment and `filepath.Join` are parameters.
pub mod Sandbox
use gopherci.Common.{
  ℕ, ◌*◌, List, [], ◌∷◌, ◌++◌, Option, none, some, Bytes, lit, itoa, join, ok, Go, ask, pure, check,
  ◌>>=◌, ◌>>◌, Error, wrap, non_zero, ℤ,
}

pub data FilesystemCall : Type 0 where
  access : (path : Bytes) → FilesystemCall
  mkdir_all : (path : Bytes) → FilesystemCall
  combined_output : (args : List Bytes) → (dir : Bytes) → (env : List Bytes) → FilesystemCall
  remove_all : (path : Bytes) → FilesystemCall

-- How bash ends.
pub data Ran : Type 0 where
  succeeded : Ran
  exited : (status : ℤ) → Ran
  not_run : Error → Ran

pub record Disk : Type 0 where
  pub unix_nano : List FilesystemCall → ℕ
  pub join_path : List Bytes → Bytes
  pub path_variable : Bytes
  pub quoted : Bytes → Bytes
  pub accessed : List FilesystemCall → Option Error
  pub made : List FilesystemCall → Option Error
  pub ran : List FilesystemCall → Bytes × Ran
  pub removed : List FilesystemCall → Option Error

pub record Filesystem : Type 0 where
  pub base : Bytes
  pub mem_limit : ℕ

pub record FilesystemExecuter : Type 0 where
  pub gopath : Bytes
  pub projpath : Bytes
  pub mem_limit : ℕ

-- The arguments of `bash`.
unfoldable pub bash_args : FilesystemExecuter → List Bytes → List Bytes
bash_args e args =
    let limit = lit "ulimit -v " ++ itoa (e.mem_limit * 1024) in
    lit "bash" ∷ lit "-c" ∷ (limit ++ (lit " && " ++ join (lit " ") args)) ∷ []

-- An error of the kind `*exec.ExitError` becomes a `NonZeroError`.
unfoldable pub run_results : List Bytes → Bytes × Ran → Bytes × Option Error
run_results args (out, succeeded) = (out, none)
run_results args (out, exited status) = (out, some (non_zero args status))
run_results args (out, not_run e) = (out, some e)

module _ (disk : Disk) where
  -- `NewFileSystem`
  unfoldable pub new_filesystem : Bytes → ℕ → Go FilesystemCall Filesystem
  new_filesystem base mem_limit = do
    failure ← ask (access base) (λ h. ok (disk.accessed h))
    check failure (λ e. wrap e (disk.quoted base ++ lit " is not writable")) (pure tt)
    pure (record { base = base; mem_limit = mem_limit })

  -- `mktemp`, which fills in an executer that has its limit.
  unfoldable pub mktemp : Bytes → Bytes → ℕ → Go FilesystemCall FilesystemExecuter
  mktemp base go_src_path mem_limit start =
      let gopath = disk.join_path (base ∷ itoa (disk.unix_nano start) ∷ []) in
      let projpath = disk.join_path (gopath ∷ lit "src" ∷ go_src_path ∷ []) in
      (do
        failure ← ask (mkdir_all projpath) (λ h. ok (disk.made h))
        check failure (λ e. wrap e (lit "fsExecuter.Mktemp: cannot mkdir")) (pure tt)
        pure (record { gopath = gopath; projpath = projpath; mem_limit = mem_limit }))
        start

  -- `NewExecuter`
  unfoldable pub new_executer : Filesystem → Bytes → Go FilesystemCall FilesystemExecuter
  unfolding mktemp
  new_executer fs go_src_path = mktemp fs.base go_src_path fs.mem_limit

  -- `Execute`
  unfoldable pub execute :
      FilesystemExecuter → List Bytes → Go FilesystemCall (Bytes × Option Error)
  unfolding bash_args run_results
  execute e args = do
    let bash = bash_args e args
    let env = (lit "GOPATH=" ++ e.gopath) ∷ (lit "PATH=" ++ disk.path_variable) ∷ []
    ran ← ask (combined_output bash e.projpath env) (λ h. ok (disk.ran h))
    pure (run_results bash ran)

  -- `Stop`
  unfoldable pub stop : FilesystemExecuter → Go FilesystemCall (Option Error)
  stop e = ask (remove_all e.gopath) (λ h. ok (disk.removed h))
