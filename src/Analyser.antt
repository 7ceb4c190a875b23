-- ===== src/Analyser.antt =====
-- internal/analyser: the interfaces of analyser.go, and the commands of cloner.go, refReader.go,
-- configReader.go and of the helpers in analyser.go.
pub mod Suppress
pub mod Machine
pub mod Honesty
pub mod Run
pub mod Quiet
pub mod Replay
pub mod Docker
pub mod Filesystem
use gopherci.Common.{
  ℕ, ◌≡◌, Bool, true, false, List, [], ◌∷◌, ◌++◌, Option, none, some, Bytes, lit, itoa, length,
  join, trim_space, Result, ok, err, Go, pure, fail, check, wrapping, ◌>>=◌, ◌>>◌, Error, message,
  wrap, non_zero, ℤ, show_args, error_text,
}
use gopherci.Db.{Tool}

-- Commands run, by the calls that they make of the outside; a command gives its output and an
-- error.
pub record Executer (C : Type 0) : Type 0 where
  pub execute : List Bytes → Go C (Bytes × Option Error)
  pub stop : Go C (Unit {0})

pub record RepoConfig : Type 0 where
  pub apt_packages : List Bytes
  pub tools : List Tool

-- An issue that revgrep finds.
pub record RevIssue : Type 0 where
  pub file : Bytes
  pub line_no : ℕ
  pub hunk_pos : ℕ
  pub message : Bytes

-- What the package takes from others: revgrep's `Checker.Check` (its patch, regular expression,
-- working directory and the tool's output), `yaml.Unmarshal` onto a configuration, the `%q` of
-- fmt, and the wall clock time between two points of a history.
pub record Library (C : Type 0) : Type 0 where
  pub revgrep : (patch regexp abs_path output : Bytes) → Result (List RevIssue)
  pub unmarshal : Bytes → RepoConfig → Result RepoConfig
  pub quoted : Bytes → Bytes
  pub elapsed : List C → List C → ℕ

-- The implementations of `Cloner`, with their fields.
pub data Cloner : Type 0 where
  pull_request_cloner : (head_url head_ref base_url base_ref : Bytes) → Cloner
  push_cloner : (head_url head_ref : Bytes) → Cloner

-- The implementations of `RefReader`.
pub data RefReader : Type 0 where
  merge_base : RefReader
  fixed_ref : (base_ref : Bytes) → RefReader

abbrev pub depth : Bytes
depth = lit "1000"

-- "could not execute %v: %q"
unfoldable pub quoted_failure : (Bytes → Bytes) → List Bytes → Bytes → Bytes
quoted_failure quoted args out =
    lit "could not execute " ++ (show_args args ++ (lit ": " ++ quoted out))

-- fmt.Errorf("could not execute %v: %s\n%s", args, err, out)
unfoldable pub plain_failure : List Bytes → Bytes → Error → Error
plain_failure args out e = message (
    lit "could not execute "
    ++ (show_args args ++ (lit ": " ++ (error_text e ++ (lit "\n" ++ out)))))

module _ {C : Type 0} (lib : Library C) (exec : Executer C) where
  -- A command whose error is returned with the message of `quoted_failure`.
  unfoldable pub run_quoted : List Bytes → Go C Bytes
  run_quoted args = do
    r ← exec.execute args
    check r.1 (λ e. wrap e (quoted_failure lib.quoted args r.0)) (pure r.0)

  -- A command whose error is returned as `plain_failure`.
  unfoldable pub run_plain : List Bytes → Go C Bytes
  run_plain args = do r ← exec.execute args; check r.1 (plain_failure args r.0) (pure r.0)

  abbrev pub clone_args : Bytes → Bytes → List Bytes
  clone_args head_ref head_url =
      lit "git"
      ∷ lit "clone"
      ∷ lit "--depth"
      ∷ depth
      ∷ lit "--branch"
      ∷ head_ref
      ∷ lit "--single-branch"
      ∷ head_url
      ∷ lit "."
      ∷ []

  unfoldable pub clone : Cloner → Go C (Unit {0})
  unfolding run_quoted
  clone (pull_request_cloner head_url head_ref base_url base_ref) = do
    run_quoted (clone_args head_ref head_url)
    run_quoted (lit "git" ∷ lit "fetch" ∷ lit "--depth" ∷ depth ∷ base_url ∷ base_ref ∷ [])
    pure tt
  clone (push_cloner head_url head_ref) = do
    run_quoted (lit "git" ∷ lit "clone" ∷ head_url ∷ lit "." ∷ [])
    run_quoted (lit "git" ∷ lit "checkout" ∷ head_ref ∷ [])
    pure tt

  abbrev pub merge_base_args : List Bytes
  merge_base_args = lit "git" ∷ lit "merge-base" ∷ lit "FETCH_HEAD" ∷ lit "HEAD" ∷ []

  unfoldable pub base : RefReader → Go C Bytes
  unfolding run_quoted
  base merge_base = do out ← run_quoted merge_base_args; pure (trim_space out)
  base (fixed_ref base_ref) = pure base_ref

  abbrev pub config_filename : Bytes
  config_filename = lit ".gopherci.yml"

  -- What `Read` makes of the file's text and of the error of `cat`.
  abbrev pub after_cat : RepoConfig → Bytes → Option Error → Go C RepoConfig
  after_cat cfg yml (some (non_zero _ _)) = pure cfg
  after_cat cfg yml (some e) = fail (wrap e (lit "could not read .gopherci.yml"))
  after_cat cfg yml none =
      wrapping (lit "could not unmarshal .gopherci.yml") (λ h. (lib.unmarshal yml cfg, h))

  -- `YAMLConfig.Read`, for a reader whose preset tools are `tools`.
  unfoldable pub read_config : List Tool → Go C RepoConfig
  read_config tools = do
    let cfg : RepoConfig = record { apt_packages = []; tools = tools }
    r ← exec.execute (lit "cat" ∷ config_filename ∷ [])
    after_cat cfg r.0 r.1

  abbrev pub diff_args : Bytes → Bytes → List Bytes
  diff_args base_ref head_ref = lit "git" ∷ lit "diff" ∷ (base_ref ++ (lit "..." ++ head_ref)) ∷ []

  abbrev pub show_head_args : Bytes → List Bytes
  show_head_args head_ref = lit "git" ∷ lit "show" ∷ head_ref ∷ []

  -- "could not execute %v: %s after trying to execute %v: %v"
  unfoldable pub show_failure : List Bytes → Error → List Bytes → Error → Error
  show_failure show_args' show_err args e = message (
      lit "could not execute "
      ++ (show_args show_args'
          ++ (lit ": "
              ++ (error_text show_err
                  ++ (lit " after trying to execute "
                      ++ (show_args args ++ (lit ": " ++ error_text e)))))))

  -- The fallback on `git show` if `git diff` failed.
  abbrev pub or_show : (base_ref head_ref patch : Bytes) → Option Error → Go C Bytes
  or_show base_ref head_ref patch none = pure patch
  or_show base_ref head_ref patch (some e) = do
    r ← exec.execute (show_head_args head_ref)
    check r.1
        (λ show_err.
          show_failure (show_head_args head_ref) show_err (diff_args base_ref head_ref) e)
        (pure r.0)

  unfoldable pub get_patch : Bytes → Bytes → Go C Bytes
  get_patch base_ref head_ref = do
    r ← exec.execute (diff_args base_ref head_ref)
    or_show base_ref head_ref r.0 r.1

  unfoldable pub install_apt_packages : List Bytes → Go C (Unit {0})
  install_apt_packages [] = pure tt
  install_apt_packages (p ∷ packages) = do
    r ← exec.execute (lit "apt-get" ∷ lit "install" ∷ lit "-y" ∷ p ∷ packages)
    check r.1
        (λ e.
          wrap e
            (lit "could not install " ++ (itoa (length (p ∷ packages)) ++ lit " apt_packages")))
        (pure tt)
