-- ===== src/Analyser/Run.antt =====
-- internal/analyser/analyser.go: `Analyse`, which runs the tools on a repository.
pub mod Honest
pub mod Filter
use gopherci.Common.{
  ℕ, List, [], ◌∷◌, ◌++◌, Option, none, some, Bytes, lit, trim_space, fields, ◌==◌, bytes_eq,
  nat_eq, if◌then◌else◌, ok, Go, pure, fail, check, wrapping, ◌>>=◌, ◌>>◌, Error, non_zero, pos,
  insert,
}
use gopherci.Db.{Tool, Issue, AnalysisTool, Analysis}
use gopherci.Analyser.{
  Executer, RevIssue, Library, Cloner, RefReader, run_plain, plain_failure, clone, base,
  read_config, get_patch, install_apt_packages,
}

-- `ArgBaseBranch` is replaced by the base ref.
abbrev pub arg_base_branch : Bytes
arg_base_branch = lit "%BASE_BRANCH%"

abbrev pub tool_args : Bytes → List Bytes → List Bytes
tool_args base_ref [] = []
tool_args base_ref (arg ∷ args) =
    (if arg == arg_base_branch then base_ref else arg) ∷ tool_args base_ref args

abbrev pub env_args : List (List Bytes)
env_args =
    (lit "go" ∷ lit "env" ∷ [])
    ∷ (lit "go" ∷ lit "version" ∷ [])
    ∷ (lit "cat" ∷ lit "/proc/self/limits" ∷ [])
    ∷ (lit "lsb_release" ∷ lit "--description" ∷ [])
    ∷ []

-- The issue that is recorded: "%s: %s" of the tool's name and the message.
unfoldable pub issue_of : Tool → RevIssue → Issue
issue_of tool i = record {
  id = 0;
  path = i.file;
  line = i.line_no;
  hunk_pos = i.hunk_pos;
  issue = tool.name ++ (lit ": " ++ i.message);
}

-- What the exit of `isFileGenerated` says of the file.
pub data Generated : Type 0 where
  generated not_generated : Generated
  unknown : Error → Generated

unfoldable pub generated_by : Option Error → Generated
generated_by none = generated
generated_by (some (non_zero args (pos n))) =
    if n == 1 then not_generated else unknown (non_zero args (pos n))
generated_by (some e) = unknown e

module _ {C : Type 0} (lib : Library C) (exec : Executer C) where
  unfoldable pub show_environment : List (List Bytes) → Go C (Unit {0})
  show_environment [] = pure tt
  show_environment (args ∷ rest) = do run_plain lib exec args; show_environment rest

  abbrev pub generated_args : Bytes → RevIssue → List Bytes
  generated_args pwd i = lit "isFileGenerated" ∷ pwd ∷ i.file ∷ []

  -- The body of the loop over revgrep's issues, from the answer about the file's origin.
  abbrev pub keep_issue : Tool → Bytes → RevIssue → Bytes → Generated → Go C (List Issue)
  keep_issue tool pwd i out generated = pure []
  keep_issue tool pwd i out not_generated = pure (issue_of tool i ∷ [])
  keep_issue tool pwd i out (unknown e) = fail (plain_failure (generated_args pwd i) out e)

  unfoldable pub filter_issues : Tool → Bytes → List RevIssue → Go C (List Issue)
  unfolding generated_by
  filter_issues tool pwd [] = pure []
  filter_issues tool pwd (i ∷ rest) = do
    r ← exec.execute (generated_args pwd i)
    kept ← keep_issue tool pwd i r.0 (generated_by r.1)
    others ← filter_issues tool pwd rest
    pure (kept ++ others)

  -- A non-zero exit of a tool is normal.
  abbrev pub tool_error : Option Error → Option Error
  tool_error (some (non_zero _ _)) = none
  tool_error e = e

  -- The issues in a tool's output.
  unfoldable pub check_output : Bytes → Bytes → Tool → Bytes → Go C (List Issue)
  check_output patch pwd tool out =
      (λ h. (lib.revgrep patch tool.regexp pwd out, h)) >>= filter_issues tool pwd

  -- The body of the loop over the tools, whose time runs from `start`.
  abbrev pub run_tool_from : List C → Bytes → Bytes → Bytes → Tool → Go C AnalysisTool
  run_tool_from start base_ref patch pwd tool = do
    let args = tool.path ∷ tool_args base_ref (fields tool.args)
    r ← exec.execute args
    check (tool_error r.1) (plain_failure args r.0) (pure tt)
    issues ← check_output patch pwd tool r.0
    λ h. (
      ok (record { tool = none; tool_id = 0; duration = lib.elapsed start h; issues = issues }),
      h,
    )

  unfoldable pub run_tool : Bytes → Bytes → Bytes → Tool → Go C AnalysisTool
  run_tool base_ref patch pwd tool start = run_tool_from start base_ref patch pwd tool start

  unfoldable pub run_tools : Bytes → Bytes → Bytes → List Tool → Analysis → Go C Analysis
  run_tools base_ref patch pwd [] a = pure a
  run_tools base_ref patch pwd (tool ∷ tools) a = do
    result ← run_tool base_ref patch pwd tool
    run_tools base_ref patch pwd tools (record a { tools = insert tool.id result a.tools })

  -- How long a computation takes.
  unfoldable pub timed : {A : Type 0} → Go C A → Go C ℕ
  timed m start = (m >>= λ _ h. (ok (lib.elapsed start h), h)) start

  -- From the configuration on: everything after the clone.
  unfoldable pub analyse_clone :
      List Tool → RefReader → (head_ref : Bytes) → Analysis → Go C Analysis
  analyse_clone preset ref_reader head_ref a = do
    config ← wrapping (lit "could not configure repository") (read_config lib exec preset)
    show_environment env_args
    wrapping (lit "could not install packages") (install_apt_packages lib exec config.apt_packages)
    base_ref ← wrapping (lit "could not get base ref") (base lib exec ref_reader)
    patch ← wrapping (lit "could not get patch") (get_patch lib exec base_ref head_ref)
    deps ← timed (run_plain lib exec (lit "install-deps.sh" ∷ []))
    pwd ← run_plain lib exec (lit "pwd" ∷ [])
    run_tools base_ref patch (trim_space pwd) config.tools (record a { deps_duration = deps })

  -- `Analyse`, whose time runs from `start`.
  abbrev pub analyse_from :
      List C → Cloner → List Tool → RefReader → (head_ref : Bytes) → Analysis → Go C Analysis
  analyse_from start cloner preset ref_reader head_ref a = do
    wrapping (lit "could not clone") (clone lib exec cloner)
    cloned ← (λ h. (ok (lib.elapsed start h), h))
    b ← analyse_clone preset ref_reader head_ref (record a { clone_duration = cloned })
    λ h. (ok (record b { total_duration = lib.elapsed start h }), h)

  -- `Analyse`. On an error Go leaves the analysis partly filled in; no caller reads it then.
  unfoldable pub analyse :
      Cloner → List Tool → RefReader → (head_ref : Bytes) → Analysis → Go C Analysis
  analyse cloner preset ref_reader head_ref a start =
      analyse_from start cloner preset ref_reader head_ref a start
