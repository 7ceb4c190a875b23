-- ===== src/Analyser/Replay.antt =====
-- internal/analyser: an executer whose commands always answer, seen as a machine. The commands that
-- ran stand for the history of the executer's calls.
use gopherci.Common.{
  ◌≡◌, refl, ap, List, [], ◌∷◌, lit, Option, none, some, Bytes, Result, ok, Go, pure, check, Error,
  non_zero, Implements, >>=-Implements, simulation_rules,
}
use gopherci.Db.{Tool, Analysis}
use gopherci.Analyser.{
  Executer, RepoConfig, RevIssue, Library, Cloner, pull_request_cloner, push_cloner, RefReader,
  merge_base, fixed_ref, run_plain, run_quoted, clone, base, read_config, after_cat, get_patch,
  or_show, install_apt_packages, show_failure,
}
use gopherci.Analyser.Machine.{Machine, Commands, executer_of}
use gopherci.Analyser.Run.{
  show_environment, Generated, generated, not_generated, unknown, keep_issue, filter_issues,
  check_output, run_tool, run_tools, timed, analyse_clone, analyse, analyse_from, run_tool_from,
  tool_error,
}

-- The answers of an executer's commands, after the calls made so far.
abbrev pub Answers : Type 0 → Type 0
Answers C = List Bytes → List C → Bytes × Option Error

module _ {C : Type 0} (exec : Executer C) (answer : Answers C) (start : List C) where
  -- The executer's calls after the commands.
  abbrev pub replay : Commands → List C
  replay [] = start
  replay (args ∷ d) = (exec.execute args (replay d)).1

  abbrev pub machine_of : Machine
  machine_of = record { run = λ d args. answer args (replay d) }

  -- What a run on the machine stands for.
  abbrev pub replayed : {A : Type 0} → Result A × Commands → Result A × List C
  replayed (r, d) = (r, replay d)

  -- The library, whose clock is read at the calls that commands stand for.
  abbrev pub library_of : Library C → Library (List Bytes)
  library_of lib = record {
    revgrep = lib.revgrep;
    unmarshal = lib.unmarshal;
    quoted = lib.quoted;
    elapsed = λ from to. lib.elapsed (replay from) (replay to);
  }

module _ {C : Type 0} (lib : Library C) (exec : Executer C) (answer : Answers C) (start : List C)
    (answers : (args : List Bytes) (h : List C)
      → (exec.execute args h).0 ≡ ok (answer args h)) where
  abbrev lib' : Library (List Bytes)
  lib' = library_of exec answer start lib

  abbrev exec' : Executer (List Bytes)
  exec' = executer_of (machine_of exec answer start)

  abbrev Follows : {A : Type 0} → Go C A → Go (List Bytes) A → Type 0
  Follows m n = Implements (replay exec answer start) m n

  execute-Follows : (args : List Bytes) → Follows (exec.execute args) (exec'.execute args)
  execute-Follows args d =
      let h = replay exec answer start d in ap (λ r. (r, (exec.execute args h).1)) (answers args h)

  run_plain-Follows :
      (args : List Bytes) → Follows (run_plain lib exec args) (run_plain lib' exec' args)
  unfolding run_plain
  run_plain-Follows args = search (simulation_rules, execute-Follows)

  run_quoted-Follows :
      (args : List Bytes) → Follows (run_quoted lib exec args) (run_quoted lib' exec' args)
  unfolding run_quoted
  run_quoted-Follows args = search (simulation_rules, execute-Follows)

  clone-Follows : (cloner : Cloner) → Follows (clone lib exec cloner) (clone lib' exec' cloner)
  unfolding clone
  clone-Follows (pull_request_cloner _ _ _ _) = search (simulation_rules, run_quoted-Follows)
  clone-Follows (push_cloner _ _) = search (simulation_rules, run_quoted-Follows)

  base-Follows : (r : RefReader) → Follows (base lib exec r) (base lib' exec' r)
  unfolding base
  base-Follows merge_base = search (simulation_rules, run_quoted-Follows)
  base-Follows (fixed_ref _) = λ d. refl

  after_cat-Follows :
      (cfg : RepoConfig) (yml : Bytes) (e : Option Error)
      → Follows (after_cat lib exec cfg yml e) (after_cat lib' exec' cfg yml e)
  after_cat-Follows cfg yml (some (non_zero _ _)) d = refl
  after_cat-Follows cfg yml (some _) d = refl
  after_cat-Follows cfg yml none d = refl

  read_config-Follows :
      (tools : List Tool) → Follows (read_config lib exec tools) (read_config lib' exec' tools)
  unfolding read_config
  read_config-Follows tools = search (simulation_rules, execute-Follows, after_cat-Follows)

  install_apt_packages-Follows :
      (packages : List Bytes)
      → Follows (install_apt_packages lib exec packages) (install_apt_packages lib' exec' packages)
  unfolding install_apt_packages
  install_apt_packages-Follows [] = λ d. refl
  install_apt_packages-Follows (p ∷ packages) = search (simulation_rules, execute-Follows)

  or_show-Follows :
      (b r patch : Bytes) (e : Option Error)
      → Follows (or_show lib exec b r patch e) (or_show lib' exec' b r patch e)
  unfolding show_failure lit
  or_show-Follows b r patch none = λ d. refl
  or_show-Follows b r patch (some e) = search (simulation_rules, execute-Follows)

  get_patch-Follows : (b r : Bytes) → Follows (get_patch lib exec b r) (get_patch lib' exec' b r)
  unfolding get_patch
  get_patch-Follows b r = search (simulation_rules, execute-Follows, or_show-Follows)

  show_environment-Follows :
      (commands : List (List Bytes))
      → Follows (show_environment lib exec commands) (show_environment lib' exec' commands)
  unfolding show_environment
  show_environment-Follows [] = λ d. refl
  show_environment-Follows (args ∷ rest) =
      search (simulation_rules, run_plain-Follows, show_environment-Follows rest)

  keep_issue-Follows :
      (tool : Tool) (pwd : Bytes) (i : RevIssue) (out : Bytes) (g : Generated)
      → Follows (keep_issue lib exec tool pwd i out g) (keep_issue lib' exec' tool pwd i out g)
  keep_issue-Follows tool pwd i out generated d = refl
  keep_issue-Follows tool pwd i out not_generated d = refl
  keep_issue-Follows tool pwd i out (unknown e) d = refl

  filter_issues-Follows :
      (tool : Tool) (pwd : Bytes) (found : List RevIssue)
      → Follows (filter_issues lib exec tool pwd found) (filter_issues lib' exec' tool pwd found)
  unfolding filter_issues
  filter_issues-Follows tool pwd [] = λ d. refl
  filter_issues-Follows tool pwd (i ∷ rest) =
      search
        (simulation_rules, execute-Follows, keep_issue-Follows, filter_issues-Follows tool pwd rest)

  check_output-Follows :
      (patch pwd : Bytes) (tool : Tool) (out : Bytes)
      → Follows
          (check_output lib exec patch pwd tool out)
          (check_output lib' exec' patch pwd tool out)
  unfolding check_output
  check_output-Follows patch pwd tool out = search (simulation_rules, filter_issues-Follows)

  -- A tool's exit status is passed over in both.
  tool_error-Follows :
      (e : Option Error) (f : Error → Error)
      → Follows
          (check {B = Unit {0}} (tool_error lib exec e) f (pure tt))
          (check (tool_error lib' exec' e) f (pure tt))
  tool_error-Follows (some (non_zero _ _)) f d = refl
  tool_error-Follows (some _) f d = refl
  tool_error-Follows none f d = refl

  -- The loop's body, whose time runs from what the machine's start stands for.
  run_tool_from-Follows :
      (from : Commands) (b patch pwd : Bytes) (tool : Tool)
      → Follows
          (run_tool_from lib exec (replay exec answer start from) b patch pwd tool)
          (run_tool_from lib' exec' from b patch pwd tool)
  run_tool_from-Follows from b patch pwd tool =
      search (simulation_rules, execute-Follows, tool_error-Follows, check_output-Follows) depth 10

  run_tool-Follows :
      (b patch pwd : Bytes) (tool : Tool)
      → Follows (run_tool lib exec b patch pwd tool) (run_tool lib' exec' b patch pwd tool)
  unfolding run_tool
  run_tool-Follows b patch pwd tool d = run_tool_from-Follows d b patch pwd tool d

  run_tools-Follows :
      (b patch pwd : Bytes) (tools : List Tool) (a : Analysis)
      → Follows (run_tools lib exec b patch pwd tools a) (run_tools lib' exec' b patch pwd tools a)
  unfolding run_tools
  run_tools-Follows b patch pwd [] a = λ d. refl
  run_tools-Follows b patch pwd (tool ∷ tools) a =
      search (simulation_rules, run_tool-Follows, run_tools-Follows b patch pwd tools)

  timed-Follows :
      {A : Type 0} (m : Go C A) (n : Go (List Bytes) A)
      → Follows m n
      → Follows (timed lib exec m) (timed lib' exec' n)
  unfolding timed
  timed-Follows m n first d =
      >>=-Implements (replay exec answer start) m n _ _ first (λ _ _. refl) d

  analyse_clone-Follows :
      (preset : List Tool) (r : RefReader) (head_ref : Bytes) (a : Analysis)
      → Follows
          (analyse_clone lib exec preset r head_ref a)
          (analyse_clone lib' exec' preset r head_ref a)
  unfolding analyse_clone
  analyse_clone-Follows preset r head_ref a =
      search
        (
          simulation_rules, read_config-Follows, show_environment-Follows,
          install_apt_packages-Follows, base-Follows, get_patch-Follows, timed-Follows,
          run_plain-Follows, run_tools-Follows,
        )
        depth 30

  analyse_from-Follows :
      (from : Commands) (cloner : Cloner) (preset : List Tool) (r : RefReader) (head_ref : Bytes)
      (a : Analysis)
      → Follows
          (analyse_from lib exec (replay exec answer start from) cloner preset r head_ref a)
          (analyse_from lib' exec' from cloner preset r head_ref a)
  analyse_from-Follows from cloner preset r head_ref a =
      search (simulation_rules, clone-Follows, analyse_clone-Follows) depth 10

  analyse-Follows :
      (cloner : Cloner) (preset : List Tool) (r : RefReader) (head_ref : Bytes) (a : Analysis)
      → Follows
          (analyse lib exec cloner preset r head_ref a)
          (analyse lib' exec' cloner preset r head_ref a)
  unfolding analyse
  analyse-Follows cloner preset r head_ref a d = analyse_from-Follows d cloner preset r head_ref a d

  -- If an executer's commands always answer (they never panic), `Analyse` with it is `Analyse` on
  -- the machine of these answers: it has the same result, and its calls are those of the commands
  -- that the machine ran, in their order, after the calls of the start.
  pub analyse-replayed :
      (cloner : Cloner) (preset : List Tool) (r : RefReader) (head_ref : Bytes) (a : Analysis)
      → analyse lib exec cloner preset r head_ref a start
        ≡ replayed exec answer start (
            analyse
              (library_of exec answer start lib)
              (executer_of (machine_of exec answer start))
              cloner
              preset
              r
              head_ref
              a
              [])
  analyse-replayed cloner preset r head_ref a = analyse-Follows cloner preset r head_ref a []
