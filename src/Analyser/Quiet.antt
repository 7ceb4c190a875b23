-- ===== src/Analyser/Quiet.antt =====
-- internal/analyser: the commands are all that `Analyse` does to the outside. What its executer
-- keeps is kept.
use gopherci.Common.{
  refl, List, [], ◌∷◌, Option, none, some, Bytes, Go, Error, non_zero, IsQuiet, >>=-quiet,
  quiet_rules,
}
use gopherci.Db.{Tool, Analysis}
use gopherci.Analyser.{
  Executer, RepoConfig, RevIssue, Library, Cloner, pull_request_cloner, push_cloner, RefReader,
  merge_base, fixed_ref, run_plain, run_quoted, clone, base, read_config, after_cat, get_patch,
  or_show, install_apt_packages,
}
use gopherci.Analyser.Run.{
  show_environment, Generated, generated, not_generated, unknown, keep_issue, filter_issues,
  check_output, run_tool, run_tools, timed, analyse_clone, analyse, analyse_from, run_tool_from,
}

module _ {C V : Type 0} (measure : List C → V) (lib : Library C) (exec : Executer C)
    (quiet : (args : List Bytes) → IsQuiet measure (exec.execute args)) where
  run_plain-IsQuiet : (args : List Bytes) → IsQuiet measure (run_plain lib exec args)
  unfolding run_plain
  run_plain-IsQuiet args = search quiet_rules

  run_quoted-IsQuiet : (args : List Bytes) → IsQuiet measure (run_quoted lib exec args)
  unfolding run_quoted
  run_quoted-IsQuiet args = search quiet_rules

  clone-IsQuiet : (cloner : Cloner) → IsQuiet measure (clone lib exec cloner)
  unfolding clone
  clone-IsQuiet (pull_request_cloner _ _ _ _) = search (quiet_rules, run_quoted-IsQuiet)
  clone-IsQuiet (push_cloner _ _) = search (quiet_rules, run_quoted-IsQuiet)

  base-IsQuiet : (r : RefReader) → IsQuiet measure (base lib exec r)
  unfolding base
  base-IsQuiet merge_base = search (quiet_rules, run_quoted-IsQuiet)
  base-IsQuiet (fixed_ref _) = λ h. refl

  after_cat-IsQuiet :
      (cfg : RepoConfig) (yml : Bytes) (e : Option Error)
      → IsQuiet measure (after_cat lib exec cfg yml e)
  after_cat-IsQuiet cfg yml (some (non_zero _ _)) = λ h. refl
  after_cat-IsQuiet cfg yml (some _) = λ h. refl
  after_cat-IsQuiet cfg yml none = λ h. refl

  read_config-IsQuiet : (tools : List Tool) → IsQuiet measure (read_config lib exec tools)
  unfolding read_config
  read_config-IsQuiet tools = search (quiet_rules, after_cat-IsQuiet)

  install_apt_packages-IsQuiet :
      (packages : List Bytes) → IsQuiet measure (install_apt_packages lib exec packages)
  unfolding install_apt_packages
  install_apt_packages-IsQuiet [] = λ h. refl
  install_apt_packages-IsQuiet (p ∷ packages) = search quiet_rules

  or_show-IsQuiet :
      (b r patch : Bytes) (e : Option Error) → IsQuiet measure (or_show lib exec b r patch e)
  or_show-IsQuiet b r patch none = λ h. refl
  or_show-IsQuiet b r patch (some e) = search quiet_rules

  get_patch-IsQuiet : (b r : Bytes) → IsQuiet measure (get_patch lib exec b r)
  unfolding get_patch
  get_patch-IsQuiet b r = search (quiet_rules, or_show-IsQuiet)

  show_environment-IsQuiet :
      (commands : List (List Bytes)) → IsQuiet measure (show_environment lib exec commands)
  unfolding show_environment
  show_environment-IsQuiet [] = λ h. refl
  show_environment-IsQuiet (args ∷ rest) =
      search (quiet_rules, run_plain-IsQuiet, show_environment-IsQuiet rest)

  keep_issue-IsQuiet :
      (tool : Tool) (pwd : Bytes) (i : RevIssue) (out : Bytes) (g : Generated)
      → IsQuiet measure (keep_issue lib exec tool pwd i out g)
  keep_issue-IsQuiet tool pwd i out generated h = refl
  keep_issue-IsQuiet tool pwd i out not_generated h = refl
  keep_issue-IsQuiet tool pwd i out (unknown e) h = refl

  filter_issues-IsQuiet :
      (tool : Tool) (pwd : Bytes) (found : List RevIssue)
      → IsQuiet measure (filter_issues lib exec tool pwd found)
  unfolding filter_issues
  filter_issues-IsQuiet tool pwd [] = λ h. refl
  filter_issues-IsQuiet tool pwd (i ∷ rest) =
      search (quiet_rules, keep_issue-IsQuiet, filter_issues-IsQuiet tool pwd rest)

  check_output-IsQuiet :
      (patch pwd : Bytes) (tool : Tool) (out : Bytes)
      → IsQuiet measure (check_output lib exec patch pwd tool out)
  unfolding check_output
  check_output-IsQuiet patch pwd tool out = search (quiet_rules, filter_issues-IsQuiet)

  run_tool_from-IsQuiet :
      (start : List C) (b patch pwd : Bytes) (tool : Tool)
      → IsQuiet measure (run_tool_from lib exec start b patch pwd tool)
  run_tool_from-IsQuiet start b patch pwd tool = search (quiet_rules, check_output-IsQuiet)

  run_tool-IsQuiet :
      (b patch pwd : Bytes) (tool : Tool) → IsQuiet measure (run_tool lib exec b patch pwd tool)
  unfolding run_tool
  run_tool-IsQuiet b patch pwd tool h = run_tool_from-IsQuiet h b patch pwd tool h

  run_tools-IsQuiet :
      (b patch pwd : Bytes) (tools : List Tool) (a : Analysis)
      → IsQuiet measure (run_tools lib exec b patch pwd tools a)
  unfolding run_tools
  run_tools-IsQuiet b patch pwd [] a = λ h. refl
  run_tools-IsQuiet b patch pwd (tool ∷ tools) a =
      search (quiet_rules, run_tool-IsQuiet, run_tools-IsQuiet b patch pwd tools)

  timed-IsQuiet : {A : Type 0} (m : Go C A) → IsQuiet measure m → IsQuiet measure (timed lib exec m)
  unfolding timed
  timed-IsQuiet m first h = >>=-quiet measure m _ h (first h) λ _ h'. refl

  analyse_clone-IsQuiet :
      (preset : List Tool) (r : RefReader) (head_ref : Bytes) (a : Analysis)
      → IsQuiet measure (analyse_clone lib exec preset r head_ref a)
  unfolding analyse_clone
  analyse_clone-IsQuiet preset r head_ref a =
      search
        (
          quiet_rules, read_config-IsQuiet, show_environment-IsQuiet, install_apt_packages-IsQuiet,
          base-IsQuiet, get_patch-IsQuiet, timed-IsQuiet, run_plain-IsQuiet, run_tools-IsQuiet,
        )
        depth 30

  analyse_from-IsQuiet :
      (start : List C) (cloner : Cloner) (preset : List Tool) (r : RefReader) (head_ref : Bytes)
      (a : Analysis)
      → IsQuiet measure (analyse_from lib exec start cloner preset r head_ref a)
  analyse_from-IsQuiet start cloner preset r head_ref a =
      search (quiet_rules, clone-IsQuiet, analyse_clone-IsQuiet) depth 10

  -- `Analyse` keeps every measure of the outside that the executer's commands keep.
  pub analyse-IsQuiet :
      (cloner : Cloner) (preset : List Tool) (r : RefReader) (head_ref : Bytes) (a : Analysis)
      → IsQuiet measure (analyse lib exec cloner preset r head_ref a)
  unfolding analyse
  analyse-IsQuiet cloner preset r head_ref a h = analyse_from-IsQuiet h cloner preset r head_ref a h
