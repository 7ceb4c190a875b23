-- ===== src/Analyser/Run/Honest.antt =====
-- internal/analyser/analyser.go: which answers of the environment `Analyse` passes over.
use gopherci.Common.{
  fields, trim_space, Bool-cases, inl, inr, nat_beq, ◌≡◌, refl, List, [], ◌∷◌, Option, none, some,
  Bytes, Go, pure, check, Error, non_zero, pos,
}
use gopherci.Db.{Tool, Analysis}
use gopherci.Analyser.{plain_failure, Library, RevIssue, Cloner, RefReader}
use gopherci.Analyser.Machine.{Machine, Commands, executer_of}
use gopherci.Analyser.{Executer}
use gopherci.Analyser.Run.{
  show_environment, keep_issue, generated_by, filter_issues, check_output, run_tool, run_tools,
  analyse_clone, analyse, timed, tool_args, tool_error,
}
use gopherci.Analyser.Honesty.{
  Tolerated, IsHonest, Keeps, >>=-Keeps, map_error-Keeps, result-Keeps, run_plain-Keeps,
  clone-Keeps, base-Keeps, read_config-Keeps, install_apt_packages-Keeps, get_patch-Keeps,
}

module _ (machine : Machine) (lib : Library (List Bytes)) where
  abbrev exec : Executer (List Bytes)
  exec = executer_of machine

  show_environment-Keeps :
      (commands : List (List Bytes)) (h : Commands)
      → IsHonest machine h
      → Keeps machine (show_environment lib exec commands h)
  unfolding show_environment
  show_environment-Keeps [] h honest = honest
  show_environment-Keeps (args ∷ rest) h honest =
      >>=-Keeps machine _ _ (run_plain-Keeps machine lib args h honest)
        (λ _. show_environment-Keeps rest)

  keep_issue-Keeps :
      (tool : Tool) (pwd : Bytes) (i : RevIssue) (out : Bytes) (e : Option Error)
      (args : List Bytes) (h : Commands)
      → (machine.run h args).1 ≡ e
      → IsHonest machine h
      → Keeps machine (keep_issue lib exec tool pwd i out (generated_by e) (args ∷ h))
  unfolding generated_by
  keep_issue-Keeps tool pwd i out none args h q honest = rw q (tt, honest)
  keep_issue-Keeps tool pwd i out (some (non_zero _ (pos n))) args h q honest =
      elim (Bool-cases (nat_beq n 1)) [
        | inl one ↦ rw (one, q) (tt, honest)
        | inr other ↦ rw other tt
      ]
  keep_issue-Keeps tool pwd i out (some _) args h q honest = tt

  filter_issues-Keeps :
      (tool : Tool) (pwd : Bytes) (found : List RevIssue) (h : Commands)
      → IsHonest machine h
      → Keeps machine (filter_issues lib exec tool pwd found h)
  unfolding filter_issues
  filter_issues-Keeps tool pwd [] h honest = honest
  filter_issues-Keeps tool pwd (i ∷ rest) h honest =
      >>=-Keeps machine _ _ (keep_issue-Keeps tool pwd i _ _ _ h refl honest) λ kept h' honest'.
        >>=-Keeps machine _ _ (filter_issues-Keeps tool pwd rest h' honest') (λ _ _ last. last)

  tool_error-Tolerated :
      (args : List Bytes) (e : Option Error) → tool_error lib exec e ≡ none → Tolerated args e
  tool_error-Tolerated args none q = tt
  tool_error-Tolerated args (some (non_zero _ _)) q = tt
  tool_error-Tolerated args (some _) q = cc

  check_output-Keeps :
      (patch pwd : Bytes) (tool : Tool) (out : Bytes) (h : Commands)
      → IsHonest machine h
      → Keeps machine (check_output lib exec patch pwd tool out h)
  unfolding check_output
  check_output-Keeps patch pwd tool out h honest =
      >>=-Keeps machine (lib.revgrep patch tool.regexp pwd out, h) (filter_issues lib exec tool pwd)
        (result-Keeps machine _ h honest) (filter_issues-Keeps tool pwd)

  tool_check-Keeps :
      (args : List Bytes) (h : Commands) (left : Option Error) (f : Error → Error)
      → (left ≡ none → Tolerated args (machine.run h args).1)
      → IsHonest machine h
      → Keeps machine (check {B = Unit {0}} left f (pure tt) (args ∷ h))
  tool_check-Keeps args h none f tolerated honest = (tolerated refl, honest)
  tool_check-Keeps args h (some e) f tolerated honest = tt

  run_tool-Keeps :
      (b patch pwd : Bytes) (tool : Tool) (h : Commands)
      → IsHonest machine h
      → Keeps machine (run_tool lib exec b patch pwd tool h)
  unfolding run_tool
  run_tool-Keeps b patch pwd tool h honest =
      let args = tool.path ∷ tool_args b (fields tool.args) in
      let answer = machine.run h args in
      >>=-Keeps machine _ _
        (tool_check-Keeps args h (tool_error lib exec answer.1) (plain_failure args answer.0)
          (tool_error-Tolerated args answer.1) honest)
        λ _ h' honest'.
          >>=-Keeps machine _ _ (check_output-Keeps patch pwd tool _ h' honest') (λ _ _ last. last)

  run_tools-Keeps :
      (b patch pwd : Bytes) (tools : List Tool) (a : Analysis) (h : Commands)
      → IsHonest machine h
      → Keeps machine (run_tools lib exec b patch pwd tools a h)
  unfolding run_tools
  run_tools-Keeps b patch pwd [] a h honest = honest
  run_tools-Keeps b patch pwd (tool ∷ tools) a h honest =
      >>=-Keeps machine _ _ (run_tool-Keeps b patch pwd tool h honest)
        (λ _. run_tools-Keeps b patch pwd tools _)

  timed-Keeps :
      {A : Type 0} (m : Go (List Bytes) A) (h : Commands)
      → Keeps machine (m h)
      → Keeps machine (timed lib exec m h)
  unfolding timed
  timed-Keeps m h keeps = >>=-Keeps machine (m h) _ keeps (λ _ _ last. last)

  analyse_clone-Keeps :
      (preset : List Tool) (r : RefReader) (head_ref : Bytes) (a : Analysis) (h : Commands)
      → IsHonest machine h
      → Keeps machine (analyse_clone lib exec preset r head_ref a h)
  unfolding analyse_clone
  analyse_clone-Keeps preset r head_ref a h honest =
      >>=-Keeps machine _ _
        (map_error-Keeps machine _ _ (read_config-Keeps machine lib preset h honest))
        λ config h₁ k₁. >>=-Keeps machine _ _ (show_environment-Keeps _ h₁ k₁) λ _ h₂ k₂.
          >>=-Keeps machine _ _
            (map_error-Keeps machine _ _
              (install_apt_packages-Keeps machine lib config.apt_packages h₂ k₂))
            λ _ h₃ k₃.
              >>=-Keeps machine _ _ (map_error-Keeps machine _ _ (base-Keeps machine lib r h₃ k₃))
                λ b h₄ k₄.
                  >>=-Keeps machine _ _
                    (map_error-Keeps machine _ _ (get_patch-Keeps machine lib b head_ref h₄ k₄))
                    λ patch h₅ k₅.
                      >>=-Keeps machine _ _ (timed-Keeps _ h₅ (run_plain-Keeps machine lib _ h₅ k₅))
                        λ deps h₆ k₆.
                          >>=-Keeps machine _ _ (run_plain-Keeps machine lib _ h₆ k₆) λ pwd h₇ k₇.
                            run_tools-Keeps b patch (trim_space pwd) config.tools _ h₇ k₇

  -- If `Analyse` returns no error, then of all commands that it ran (with any cloner, any
  -- configuration and any answers) each succeeded, exited with a non-zero status, or was a
  -- `git diff`: no failure to run a command is ever passed over.
  pub analyse-Keeps :
      (cloner : Cloner) (preset : List Tool) (r : RefReader) (head_ref : Bytes) (a : Analysis)
      (h : Commands)
      → IsHonest machine h
      → Keeps machine (analyse lib exec cloner preset r head_ref a h)
  unfolding analyse
  analyse-Keeps cloner preset r head_ref a h honest =
      >>=-Keeps machine _ _ (map_error-Keeps machine _ _ (clone-Keeps machine lib cloner h honest))
        λ _ h' honest'.
          >>=-Keeps machine _ _ (analyse_clone-Keeps preset r head_ref _ h' honest')
            (λ _ _ last. last)
