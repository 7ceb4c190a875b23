-- ===== src/Github/Analyse/Kept.antt =====
-- internal/github/handlers.go: what a whole run of `GitHub.Analyse` keeps.
use gopherci.Common.{
  ◌∙◌, Option-cases, and_then, inl, inr, panic, err, ok, ℕ, ◌≡◌, refl, nat_eq, inl, inr, List, ◌∷◌,
  Bytes, Result, ok, err, panic, IsQuiet,
}
use gopherci.Github.{Config, World, Call, History, new_executer, stop_executer}
use gopherci.Github.Jobs.{AnalyseConfig}
use gopherci.Github.Analyse.{
  execute_analysis, deferred, analyse, Session, prepare, run_in_executer, clean_up,
  recorded_executer,
}
use gopherci.Github.Analyse.Background.{
  Background, run_in_executer-Quiet, prepare-Quiet, clean_up-Quiet,
}

-- A measure that the creation and the stop of an executer keep too.
module _ {V : Type 0} (measure : History → V) (config : Config) (world : World)
    (keeps : (c : Call) → Background c → (h : History) → measure (c ∷ h) ≡ measure h)
    (execute-Quiet : (id : ℕ) (args : List Bytes)
      → IsQuiet measure ((recorded_executer config world id).execute args))
    (made : (path : Bytes) (h : History) → measure (new_executer path ∷ h) ≡ measure h)
    (stopped : (h : History) → measure (stop_executer ∷ h) ≡ measure h) where
  execute_analysis-Quiet :
      (cfg : AnalyseConfig) (s : Session) → IsQuiet measure (execute_analysis config world cfg s)
  execute_analysis-Quiet cfg s h =
      let asked : History = new_executer cfg.go_src_path ∷ h in
      elim (Option-cases (world.executer h)) [
        | inl none_failed ↦ rw none_failed (
            stopped (run_in_executer config world cfg s asked).1
            ∙ run_in_executer-Quiet measure config world keeps execute-Quiet cfg s asked
            ∙ made cfg.go_src_path h)
        | inr (e, failed) ↦ rw failed (made cfg.go_src_path h)
      ]

  session-Quiet :
      (cfg : AnalyseConfig) (r : Result Session) (h : History)
      → measure
          (and_then r
            (λ s. deferred (execute_analysis config world cfg s) (clean_up config world cfg s))
            h).1
        ≡ measure h
  session-Quiet cfg (ok s) h =
      let (result, h') = execute_analysis config world cfg s h in
      clean_up-Quiet measure config world keeps execute-Quiet cfg s result h'
      ∙ execute_analysis-Quiet cfg s h
  session-Quiet cfg (err e) h = refl
  session-Quiet cfg (panic text) h = refl

  pub analyse-Quiet : (cfg : AnalyseConfig) → IsQuiet measure (analyse config world cfg)
  unfolding analyse
  analyse-Quiet cfg h =
      let (r, h') = prepare config world cfg h in
      session-Quiet cfg r h' ∙ prepare-Quiet measure config world keeps execute-Quiet cfg h
