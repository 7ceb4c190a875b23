-- ===== src/Github/Analyse/Balance.antt =====
-- internal/github/handlers.go, `GitHub.Analyse`: the executers that it makes and stops.
use gopherci.Common.{
  ℕ, suc, ◌≡◌, ◌∙◌, refl, Error, nat_eq, inl, inr, ◌⊎◌, Option-cases, List, [], ◌∷◌, Option, none,
  some, Bytes, Result, ok, err, panic, IsQuiet, and_then, ap,
}
use gopherci.Github.{Config, World, Call, History, new_executer, stop_executer}
use gopherci.Github.Jobs.{AnalyseConfig}
use gopherci.Github.Analyse.Background.{
  Background, run_in_executer-Quiet, prepare-Quiet, clean_up-Quiet,
}
use gopherci.Github.Analyse.{
  Session, prepare, analyse, execute_analysis, clean_up, deferred, recorded_executer,
}

-- A creation, which may have failed.
abbrev pub made_by : Option Error → ℕ × ℕ → ℕ × ℕ
made_by none (made, stopped) = (suc made, stopped)
made_by (some _) counts = counts

-- How many executers were made, and how many stopped.
abbrev pub executers : World → History → ℕ × ℕ
executers world [] = (0, 0)
executers world (new_executer path ∷ h) = made_by (world.executer h) (executers world h)
executers world (stop_executer ∷ h) = let (made, stopped) = executers world h in (made, suc stopped)
executers world (_ ∷ h) = executers world h

module _ (config : Config) (world : World) where
  executers-Background :
      (c : Call) → Background c → (h : History) → executers world (c ∷ h) ≡ executers world h
  executers-Background (new_executer path) b h = absurd b
  executers-Background stop_executer b h = absurd b
  executers-Background _ b h = refl

  execute-Quiet :
      (id : ℕ) (args : List Bytes)
      → IsQuiet (executers world) ((recorded_executer config world id).execute args)
  unfolding recorded_executer
  execute-Quiet id args h = refl

  -- After this, the same executers were made and stopped as before, or one more.
  abbrev pub Balanced : History → History → Type 0
  Balanced h h' =
      (executers world h' ≡ executers world h)
      ⊎ (executers world h' ≡ (suc (executers world h).0, suc (executers world h).1))

  execute_analysis-Balanced :
      (cfg : AnalyseConfig) (s : Session) (h : History)
      → Balanced h (execute_analysis config world cfg s h).1
  execute_analysis-Balanced cfg s h =
      let asked : History = new_executer cfg.go_src_path ∷ h in
      elim (Option-cases (world.executer h)) [
        | inl made ↦
            let counted = ap (λ o. made_by o (executers world h)) made in
            rw made (
              inr (
                ap (λ c. (c.0, suc c.1))
                  (run_in_executer-Quiet (executers world) config world executers-Background
                      execute-Quiet cfg s asked
                    ∙ counted)))
        | inr (e, failed) ↦ rw failed (inl (ap (λ o. made_by o (executers world h)) failed))
      ]

  -- Quiet calls after or before make no difference.
  Balanced-later :
      (h h₁ h₂ : History) → executers world h₂ ≡ executers world h₁ → Balanced h h₁ → Balanced h h₂
  Balanced-later h h₁ h₂ q balanced = rw q balanced

  Balanced-earlier :
      (h h₁ h₂ : History) → executers world h₁ ≡ executers world h → Balanced h₁ h₂ → Balanced h h₂
  Balanced-earlier h h₁ h₂ q balanced = rw q at balanced

  session-Balanced :
      (cfg : AnalyseConfig) (r : Result Session) (h : History)
      → Balanced h
          (and_then r
            (λ s. deferred (execute_analysis config world cfg s) (clean_up config world cfg s))
            h).1
  session-Balanced cfg (ok s) h =
      let (result, h') = execute_analysis config world cfg s h in
      Balanced-later h h' (clean_up config world cfg s result h').1
        (clean_up-Quiet (executers world) config world executers-Background execute-Quiet cfg s
          result h')
        (execute_analysis-Balanced cfg s h)
  session-Balanced cfg (err e) h = inl refl
  session-Balanced cfg (panic text) h = inl refl

  -- Whatever the answers, and however it ends (with success, an error or a panic): `Analyse` makes
  -- no executer and stops none, or it makes one and stops one.
  pub analyse-Balanced :
      (cfg : AnalyseConfig) (h : History) → Balanced h (analyse config world cfg h).1
  unfolding analyse
  analyse-Balanced cfg h =
      let (r, h') = prepare config world cfg h in
      Balanced-earlier h h' (analyse config world cfg h).1
        (prepare-Quiet (executers world) config world executers-Background execute-Quiet cfg h)
        (session-Balanced cfg r h')
