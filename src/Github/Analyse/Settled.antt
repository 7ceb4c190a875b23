-- ===== src/Github/Analyse/Settled.antt =====
-- internal/github/handlers.go, `GitHub.Analyse`: the last calls of an analysis.
use gopherci.Common.{
  ℕ, Bool, true, false, ◌≡◌, refl, ◌∷◌, Option, none, some, Bytes, lit, Result, ok, err, panic, Go,
  ask, pure, fail, check, caught, map_error, and_then, ◌>>=◌, Error, if◌then◌else◌,
}
use gopherci.Db.{Analysis, success, error}
use gopherci.Github.{
  Config, World, Call, History, StatusState, finish_analysis, stop_executer, status_error,
}
use gopherci.Github.Jobs.{AnalyseConfig}
use gopherci.Github.Reporters.{set_status}
use gopherci.Github.Analyse.{
  Session, prepare, analyse, execute_analysis, run_in_executer, clean_up, finish, run_analyser,
  report, report_all, reporters, record_success, finish_failure, deferred, after,
}

abbrev pub Returns : {A : Type 0} → Result A → Type 0
Returns (ok _) = Unit
Returns (err _) = Unit
Returns (panic _) = ⊥

-- The client that posts statuses returns.
abbrev pub StatusReturns : World → Type 0
StatusReturns world = (h : History) (s : StatusState) → Returns (world.status_response h s)

-- How the last calls of an analysis depend on its result: with no error, the analysis was recorded
-- as a success with its results, and then its executer stopped; on an error or a panic, the last
-- call recorded it as failed.
abbrev pub IsSettled : ℕ → Result (Unit {0}) × History → Type 0
IsSettled id (ok _, h) =
    (b : Analysis) × (rest : History) × (h
      ≡ stop_executer ∷ (finish_analysis id success (some b) ∷ rest))
IsSettled id (_, h) = (rest : History) × (h ≡ finish_analysis id error none ∷ rest)

-- What `Analyse` gives after its first part.
abbrev pub Outcome : Result Session × History → Result (Unit {0}) × History → Type 0
Outcome (ok s, h) r = IsSettled s.analysis.id r
Outcome (err e, h) r = r ≡ (err e, h)
Outcome (panic m, h) r = r ≡ (panic m, h)

-- With no error, the newest call is the record of success.
abbrev IsRecorded : ℕ → Result (Unit {0}) × History → Type 0
IsRecorded id (ok _, h) =
    (b : Analysis) × (rest : History) × (h ≡ finish_analysis id success (some b) ∷ rest)
IsRecorded id (_, h) = Unit

-- With no error, the executer was stopped after that.
abbrev IsStopped : ℕ → Result (Unit {0}) × History → Type 0
IsStopped id (ok _, h) = IsSettled id (ok tt, h)
IsStopped id (_, h) = Unit

and_then-IsRecorded :
    {A : Type 0} (id : ℕ) (r : Result A × History) (k : A → Go Call (Unit {0}))
    → ((a : A) (h : History) → IsRecorded id (k a h))
    → IsRecorded id (and_then r.0 k r.1)
and_then-IsRecorded id (ok a, h) k rest = rest a h
and_then-IsRecorded id (err _, h) k rest = tt
and_then-IsRecorded id (panic _, h) k rest = tt

check-IsRecorded :
    (id : ℕ) (failure : Option Error) (f : Error → Error) (b : Analysis) (h : History)
    → IsRecorded id (check failure f (pure tt) (finish_analysis id success (some b) ∷ h))
check-IsRecorded id none f b h = (b, h, refl)
check-IsRecorded id (some e) f b h = tt

and_then-Returns :
    {A B : Type 0} (r : Result A × History) (k : A → Go Call B)
    → Returns r.0
    → ((a : A) (h : History) → Returns (k a h).0)
    → Returns (and_then r.0 k r.1).0
and_then-Returns (ok a, h) k first rest = rest a h
and_then-Returns (err _, h) k first rest = tt
and_then-Returns (panic _, h) k first rest = elim first [ ]

map_error-Returns :
    {A : Type 0} (f : Error → Error) (r : Result A) → Returns r → Returns (map_error f r)
map_error-Returns f (ok a) returns = tt
map_error-Returns f (err e) returns = tt
map_error-Returns f (panic _) returns = elim returns [ ]

check-Returns :
    (failure : Option Error) (f : Error → Error) (h : History)
    → Returns (check {C = Call} failure f (pure {C = Call} {A = Unit {0}} tt) h).0
check-Returns none f h = tt
check-Returns (some e) f h = tt

if-Returns :
    (b : Bool) (e : Error) (h : History)
    → Returns ((if b then fail {C = Call} {A = Unit {0}} e else pure tt) h).0
if-Returns true e h = tt
if-Returns false e h = tt

module _ (config : Config) (world : World) (returns : StatusReturns world) where
  set_status-Returns :
      (url context target : Bytes) (s : StatusState) (description : Bytes) (h : History)
      → Returns (set_status world url context target s description h).0
  unfolding set_status
  set_status-Returns url context target s description h =
      and_then-Returns _ _ (check-Returns (world.request_error url) _ h) λ _ h'.
        and_then-Returns _ _ (map_error-Returns _ _ (returns h' s)) λ code h''. if-Returns _ _ h''

  run_in_executer-IsRecorded :
      (cfg : AnalyseConfig) (s : Session) (h : History)
      → IsRecorded s.analysis.id (run_in_executer config world cfg s h)
  unfolding run_in_executer
  run_in_executer-IsRecorded cfg s h =
      let id = s.analysis.id in
      let all = report_all config world (reporters config world cfg s.analysis_url) in
      and_then-IsRecorded id (run_analyser config world cfg s h) (report config world cfg s)
        λ result h'.
          and_then-IsRecorded id (all result.tools h') (λ _. record_success config world s result)
            λ _ h''.
              check-IsRecorded id (world.finished h'' success) (finish_failure config world id)
                result h''

  stop-IsStopped :
      (id : ℕ) (r : Result (Unit {0}) × History)
      → IsRecorded id r
      → IsStopped id (after r.0 (ok tt), stop_executer ∷ r.1)
  stop-IsStopped id (ok _, h) (b, rest, q) = (b, rest, rw q refl)
  stop-IsStopped id (err _, h) recorded = tt
  stop-IsStopped id (panic _, h) recorded = tt

  execute_analysis-IsStopped :
      (cfg : AnalyseConfig) (s : Session) (h : History)
      → IsStopped s.analysis.id (execute_analysis config world cfg s h)
  execute_analysis-IsStopped cfg s h = created (world.executer h) _ _
    where
      created :
          (failure : Option Error) (f : Error → Error) (h' : History)
          → IsStopped s.analysis.id (
              check failure f
                (deferred
                  (run_in_executer config world cfg s)
                  (λ _. ask stop_executer (λ _. ok tt)))
                h')
      created none f h' =
          stop-IsStopped s.analysis.id (run_in_executer config world cfg s h')
            (run_in_executer-IsRecorded cfg s h')
      created (some e) f h' = tt

  -- The error status, then the record of the failure.
  cleaned :
      (id : ℕ) (r : Result (Unit {0}) × History)
      → Returns r.0
      → and_then (caught r.0) (λ _. finish config world id error none >>= λ _. pure tt) r.1
        ≡ (ok (tt {0}), finish_analysis id error none ∷ r.1)
  cleaned id (ok _, h) first = refl
  cleaned id (err _, h) first = refl
  cleaned id (panic _, h) first = elim first [ ]

  abbrev error_status : AnalyseConfig → Session → Go Call (Unit {0})
  error_status cfg s =
      set_status world cfg.statuses_url cfg.statuses_context s.analysis_url status_error
        (lit "Internal error")

  failed_status :
      (cfg : AnalyseConfig) (s : Session) (h : History)
      → and_then
          (caught (error_status cfg s h).0)
          (λ _. finish config world s.analysis.id error none >>= λ _. pure tt)
          (error_status cfg s h).1
        ≡ (ok (tt {0}), finish_analysis s.analysis.id error none ∷ (error_status cfg s h).1)
  failed_status cfg s h =
      cleaned s.analysis.id (error_status cfg s h)
        (set_status-Returns cfg.statuses_url cfg.statuses_context s.analysis_url status_error _ h)

  -- The deferred clean-up, whatever its status request answers.
  clean_up-IsSettled :
      (cfg : AnalyseConfig) (s : Session) (r : Result (Unit {0})) (h : History)
      → IsStopped s.analysis.id (r, h)
      → IsSettled s.analysis.id (deferred (λ h'. (r, h')) (clean_up config world cfg s) h)
  clean_up-IsSettled cfg s (ok _) h stopped = stopped
  clean_up-IsSettled cfg s (err e) h stopped = rw (failed_status cfg s h) (_, refl)
  clean_up-IsSettled cfg s (panic m) h stopped = rw (failed_status cfg s h) (_, refl)

  begun-Outcome :
      (cfg : AnalyseConfig) (r : Result Session × History)
      → Outcome r (
          and_then r.0
            (λ s. deferred (execute_analysis config world cfg s) (clean_up config world cfg s))
            r.1)
  begun-Outcome cfg (ok s, h) =
      let r = execute_analysis config world cfg s h in
      clean_up-IsSettled cfg s r.0 r.1 (execute_analysis-IsStopped cfg s h)
  begun-Outcome cfg (err e, h) = refl
  begun-Outcome cfg (panic m, h) = refl

  -- Let the client that posts statuses return. `Analyse` gives the error of its first part, with no
  -- further call, if that part (the installation, the tools, the record of the analysis, the
  -- pending status) fails. Else the last calls settle the analysis, whatever fails or panics on
  -- the way: with no error it was recorded as a success with its results and then the executer was
  -- stopped, and otherwise the last call records it, by the same id, as failed.
  pub analyse-Outcome :
      (cfg : AnalyseConfig) (h : History)
      → Outcome (prepare config world cfg h) (analyse config world cfg h)
  unfolding analyse
  analyse-Outcome cfg h = begun-Outcome cfg (prepare config world cfg h)
