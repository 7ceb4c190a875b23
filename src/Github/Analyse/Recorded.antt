-- ===== src/Github/Analyse/Recorded.antt =====
-- internal/github/handlers.go and internal/db/sqldb.go: which commands of an analysis are stored.
use gopherci.Common.{
  ℕ, ◌≡◌, refl, Bool, true, false, ◌&&◌, List, [], ◌∷◌, Bytes, IsQuiet, if◌then◌else◌, ◌==◌,
  bytes_eq, bytes_beq_refl,
}
use gopherci.Github.{Config, World, Call, History, execute, write_execution}
use gopherci.Github.Jobs.{AnalyseConfig}
use gopherci.Github.Analyse.{analyse, recorded_executer}
use gopherci.Github.Analyse.Kept.{analyse-Quiet}
use gopherci.Github.Analyse.Background.{Background}

args_beq : List Bytes → List Bytes → Bool
args_beq [] [] = true
args_beq (a ∷ args) (b ∷ ran) = a == b && args_beq args ran
args_beq _ _ = false

args_beq_refl : (args : List Bytes) → args_beq args args ≡ true
unfolding args_beq
args_beq_refl [] = refl
args_beq_refl (a ∷ args) = rw (bytes_beq_refl a, args_beq_refl args) refl

-- A write right after a command: nothing is left of the two if it has the command's arguments and
-- output.
unfoldable pub matched :
    (args : List Bytes)
    → (out : Bytes) → (ran : List Bytes) → (printed : Bytes) → List (List Bytes × Bytes)
    → List (List Bytes × Bytes)
unfolding args_beq
matched args out ran printed rest =
    if args_beq args ran && out == printed then rest else (args, out) ∷ (ran, printed) ∷ rest

-- The commands that ran in an executer and were not stored by the very next call, each with its
-- output, and what was stored by a call that is not next to its command; newest first.
abbrev pub unrecorded : World → History → List (List Bytes × Bytes)
unrecorded world [] = []
unrecorded world (write_execution id args duration output ∷ execute ran ∷ h) =
    matched args output ran (world.executed h ran).0 (unrecorded world h)
unrecorded world (write_execution id args duration output ∷ h) = (args, output) ∷ unrecorded world h
unrecorded world (execute args ∷ h) = (args, (world.executed h args).0) ∷ unrecorded world h
unrecorded world (_ ∷ h) = unrecorded world h

matched-same :
    (args : List Bytes) (out : Bytes) (rest : List (List Bytes × Bytes))
    → matched args out args out rest ≡ rest
unfolding matched
matched-same args out rest = rw (args_beq_refl args, bytes_beq_refl out) refl

module _ (config : Config) (world : World) where
  unrecorded-Background :
      (c : Call) → Background c → (h : History) → unrecorded world (c ∷ h) ≡ unrecorded world h
  unrecorded-Background (execute args) b h = absurd b
  unrecorded-Background (write_execution id args duration output) b h = absurd b
  unrecorded-Background _ b h = refl

  execute-Quiet :
      (id : ℕ) (args : List Bytes)
      → IsQuiet (unrecorded world) ((recorded_executer config world id).execute args)
  unfolding recorded_executer
  execute-Quiet id args h = matched-same args (world.executed h args).0 (unrecorded world h)

  -- However it ends: of each command that `Analyse` runs in its executer, its arguments and its
  -- output are sent to the database right after it ran and before the next one runs, and nothing
  -- else is stored as a command.
  pub unrecorded-analyse :
      (cfg : AnalyseConfig) (h : History)
      → unrecorded world (analyse config world cfg h).1 ≡ unrecorded world h
  unrecorded-analyse =
      analyse-Quiet (unrecorded world) config world unrecorded-Background execute-Quiet
        (λ path h. refl) (λ h. refl)
