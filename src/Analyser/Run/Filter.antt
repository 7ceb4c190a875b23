-- ===== src/Analyser/Run/Filter.antt =====
-- internal/analyser/analyser.go: which issues and which tools an analysis records.
use gopherci.Common.{
  ℕ, ◌≡◌, ◌≢◌, refl, Bool, true, false, not, List, [], ◌∷◌, map, Option, none, some, Bytes, Result,
  ok, err, panic, Go, Error, non_zero, pos, arith, select, any, Bool-cases, inl, inr, nat_beq,
  nat_eq, lookup, insert, lookup-insert, and_then,
}
use gopherci.Db.{Tools, Tool, Analysis, AnalysisTool}
use gopherci.Analyser.{Library, Executer, RevIssue}
use gopherci.Analyser.Machine.{Machine, Commands, executer_of}
use gopherci.Analyser.Run.{
  issue_of, generated_by, filter_issues, generated_args, run_tool, run_tools,
}

-- The exit of `isFileGenerated` for a file that is generated, or is not.
abbrev pub OriginAnswer : Bool → Option Error → Type 0
OriginAnswer true e = e ≡ none
OriginAnswer false e = (args : List Bytes) × (e ≡ some (non_zero args (pos 1)))

-- `isFileGenerated` exits with 0 for the generated files and with 1 for all others, whatever ran
-- before it.
abbrev pub KnowsOrigin : Library (List Bytes) → Machine → (Bytes → Bool) → Bytes → Type 0
KnowsOrigin lib machine generated pwd =
    (h : Commands) (i : RevIssue)
    → OriginAnswer (generated i.file)
        (machine.run h (generated_args lib (executer_of machine) pwd i)).1

answer_no :
    (g : Bool) (e : Option Error)
    → g ≡ false
    → OriginAnswer g e
    → (args : List Bytes) × (e ≡ some (non_zero args (pos 1)))
answer_no true e q answer = ground arith
answer_no false e q answer = answer

module _ (lib : Library (List Bytes)) (machine : Machine) (generated : Bytes → Bool)
    (pwd : Bytes) where
  -- The commands that ask for the origin of each issue's file, newest first.
  abbrev pub asked : List RevIssue → Commands → Commands
  asked [] h = h
  asked (i ∷ rest) h = asked rest (generated_args lib (executer_of machine) pwd i ∷ h)

  -- Where `isFileGenerated` can tell, the issues recorded for a tool are exactly revgrep's issues
  -- in files that are not generated, in order, each as "name: message"; the file of every issue
  -- is asked for once, in order, and nothing else is run.
  pub filter_issues_lem :
      KnowsOrigin lib machine generated pwd
      → (tool : Tool) (found : List RevIssue) (h : Commands)
      → filter_issues lib (executer_of machine) tool pwd found h
        ≡ (ok (map (issue_of tool) (select (λ i. not (generated i.file)) found)), asked found h)
  unfolding filter_issues select generated_by
  filter_issues_lem known tool [] h = refl
  filter_issues_lem known tool (i ∷ rest) h =
      let args = generated_args lib (executer_of machine) pwd i in
      let later = filter_issues_lem known tool rest (args ∷ h) in
      elim (Bool-cases (generated i.file)) [
        | inl g ↦
            let e : (machine.run h args).1 ≡ none = rw g at (known h i) in rw (g, e, later) refl
        | inr g ↦
            let (shown, e) = answer_no (generated i.file) (machine.run h args).1 g (known h i) in
            rw (g, e, later) refl
      ]

-- The id `j` is that of a tool and has an entry, or is not and keeps what it had.
abbrev pub Covers : List Tool → Tools → Tools → ℕ → Type 0
Covers tools before after j =
    (any (λ t. nat_beq t.id j) tools ≡ true → lookup j after ≢ none)
    × (any (λ t. nat_beq t.id j) tools ≡ false → lookup j after ≡ lookup j before)

Covers-cons :
    (tool : Tool) (tools : List Tool) (t : AnalysisTool) (before after : Tools) (j : ℕ)
    → Covers tools (insert tool.id t before) after j
    → Covers (tool ∷ tools) before after j
unfolding any
Covers-cons tool tools t before after j c = (
  λ found. elim (Bool-cases (any (λ u. nat_beq u.id j) tools)) [
    | inl more ↦ c.0 more
    | inr last ↦ ground (arith, c.1 last, lookup-insert tool.id j t before)
  ],
  λ absent. ground (arith, c.1, lookup-insert tool.id j t before),
)

module _ {C : Type 0} (lib : Library C) (exec : Executer C) where
  -- After a successful run of the tools there is an entry for the id of every tool of the
  -- configuration, and under every other id the entry, or none, that was there before.
  pub run_tools-Covers :
      (base_ref patch pwd : Bytes) (tools : List Tool) (a : Analysis) (h : List C) (b : Analysis)
      (j : ℕ)
      → (run_tools lib exec base_ref patch pwd tools a h).0 ≡ ok b
      → Covers tools a.tools b.tools j
  unfolding run_tools any
  run_tools-Covers base_ref patch pwd [] a h b j q = (λ found. ground arith, λ absent. ground arith)
  run_tools-Covers base_ref patch pwd (tool ∷ tools) a h b j q =
      later (run_tool lib exec base_ref patch pwd tool h)
        (λ a' h'. run_tools-Covers base_ref patch pwd tools a' h' b j) q
    where
      rest : AnalysisTool → Go C Analysis
      rest t =
          run_tools lib exec base_ref patch pwd tools
            (record a { tools = insert tool.id t a.tools })

      later :
          (r : Result AnalysisTool × List C)
          → ((a' : Analysis) (h' : List C)
              → (run_tools lib exec base_ref patch pwd tools a' h').0 ≡ ok b
              → Covers tools a'.tools b.tools j)
          → (and_then r.0 rest r.1).0 ≡ ok b
          → Covers (tool ∷ tools) a.tools b.tools j
      later (ok t, h') ih q' = Covers-cons tool tools t a.tools b.tools j (ih _ h' q')
      later (err e, h') ih q' = absurd (cc q')
      later (panic m, h') ih q' = absurd (cc q')
