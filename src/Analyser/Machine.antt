-- ===== src/Analyser/Machine.antt =====
-- internal/analyser: the environment in which commands run, as its answers. The answer to a
-- command may depend on all commands that were run before it.
use gopherci.Common.{List, Option, Bytes, ok, ask, pure, Error}
use gopherci.Analyser.{Executer}

pub record Machine : Type 0 where
  pub run : List (List Bytes) → List Bytes → Bytes × Option Error

abbrev pub Commands : Type 0
Commands = List (List Bytes)

-- An executer on a machine, which keeps the commands that it ran, newest first.
abbrev pub executer_of : Machine → Executer (List Bytes)
executer_of machine = record {
  execute = λ args. ask args (λ h. ok (machine.run h args));
  stop = pure tt;
}
