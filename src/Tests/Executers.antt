-- ===== src/Tests/Executers.antt =====
-- internal/analyser with an executer of the file system, and with one of Docker.
use gopherci.Common.{pos, [], ◌∷◌, none, ok}
use gopherci.Db.{Tool, new_analysis}
use gopherci.Analyser.{Library, push_cloner, fixed_ref}
use gopherci.Analyser.Run.{analyse}
use gopherci.Analyser.Filesystem.{Disk, succeeded, FilesystemExecuter}
use gopherci.Analyser.Docker.{Engine, DockerExecuter}
use gopherci.Analyser.Docker.Contained.{docker_executer, IsContained, analyse-IsContained}
use gopherci.Analyser.Filesystem.Sandbox.{filesystem_executer, IsSandboxed, analyse-IsSandboxed}

abbrev tool : Tool
tool = record { id = 3; name = []; url = []; path = []; args = []; regexp = [] }

abbrev library : {C : Type 0} → Library C
library = record {
  revgrep = λ patch regexp path out. ok [];
  unmarshal = λ yml config. ok config;
  quoted = λ s. s;
  elapsed = λ from to. 1;
}

-- A disk on which everything succeeds.
abbrev disk : Disk
disk = record {
  unix_nano = λ h. 7;
  join_path = λ parts. 47 ∷ [];
  path_variable = [];
  quoted = λ s. s;
  accessed = λ h. none;
  made = λ h. none;
  ran = λ h. ([], succeeded);
  removed = λ h. none;
}

abbrev executer : FilesystemExecuter
executer = record { gopath = 47 ∷ []; projpath = 47 ∷ []; mem_limit = 512 }

analyse-IsSandboxed_example : IsSandboxed disk executer [] (
    analyse library
      (filesystem_executer disk executer)
      (push_cloner [] [])
      (tool ∷ [])
      (fixed_ref [])
      []
      new_analysis
      [])
analyse-IsSandboxed_example =
    analyse-IsSandboxed disk library executer [] (push_cloner [] []) (tool ∷ []) (fixed_ref []) []
      new_analysis

-- An engine on which every command exits with status 0.
abbrev engine : Engine
engine = record {
  unix_nano = λ h. 0;
  join_path = λ parts. [];
  quoted = λ s. s;
  container_created = λ h. ok (7 ∷ []);
  container_started = λ h. none;
  exec_created = λ h. ok (8 ∷ []);
  exec_ran = λ h. ([], none);
  exec_inspected = λ h. ok (pos 0);
  container_stopped = λ h. none;
  container_removed = λ h. none;
}

abbrev in_container : DockerExecuter
in_container = record { container = 7 ∷ []; proj_path = []; mem_limit = 512 }

analyse-IsContained_example : IsContained engine in_container [] (
    analyse library
      (docker_executer engine in_container)
      (push_cloner [] [])
      (tool ∷ [])
      (fixed_ref [])
      []
      new_analysis
      [])
analyse-IsContained_example =
    analyse-IsContained engine in_container (λ h m q. absurd (cc q)) (λ h m q. absurd (cc q))
      library [] (push_cloner [] []) (tool ∷ []) (fixed_ref []) [] new_analysis
