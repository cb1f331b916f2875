-- ===== src/Runtime/Build/Served.antt =====
-- runtime.rs: what a runtime that has been built holds.
use ferrumdns.Base.{◌≡◌, some, List, Text, All}
use ferrumdns.Config.Types.{PluginConfig, ServerConfig, Config}
use ferrumdns.Runtime.Build.Growth.{executables}
use ferrumdns.Runtime.Build.{Executable, sequence, fallback, Building, Runtime, Outside, insert_all}
use ferrumdns.Sequence.{Sequence}
use ferrumdns.Runtime.Graph.{find, tag_of}

module _ (O : Outside) {C S : Type 0} where
  -- An entry that the check of the entries has found.
  abbrev pub IsRegistered : List (Text × Executable C S) → Text → Type 0
  IsRegistered execs tag = (e : Executable C S) × (find tag execs ≡ some e)

  -- The registry as it is put together from what was built.
  abbrev registered : Building C S → List (Text × Sequence) → List (Text × Executable C S)
  registered b compiled =
      insert_all O fallback b.pending_fb (insert_all O sequence compiled b.execs)

  IsServed : List PluginConfig → Runtime C S → Type 0
  IsServed ps rt =
      All (λ (s : ServerConfig). IsRegistered rt.execs s.exec) rt.config.servers
      × All (λ (p : PluginConfig). IsRegistered rt.execs (tag_of p)) (executables ps)
