-- ===== src/Handlers/Health/Tests.antt =====
-- A health check of the database in memory.
use sync_bridge.Base.{refl}
use sync_bridge.Text.{str}
use sync_bridge.Sql.Memory.{memory-IsSqlite}
use sync_bridge.Handlers.Example.{sample_host, empty}
use sync_bridge.Handlers.Health.{probe_email, health_handler}
use sync_bridge.Handlers.Health.Probe.{IsUnused, LeavesProbe, health_handler-LeavesProbe}

empty-IsUnused : IsUnused (probe_email sample_host (str "u")) empty.contents.customers
unfolding IsUnused
empty-IsUnused = tt

health_handler-LeavesProbe_example :
    LeavesProbe sample_host memory-IsSqlite
      (probe_email sample_host (str "u"))
      empty
      (health_handler sample_host (str "u") empty).1
health_handler-LeavesProbe_example =
    health_handler-LeavesProbe sample_host memory-IsSqlite (str "u") empty empty-IsUnused refl
