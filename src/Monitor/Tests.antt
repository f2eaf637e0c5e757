-- ===== src/Monitor/Tests.antt =====
-- An instance of the theorem on the selection of a pool.
use omni_infra_provider_true.Base.{true, false, List, [], ◌∷◌, some}
use omni_infra_provider_true.Base.Int.{pos}
use omni_infra_provider_true.Text.{codes}
use omni_infra_provider_true.Autoscaler.Server.{PoolInfo}
use omni_infra_provider_true.Monitor.{IsSelected, select_pool, select_pool-IsSelected}

abbrev pools : List PoolInfo
pools =
    record { name = codes "tank"; free = pos 10; healthy = true }
    ∷ record { name = codes "broken"; free = pos 90; healthy = false }
    ∷ record { name = codes "fast"; free = pos 30; healthy = true }
    ∷ []

select_pool-IsSelected_example : IsSelected pools (select_pool [] (some pools))
select_pool-IsSelected_example = select_pool-IsSelected pools
