-- ===== src/Autoscaler/Server/Refusals.antt =====
-- Scale-up requests that are refused whatever the sets hold.
use omni_infra_provider_true.Base.{
  ℕ, suc, ◌+◌, ◌<◌, ◌≡◌, ◌≢◌, inl, inr, refl, ap, ◌∙◌, subst, true, List, some, String, arith,
}
use omni_infra_provider_true.Base.Int.{ℤ, pos, int64_bound}
use omni_infra_provider_true.Base.Result.{Result, ok, err}
use omni_infra_provider_true.Clock.{Time}
use omni_infra_provider_true.Text.{Text, codes}
use omni_infra_provider_true.Omni.{MachineSet, MachineClass}
use omni_infra_provider_true.Omni.Store.{Store}
use omni_infra_provider_true.Autoscaler.Annotations.{Config}
use omni_infra_provider_true.Autoscaler.Capacity.{
  is_allowed, check_capacity, check_capacity-fails_closed,
}
use omni_infra_provider_true.Autoscaler.Lock.{rotation_lock_annotation}
use omni_infra_provider_true.Autoscaler.Discovery.{
  NodeGroup, lock_blocks, window, group_with, classify,
}
use omni_infra_provider_true.Autoscaler.Discovery.Window.{classify-IsNodeGroup}
use omni_infra_provider_true.Autoscaler.Writer.{
  rejected, at_or_above_max, increase_machine_count, increase_machine_count-over_max,
}
use omni_infra_provider_true.Autoscaler.Server.{
  Server, replied, PoolInfo, true_nas_capacity_adapter, find_group, pool_or_default,
  node_group_increase_size,
}
use omni_infra_provider_true.Autoscaler.Server.Scaling.{
  HasPassed, node_group_increase_size-IsScaled,
}

-- Through the adapter, a class that asks for a floor of host memory never passes.
adapter_blocks :
    (s : Server) (g : NodeGroup) (cfg : Config) (pools : Result Text (List PoolInfo))
    → s.gate ≡ some (true_nas_capacity_adapter pools)
    → g.config ≡ some cfg
    → 0 < cfg.min_host_mem_gib
    → ¬ HasPassed s g
unfolding true_nas_capacity_adapter
adapter_blocks s g cfg pools gated configured floor (inl e) = cc (gated, e)
adapter_blocks s g cfg pools gated configured floor (inr (ask, cfg', e, configured', passed)) =
    let same_ask : ask ≡ true_nas_capacity_adapter pools = cc (gated, e) in
    let same_cfg : cfg' ≡ cfg = cc (configured, configured') in
    let pool = pool_or_default s.default_pool g.pool in
    let blocked =
      check_capacity-fails_closed (true_nas_capacity_adapter pools pool) cfg
        (inr (floor, (codes "host free memory query not implemented yet", refl))) in
    let here : is_allowed (check_capacity (true_nas_capacity_adapter pools pool) cfg).outcome
        ≡ true =
      subst
        (λ c. is_allowed (check_capacity (true_nas_capacity_adapter pools pool) c).outcome ≡ true)
        same_cfg
        (subst (λ f. is_allowed (check_capacity (f pool) cfg').outcome ≡ true) same_ask passed) in
    cc (blocked.1, here)

module _ (sets : Store MachineSet) where
  -- A scale-up request is never answered with success where the server's gate is the TrueNAS adapter
  -- and the class of the group has a floor of host memory, which the adapter cannot query: every such
  -- request is refused, however much memory the host has.
  node_group_increase_size-true_nas_capacity_adapter :
      (s : Server) (id : String) (delta : ℤ) (groups : List NodeGroup) (g : NodeGroup)
      (cfg : Config) (pools : Result Text (List PoolInfo)) (now : Time) (w : sets.State)
      → s.gate ≡ some (true_nas_capacity_adapter pools)
      → find_group id groups ≡ some g
      → g.config ≡ some cfg
      → 0 < cfg.min_host_mem_gib
      → (node_group_increase_size sets s id delta (ok groups) now w).0 ≢ replied tt
  node_group_increase_size-true_nas_capacity_adapter s id delta groups g cfg pools now w gated
        chosen configured floor h =
      let scaled = node_group_increase_size-IsScaled sets s id delta now w (ok groups) h in
      let same_groups : scaled.groups ≡ groups = cc scaled.discovered in
      let same : scaled.group ≡ g =
        cc (chosen, subst (λ gs. find_group id gs ≡ some scaled.group) same_groups scaled.chosen) in
      adapter_blocks s g cfg pools gated configured floor (subst (HasPassed s) same scaled.passed)

  -- A group that was discovered while a rotation step held the lock is not scaled up: its maximum is
  -- its size then, so that every positive delta is refused before anything is written, whether or not
  -- the lock is gone by the time of the write. The size and the delta add up to less than 2 ^ 63.
  pub increase_machine_count-classify :
      (classes : Store MachineClass) (c : classes.State) (seen now : Time) (ms : MachineSet)
      (g : NodeGroup) (n : ℕ) (w : sets.State)
      → classify classes seen ms c ≡ ok (some g)
      → lock_blocks (ms.annotations rotation_lock_annotation) seen ≡ true
      → g.current_size + suc n < int64_bound
      → increase_machine_count sets g (pos (suc n)) now w ≡ (err (rejected at_or_above_max), w)
  unfolding group_with window
  increase_machine_count-classify classes c seen now ms g n w found locked fits =
      let group = classify-IsNodeGroup classes c seen ms g found in
      let paused = record group.cfg { min = group.a.machine_count; max = group.a.machine_count } in
      let sized : g.current_size ≡ group.a.machine_count =
        ap (λ (x : NodeGroup). x.current_size) group.made in
      let configured : g.config ≡ some paused =
        ap (λ (x : NodeGroup). x.config) group.made
        ∙ ap (λ b. some (window b group.a.machine_count group.cfg)) locked in
      increase_machine_count-over_max sets g now w paused n configured (omega arith) fits
