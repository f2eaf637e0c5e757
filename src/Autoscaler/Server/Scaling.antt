-- ===== src/Autoscaler/Server/Scaling.antt =====
-- When a scale-up request succeeds, and what it has done then.
use omni_infra_provider_true.Base.{
  ℕ, ◌≡◌, ◌⊎◌, inl, inr, refl, sym, ap, ◌∙◌, subst, Bool, true, false, List, Option, none, some,
  String, str_eq, if◌then◌else◌,
}
use omni_infra_provider_true.Base.Int.{ℤ, pos, leb_ℤ}
use omni_infra_provider_true.Base.Result.{Result, ok, err}
use omni_infra_provider_true.Clock.{Time}
use omni_infra_provider_true.Text.{Text}
use omni_infra_provider_true.Omni.{MachineSet}
use omni_infra_provider_true.Omni.Store.{Store, StateError}
use omni_infra_provider_true.Autoscaler.Annotations.{Config}
use omni_infra_provider_true.Autoscaler.Capacity.{
  CapacityAnswers, Outcome, allowed, denied_hard, warned_soft, errored, is_allowed, check_capacity,
}
use omni_infra_provider_true.Autoscaler.Discovery.{NodeGroup}
use omni_infra_provider_true.Autoscaler.Writer.{IncreaseError, increase_machine_count}
use omni_infra_provider_true.Autoscaler.Server.{
  Server, Reply, replied, status, crashed, ScaleResult, rejected_invalid, errored_internal, Code,
  invalid_argument, unimplemented, find_group, gate_status, pool_or_default, gate_with, gate_on,
  evaluate_capacity_gate, Answer, written, write_after, increase_found, increase_in,
  node_group_increase_size,
}

-- The gate lets a group pass: there is none, or its decision for the group's pool is a pass.
abbrev pub HasPassed : Server → NodeGroup → Type 0
HasPassed s g =
    (s.gate ≡ none)
    ⊎ ((ask : Text → CapacityAnswers) × (cfg : Config) × (s.gate ≡ some ask)
        × (g.config ≡ some cfg)
        × (is_allowed (check_capacity (ask (pool_or_default s.default_pool g.pool)) cfg).outcome
            ≡ true))

passing_status : (o : Outcome) → gate_status o ≡ none → is_allowed o ≡ true
unfolding gate_status is_allowed
passing_status allowed h = refl
passing_status warned_soft h = refl
passing_status denied_hard h = absurd (cc h)
passing_status errored h = absurd (cc h)

gate_with_passed :
    (s : Server) (ask : Text → CapacityAnswers) (pool : Text) (o : Option Config)
    → gate_with s ask pool o ≡ replied none
    → (cfg : Config) × (o ≡ some cfg)
      × (is_allowed (check_capacity (ask (pool_or_default s.default_pool pool)) cfg).outcome ≡ true)
unfolding gate_with
gate_with_passed s ask pool none h = absurd (cc h)
gate_with_passed s ask pool (some cfg) h = (
  cfg,
  refl,
  passing_status (check_capacity (ask (pool_or_default s.default_pool pool)) cfg).outcome (cc h),
)

gate_on-HasPassed :
    (s : Server) (gate : Option (Text → CapacityAnswers)) (g : NodeGroup)
    → s.gate ≡ gate
    → gate_on s gate g ≡ replied none
    → HasPassed s g
unfolding gate_on
gate_on-HasPassed s none g p h = inl p
gate_on-HasPassed s (some ask) g p h =
    let (cfg, e, passed) = gate_with_passed s ask g.pool g.config h in inr (ask, cfg, p, e, passed)

-- What stands behind a scale-up that succeeded.
pub record IsScaled (sets : Store MachineSet) (s : Server) (id : String) (delta : ℤ)
    (found : Result StateError (List NodeGroup)) (now : Time) (w w' : sets.State) : Type 0 where
  pub groups : List NodeGroup
  pub group : NodeGroup
  pub size : ℕ
  pub discovered : found ≡ ok groups
  pub chosen : find_group id groups ≡ some group
  pub passed : HasPassed s group
  pub grown : (increase_machine_count sets group delta now w).0 ≡ ok size
  pub left : w' ≡ (increase_machine_count sets group delta now w).1

module _ (sets : Store MachineSet) (s : Server) (id : String) (delta : ℤ) (now : Time)
    (w : sets.State) where
  written_ok :
      (r : Result IncreaseError ℕ × sets.State)
      → (written sets r).0 ≡ replied tt
      → (size : ℕ) × (r.0 ≡ ok size) × ((written sets r).2 ≡ r.1)
  unfolding written
  written_ok (err e, w') h = absurd (cc h)
  written_ok (ok size, w') h = (size, refl, refl)

  write_after_ok :
      (gate : Reply (Option (ScaleResult × Code))) (g : NodeGroup)
      → (write_after sets gate g delta now w).0 ≡ replied tt
      → (gate ≡ replied none)
        × ((size : ℕ) × ((increase_machine_count sets g delta now w).0 ≡ ok size)
            × ((write_after sets gate g delta now w).2
                ≡ (increase_machine_count sets g delta now w).1))
  unfolding write_after
  write_after_ok (replied none) g h =
      (refl, written_ok (increase_machine_count sets g delta now w) h)
  write_after_ok (replied (some why)) g h = absurd (cc h)
  write_after_ok (status c) g h = absurd (cc h)
  write_after_ok crashed g h = absurd (cc h)

  found-IsScaled :
      (groups : List NodeGroup) (o : Option NodeGroup)
      → find_group id groups ≡ o
      → (increase_found sets s o delta now w).0 ≡ replied tt
      → IsScaled sets s id delta (ok groups) now w (increase_found sets s o delta now w).2
  unfolding increase_found evaluate_capacity_gate
  found-IsScaled groups none p h = absurd (cc h)
  found-IsScaled groups (some g) p h =
      let (gate, (size, grown, left)) = write_after_ok (gate_on s s.gate g) g h in
      record {
        groups = groups;
        group = g;
        size = size;
        discovered = refl;
        chosen = p;
        passed = gate_on-HasPassed s s.gate g refl gate;
        grown = grown;
        left = left;
      }

  in-IsScaled :
      (found : Result StateError (List NodeGroup))
      → (increase_in sets s id delta found now w).0 ≡ replied tt
      → IsScaled sets s id delta found now w (increase_in sets s id delta found now w).2
  unfolding increase_in
  in-IsScaled (err e) h = absurd (cc h)
  in-IsScaled (ok groups) h = found-IsScaled groups (find_group id groups) refl h

  guards_pass :
      (has_discoverer has_writer no_id no_delta : Bool) (x : Answer sets)
      → (if has_discoverer
          then (if has_writer
              then (if no_id
                  then (status invalid_argument, rejected_invalid, w)
                  else if no_delta
                  then (status invalid_argument, rejected_invalid, w)
                  else x)
              else (status unimplemented, errored_internal, w))
          else (status unimplemented, errored_internal, w)).0
        ≡ replied tt
      → (if has_discoverer
          then (if has_writer
              then (if no_id
                  then (status invalid_argument, rejected_invalid, w)
                  else if no_delta
                  then (status invalid_argument, rejected_invalid, w)
                  else x)
              else (status unimplemented, errored_internal, w))
          else (status unimplemented, errored_internal, w))
        ≡ x
  guards_pass false b c d x h = absurd (cc h)
  guards_pass true false c d x h = absurd (cc h)
  guards_pass true true true d x h = absurd (cc h)
  guards_pass true true false true x h = absurd (cc h)
  guards_pass true true false false x h = refl

  -- A scale-up request that is answered with success found its node group, passed the capacity gate,
  -- and its writer's increase succeeded, whose stored sets are what is left. There is no other way to
  -- a success.
  pub node_group_increase_size-IsScaled :
      (found : Result StateError (List NodeGroup))
      → (node_group_increase_size sets s id delta found now w).0 ≡ replied tt
      → IsScaled sets s id delta found now w
          (node_group_increase_size sets s id delta found now w).2
  unfolding node_group_increase_size
  node_group_increase_size-IsScaled found h =
      let e =
        guards_pass s.has_discoverer s.has_writer (str_eq id "") (leb_ℤ delta (pos 0))
          (increase_in sets s id delta found now w) h in
      subst (λ r. IsScaled sets s id delta found now w r.2) (sym e)
        (in-IsScaled found (sym (ap (λ r. r.0) e) ∙ h))
