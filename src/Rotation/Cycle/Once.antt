-- ===== src/Rotation/Cycle/Once.antt =====
-- One surge cycle replaces the oldest member, if it is stale, and leaves the set ready for the next.
use omni_infra_provider_true.Base.{
  suc, ◌+◌, ◌≤◌, ◌≡◌, refl, ap, ◌∙◌, true, false, List, [], ◌∷◌, ◌++◌, none, some, length, count_if,
  count_if-cons_le, length-append, arith,
}
use omni_infra_provider_true.Base.Result.{ok}
use omni_infra_provider_true.Clock.{
  Time, Duration, IsInt64, time_unix, unix_seconds, unix_seconds-time_unix,
}
use omni_infra_provider_true.Omni.{MachineSet, Allocation, delete_annotation, is_provisioned}
use omni_infra_provider_true.Rotation.Annotations.{
  annotation_rotation_state, annotation_surge_phase,
}
use omni_infra_provider_true.Rotation.Phase.{
  SurgePhaseState, wait_up, wait_down, IsPersistable, parse-format_surge_phase,
}
use omni_infra_provider_true.Rotation.Candidate.{
  Candidate, RequestStatus, is_fresh_provisioned, fresh_count, stale_requests, has_active_lock,
  surge_phase, count_stale_provisioned,
}
use omni_infra_provider_true.Rotation.Lock
use omni_infra_provider_true.Rotation.Plan.{plan, stamped_generation}
use omni_infra_provider_true.Rotation.Plan.Guards.{IsSurging, plan_of_IsSurging}
use omni_infra_provider_true.Rotation.Plan.Legs.{MayStart, MayDrop, MayFinish, starts, drops}
use omni_infra_provider_true.Rotation.Plan.Surge.{
  plan-surge_up_iff, plan-surge_down_iff, plan-surge_cycle_complete_iff,
}
use omni_infra_provider_true.Rotation.Engine.{clear_set}
use omni_infra_provider_true.Rotation.Engine.Steps.{stepped, surge_step-up, surge_step-down}
use omni_infra_provider_true.Rotation.Cycle.{observe, IsReady, Cycle}
use omni_infra_provider_true.Rotation.Cycle.Members.{
  fresh-append, stale-append, fresh-cons, stale-cons,
}

-- The phase that a persisted state is read back as.
abbrev floored : SurgePhaseState → SurgePhaseState
floored s = record s { cycle_started_at = time_unix (unix_seconds s.cycle_started_at) }

module _ (c : Candidate) (ttl : Duration) (t₁ t₂ t₃ : Time) (oldest replacement : RequestStatus)
    (rest : List RequestStatus) (ready : IsReady c) (listed : c.requests ≡ oldest ∷ rest)
    (is_stale : oldest.stale ≡ true) (fresh : is_fresh_provisioned replacement ≡ true)
    (in_range : IsInt64 (unix_seconds t₁)) where
  abbrev a : Allocation
  a = ready.allocated.0

  abbrev up_phase : SurgePhaseState
  up_phase = record { phase = wait_up; original_count = c.machine_count; cycle_started_at = t₁ }

  abbrev raised : MachineSet
  raised = stepped c.current_generation t₁ up_phase c.machine_set a (suc a.machine_count)

  abbrev at_raised : Candidate
  at_raised = observe c raised (c.requests ++ replacement ∷ [])

  abbrev down_phase : SurgePhaseState
  down_phase = record (floored up_phase) { phase = wait_down }

  abbrev dropped : MachineSet
  dropped =
      stepped c.current_generation t₂ down_phase raised
        (record a { machine_count = suc a.machine_count }) a.machine_count

  abbrev at_dropped : Candidate
  at_dropped = observe c dropped (rest ++ replacement ∷ [])

  up-IsPersistable : IsPersistable up_phase
  up-IsPersistable = record {
    known = tt;
    count_fits = omega (arith, ready.below_max);
    start_fits = in_range;
  }

  down-IsPersistable : IsPersistable down_phase
  down-IsPersistable = record {
    known = tt;
    count_fits = omega (arith, ready.below_max);
    start_fits = rw (unix_seconds-time_unix (unix_seconds t₁) in_range) in_range;
  }

  idle : surge_phase c ≡ none
  unfolding surge_phase
  idle = rw ready.no_phase

  raised_phase : surge_phase at_raised ≡ some (floored up_phase)
  unfolding surge_phase
  raised_phase = parse-format_surge_phase up_phase up-IsPersistable

  dropped_phase : surge_phase at_dropped ≡ some (floored down_phase)
  unfolding surge_phase
  dropped_phase = parse-format_surge_phase down_phase down-IsPersistable

  unlocked : has_active_lock c t₁ ttl ≡ false
  unfolding has_active_lock Lock.has_active_lock
  unlocked = rw ready.no_lock

  -- The members after the replacement landed, and after the oldest one left.
  fresh_raised : fresh_count at_raised ≡ fresh_count c + 1
  unfolding fresh_count
  fresh_raised = fresh-append replacement fresh c.requests

  stale_raised : stale_requests at_raised ≡ stale_requests c
  unfolding stale_requests
  stale_raised = stale-append replacement fresh c.requests

  fresh_dropped : fresh_count at_dropped ≡ fresh_count c + 1
  unfolding fresh_count
  fresh_dropped =
      ground (arith, fresh-append replacement fresh rest, fresh-cons oldest is_stale rest)

  stale_dropped : stale_requests c ≡ oldest ∷ stale_requests at_dropped
  unfolding stale_requests
  stale_dropped =
      ground (arith, stale-append replacement fresh rest, stale-cons oldest is_stale rest)

  length_dropped : length (rest ++ replacement ∷ []) ≡ c.machine_count
  length_dropped =
      omega (arith, length-append rest (replacement ∷ []), ap length listed, ready.complete)

  starting : IsSurging t₁ ttl c × MayStart c (surge_phase c) (stale_requests c)
  starting = (
    record { stamped = ready.stamped; unlocked = rw unlocked; by_surge = ready.by_surge },
    record { idle = idle; work = λ e. cc (e, stale_dropped); floor = ready.floor },
  )

  dropping :
      IsSurging t₂ ttl at_raised
      × MayDrop at_raised (surge_phase at_raised) (stale_requests at_raised) (floored up_phase)
  unfolding stamped_generation
  dropping = (
    record {
      stamped = ready.stamped;
      unlocked = ground (arith, raised_phase);
      by_surge = ready.by_surge;
    },
    record {
      raised = raised_phase;
      leg = refl;
      count = omega (arith, ready.allocated.2);
      landed = ground (arith, fresh_raised, stale_raised, ready.settled, ready.complete);
      some_fresh = omega (arith, fresh_raised);
    },
  )

  finishing :
      IsSurging t₃ ttl at_dropped
      × MayFinish at_dropped (surge_phase at_dropped) (floored down_phase)
  unfolding stamped_generation
  finishing = (
    record {
      stamped = ready.stamped;
      unlocked = ground (arith, dropped_phase);
      by_surge = ready.by_surge;
    },
    record {
      dropped = dropped_phase;
      leg = refl;
      count = ready.allocated.2;
      drained = omega (arith, length_dropped);
    },
  )

  abbrev cleared : MachineSet
  cleared = record dropped {
    annotations =
        delete_annotation annotation_rotation_state
          (delete_annotation annotation_surge_phase dropped.annotations);
  }

  abbrev after : Candidate
  after = observe c cleared (rest ++ replacement ∷ [])

  clearing : clear_set dropped ≡ ok (tt, cleared)
  unfolding clear_set
  clearing = refl

  up_next : (plan t₁ ttl (some c)).surge_next ≡ up_phase
  up_next =
      ap (λ d. d.surge_next)
        (plan_of_IsSurging t₁ ttl c starting.0
          ∙ starts c (surge_phase c) (stale_requests c) t₁ starting.1)

  down_next : (plan t₂ ttl (some at_raised)).surge_next ≡ down_phase
  down_next =
      ap (λ d. d.surge_next)
        (plan_of_IsSurging t₂ ttl at_raised dropping.0
          ∙ drops at_raised (surge_phase at_raised) (stale_requests at_raised) t₂ (floored up_phase)
              dropping.1)

  -- The three ticks do what they are meant to.
  cycle : Cycle ttl c after rest replacement
  cycle = record {
    oldest = oldest;
    leaves = listed;
    comes = fresh;
    t₁ = t₁;
    t₂ = t₂;
    t₃ = t₃;
    raised = raised;
    dropped = dropped;
    cleared = cleared;
    up = (plan-surge_up_iff t₁ ttl c).1 starting;
    up_write = rw up_next (
        surge_step-up c.current_generation t₁ up_phase c.machine_set a ready.allocated.1
          (omega (arith, ready.below_max, ready.allocated.2)));
    down = (plan-surge_down_iff t₂ ttl at_raised).1 (dropping.0, (floored up_phase, dropping.1));
    down_write = rw down_next (
        surge_step-down c.current_generation t₂ down_phase raised
          (record a { machine_count = suc a.machine_count }) refl a.machine_count
          (omega (arith, ready.below_max, ready.allocated.2)) refl);
    done =
        (plan-surge_cycle_complete_iff t₃ ttl at_dropped).1
          (finishing.0, (floored down_phase, finishing.1));
    done_write = clearing;
    result = refl;
  }

  stale_after : stale_requests after ≡ stale_requests at_dropped
  unfolding stale_requests
  stale_after = refl

  fresh_after : fresh_count after ≡ fresh_count c + 1
  unfolding fresh_count
  fresh_after = fresh_dropped

  floor_after :
      c.config.min_healthy ≤ fresh_count after + count_stale_provisioned (stale_requests after)
  unfolding count_stale_provisioned
  floor_after = omega (
    arith,
    fresh_after,
    ap (count_if (λ r. is_provisioned r.stage)) stale_after,
    ap (count_if (λ r. is_provisioned r.stage)) stale_dropped,
    count_if-cons_le (λ r. is_provisioned r.stage) oldest (stale_requests at_dropped),
    ready.floor,
  )

  -- The set is ready for the next cycle, with one stale member less.
  after-IsReady : IsReady after
  unfolding stamped_generation
  after-IsReady = record {
    stamped = ready.stamped;
    by_surge = ready.by_surge;
    no_phase = refl;
    no_lock = refl;
    allocated = (record a { machine_count = a.machine_count }, refl, refl);
    below_max = omega (arith, ready.below_max, ready.allocated.2);
    complete = omega (arith, length_dropped, ready.allocated.2);
    settled = omega (
      arith,
      fresh_after,
      ap length stale_after,
      ap length stale_dropped,
      ready.settled,
      ready.complete,
      length_dropped,
    );
    floor = floor_after;
  }

  stale_requests-after : stale_requests c ≡ oldest ∷ stale_requests after
  stale_requests-after = cc (stale_dropped, stale_after)

  -- A ready set whose oldest member is stale goes through one whole cycle: each of the three ticks
  -- decides its step and its write succeeds, the oldest member is gone, the replacement has come,
  -- one stale member less is left, and the set is ready again at the count that it had.
  pub Cycle-once :
      (c' : Candidate) × Cycle ttl c c' rest replacement
      × IsReady c'
      × (c'.requests ≡ rest ++ replacement ∷ [])
      × (stale_requests c ≡ oldest ∷ stale_requests c')
      × (c'.machine_count ≡ c.machine_count)
  Cycle-once = (after, cycle, after-IsReady, refl, stale_requests-after, ready.allocated.2)
