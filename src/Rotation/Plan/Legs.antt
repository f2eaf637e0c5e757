-- ===== src/Rotation/Plan/Legs.antt =====
-- The legs of the surge state machine: the conditions of its four decisions that write.
use omni_infra_provider_true.Base.{
  ℕ, ◌+◌, ◌≤◌, ◌≡◌, ◌≢◌, refl, List, [], ◌∷◌, Option, none, some, length, arith,
}
use omni_infra_provider_true.Clock.{Time}
use omni_infra_provider_true.Rotation.Phase.{SurgePhase, SurgePhaseState, wait_up, wait_down}
use omni_infra_provider_true.Rotation.Candidate.{
  Candidate, RequestStatus, fresh_count, count_stale_provisioned,
}
use omni_infra_provider_true.Rotation.Decision.{
  Decision, surge_up, surge_down, surge_cycle_complete, surge_aborted, new_decision,
}
use omni_infra_provider_true.Rotation.Plan.{plan_surge, plan_leg, plan_wait_up, expected_fresh}

-- The conditions of the four decisions, on the phase and the stale requests.
pub record MayStart (c : Candidate) (o : Option SurgePhaseState) (stale : List RequestStatus)
    : Type 0 where
  pub idle : o ≡ none
  pub work : stale ≢ []
  pub floor : c.config.min_healthy ≤ fresh_count c + count_stale_provisioned stale

pub record MayDrop (c : Candidate) (o : Option SurgePhaseState) (stale : List RequestStatus)
    (p : SurgePhaseState) : Type 0 where
  pub raised : o ≡ some p
  pub leg : p.phase ≡ wait_up
  pub count : c.machine_count ≡ p.original_count + 1
  -- The fresh members and the stale ones are one more than the set had, and one of them is fresh.
  pub landed : p.original_count + 1 ≤ fresh_count c + length stale
  pub some_fresh : 1 ≤ fresh_count c

pub record MayFinish (c : Candidate) (o : Option SurgePhaseState) (p : SurgePhaseState)
    : Type 0 where
  pub dropped : o ≡ some p
  pub leg : p.phase ≡ wait_down
  pub count : c.machine_count ≡ p.original_count
  pub drained : length c.requests ≤ p.original_count

-- The live count is not the one that the phase expects, or the phase has no known name.
abbrev pub HasDrifted : Candidate → SurgePhase → ℕ → Type 0
HasDrifted c wait_up original = c.machine_count ≢ original + 1
HasDrifted c wait_down original = c.machine_count ≢ original
HasDrifted c (SurgePhase.other s) original = Unit {0}

leg-ne-up :
    (q : SurgePhase) (c : Candidate) (stale : List RequestStatus) (d : Decision)
    (p : SurgePhaseState)
    → (plan_leg q c stale d p).action ≢ surge_up
unfolding plan_leg
leg-ne-up wait_up c stale d p = ground arith
leg-ne-up wait_down c stale d p = ground arith
leg-ne-up (SurgePhase.other s) c stale d p = ground arith

pub may_start :
    (o : Option SurgePhaseState) (c : Candidate) (stale : List RequestStatus) (now : Time)
    → (plan_surge o c stale (new_decision (some c)) now).action ≡ surge_up
    → MayStart c o stale
unfolding plan_surge
may_start none c [] now h = absurd (cc h)
may_start none c (r ∷ stale) now h = record { idle = refl; work = λ e. cc e; floor = ground arith }
may_start (some p) c stale now h = absurd (leg-ne-up p.phase c stale (new_decision (some c)) p h)

pub starts :
    (c : Candidate) (o : Option SurgePhaseState) (stale : List RequestStatus) (now : Time)
    → MayStart c o stale
    → plan_surge o c stale (new_decision (some c)) now ≡ record (new_decision (some c)) {
      action = surge_up;
      surge_next = record {
        phase = wait_up;
        original_count = c.machine_count;
        cycle_started_at = now;
      };
    }
unfolding plan_surge
starts c none [] now m = absurd (m.work refl)
starts c none (r ∷ stale) now m = ground (arith, m.floor)
starts c (some p) stale now m = absurd (cc (m.idle))

leg-down :
    (q : SurgePhase) (c : Candidate) (stale : List RequestStatus) (p : SurgePhaseState)
    → (plan_leg q c stale (new_decision (some c)) p).action ≡ surge_down
    → (q ≡ wait_up)
      × (c.machine_count ≡ p.original_count + 1)
      × (p.original_count + 1 ≤ fresh_count c + length stale)
      × (1 ≤ fresh_count c)
unfolding plan_leg plan_wait_up expected_fresh
leg-down wait_up c stale p h = (refl, ground arith, ground arith, ground arith)
leg-down wait_down c stale p h = absurd (ground arith)
leg-down (SurgePhase.other s) c stale p h = absurd (cc h)

pub may_drop :
    (o : Option SurgePhaseState) (c : Candidate) (stale : List RequestStatus) (now : Time)
    → (plan_surge o c stale (new_decision (some c)) now).action ≡ surge_down
    → (p : SurgePhaseState) × MayDrop c o stale p
unfolding plan_surge
may_drop none c [] now h = absurd (cc h)
may_drop none c (r ∷ stale) now h = absurd (ground arith)
may_drop (some p) c stale now h =
    let (leg, count, landed, some_fresh) = leg-down p.phase c stale p h in
    (
      p,
      record { raised = refl; leg = leg; count = count; landed = landed; some_fresh = some_fresh },
    )

pub drops :
    (c : Candidate) (o : Option SurgePhaseState) (stale : List RequestStatus) (now : Time)
    (p : SurgePhaseState)
    → MayDrop c o stale p
    → plan_surge o c stale (new_decision (some c)) now ≡ record (new_decision (some c)) {
      action = surge_down;
      surge_next = record p { phase = wait_down };
    }
unfolding plan_surge plan_leg plan_wait_up expected_fresh
drops c o stale now p m = ground (arith, m.raised, m.leg, m.count, m.landed, m.some_fresh)

leg-finish :
    (q : SurgePhase) (c : Candidate) (stale : List RequestStatus) (p : SurgePhaseState)
    → (plan_leg q c stale (new_decision (some c)) p).action ≡ surge_cycle_complete
    → (q ≡ wait_down)
      × (c.machine_count ≡ p.original_count)
      × (length c.requests ≤ p.original_count)
unfolding plan_leg
leg-finish wait_up c stale p h = absurd (ground arith)
leg-finish wait_down c stale p h = (refl, ground arith, ground arith)
leg-finish (SurgePhase.other s) c stale p h = absurd (cc h)

pub may_finish :
    (o : Option SurgePhaseState) (c : Candidate) (stale : List RequestStatus) (now : Time)
    → (plan_surge o c stale (new_decision (some c)) now).action ≡ surge_cycle_complete
    → (p : SurgePhaseState) × MayFinish c o p
unfolding plan_surge
may_finish none c [] now h = absurd (cc h)
may_finish none c (r ∷ stale) now h = absurd (ground arith)
may_finish (some p) c stale now h =
    let (leg, count, drained) = leg-finish p.phase c stale p h in
    (p, record { dropped = refl; leg = leg; count = count; drained = drained })

pub finishes :
    (c : Candidate) (o : Option SurgePhaseState) (stale : List RequestStatus) (now : Time)
    (p : SurgePhaseState)
    → MayFinish c o p
    → (plan_surge o c stale (new_decision (some c)) now).action ≡ surge_cycle_complete
unfolding plan_surge plan_leg
finishes c o stale now p m = ground (arith, m.dropped, m.leg, m.count, m.drained)

leg-abort :
    (q : SurgePhase) (c : Candidate) (stale : List RequestStatus) (p : SurgePhaseState)
    → (plan_leg q c stale (new_decision (some c)) p).action ≡ surge_aborted
    → HasDrifted c q p.original_count
unfolding plan_leg
leg-abort wait_up c stale p h = λ e. ground arith
leg-abort wait_down c stale p h = λ e. ground arith
leg-abort (SurgePhase.other s) c stale p h = tt

aborts_leg :
    (q : SurgePhase) (c : Candidate) (stale : List RequestStatus) (p : SurgePhaseState)
    → HasDrifted c q p.original_count
    → (plan_leg q c stale (new_decision (some c)) p).action ≡ surge_aborted
unfolding plan_leg
aborts_leg wait_up c stale p h = ground arith
aborts_leg wait_down c stale p h = ground arith
aborts_leg (SurgePhase.other s) c stale p h = refl

pub may_abort :
    (o : Option SurgePhaseState) (c : Candidate) (stale : List RequestStatus) (now : Time)
    → (plan_surge o c stale (new_decision (some c)) now).action ≡ surge_aborted
    → (p : SurgePhaseState) × (o ≡ some p) × HasDrifted c p.phase p.original_count
unfolding plan_surge
may_abort none c [] now h = absurd (cc h)
may_abort none c (r ∷ stale) now h = absurd (ground arith)
may_abort (some p) c stale now h = (p, refl, leg-abort p.phase c stale p h)

pub aborts :
    (o : Option SurgePhaseState) (c : Candidate) (stale : List RequestStatus) (now : Time)
    (p : SurgePhaseState)
    → o ≡ some p
    → HasDrifted c p.phase p.original_count
    → (plan_surge o c stale (new_decision (some c)) now).action ≡ surge_aborted
unfolding plan_surge
aborts o c stale now p e h = rw e (aborts_leg p.phase c stale p h)
