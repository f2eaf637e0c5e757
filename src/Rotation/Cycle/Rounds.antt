-- ===== src/Rotation/Cycle/Rounds.antt =====
-- Surge cycles one after another, until no member is stale.
use mathlib.Core.List.{append_assoc}
use omni_infra_provider_true.Base.{
  ℕ, zero, suc, ◌≡◌, refl, ◌∙◌, true, false, List, [], ◌∷◌, ◌++◌, some, All, length, select, arith,
}
use omni_infra_provider_true.Clock.{Time, Duration, IsInt64, unix_seconds}
use omni_infra_provider_true.Rotation.Candidate.{
  Candidate, RequestStatus, is_fresh_provisioned, stale_requests, surge_phase, has_active_lock,
}
use omni_infra_provider_true.Rotation.Lock
use omni_infra_provider_true.Rotation.Decision.{no_action}
use omni_infra_provider_true.Rotation.Plan.{plan, plan_idle, plan_surge}
use omni_infra_provider_true.Rotation.Plan.Guards.{plan_of_IsSurging, IsSurging}
use omni_infra_provider_true.Rotation.Cycle.{IsReady, Cycle}
use omni_infra_provider_true.Rotation.Cycle.Once.{Cycle-once}

-- So many cycles in a row.
pub data Cycles (ttl : Duration) : ℕ → Candidate → Candidate → Type 0 where
  stop : {c : Candidate} → Cycles ttl zero c c
  more :
      {n : ℕ} {c d e : Candidate} {rest : List RequestStatus} {replacement : RequestStatus}
      → Cycle ttl c d rest replacement
      → Cycles ttl n d e
      → Cycles ttl (suc n) c e

none_stale :
    (xs : List RequestStatus) → All (λ r. r.stale ≡ false) xs → select (λ r. r.stale) xs ≡ []
unfolding select
none_stale [] h = refl
none_stale (r ∷ xs) h = ground (arith, none_stale xs h.1)

All-snoc :
    (xs : List RequestStatus) (r : RequestStatus)
    → All (λ x. x.stale ≡ false) xs
    → r.stale ≡ false
    → All (λ x. x.stale ≡ false) (xs ++ r ∷ [])
All-snoc [] r h e = (e, tt)
All-snoc (x ∷ xs) r h e = (h.0, All-snoc xs r h.1 e)

-- A set that is ready and has no stale member is left alone.
module _ (now : Time) (ttl : Duration) (c : Candidate) (ready : IsReady c)
    (all_fresh : stale_requests c ≡ []) where
  resting-IsSurging : IsSurging now ttl c
  unfolding has_active_lock Lock.has_active_lock
  resting-IsSurging = record {
    stamped = ready.stamped;
    unlocked = rw ready.no_lock;
    by_surge = ready.by_surge;
  }

  plan_rests : (plan now ttl (some c)).action ≡ no_action
  unfolding plan_surge plan_idle surge_phase
  plan_rests = rw (plan_of_IsSurging now ttl c resting-IsSurging, ready.no_phase, all_fresh)

-- What the whole rotation reaches: as many cycles as there were stale members, none of them left, the
-- count as it was, and nothing more to do.
pub record IsRotated (now : Time) (ttl : Duration) (n : ℕ) (c c' : Candidate) : Type 0 where
  pub cycles : Cycles ttl n c c'
  pub ready : IsReady c'
  pub none_left : stale_requests c' ≡ []
  pub same_count : c'.machine_count ≡ c.machine_count
  pub rests : (plan now ttl (some c')).action ≡ no_action

module _ (now : Time) (ttl : Duration) (replacement : ℕ → RequestStatus)
    (fresh : (i : ℕ) → is_fresh_provisioned (replacement i) ≡ true)
    (in_range : IsInt64 (unix_seconds now)) where
  IsRotated-now : (c : Candidate) → IsReady c → stale_requests c ≡ [] → IsRotated now ttl zero c c
  IsRotated-now c ready e = record {
    cycles = stop;
    ready = ready;
    none_left = e;
    same_count = refl;
    rests = plan_rests now ttl c ready e;
  }

  -- A ready surge set whose stale members are the oldest ones is fully rotated: in one cycle for each
  -- stale member, with one replacement each, it reaches the same count with no stale member, and
  -- then the plan is to do nothing.
  pub rotation_completes :
      (old young : List RequestStatus) (c : Candidate)
      → IsReady c
      → c.requests ≡ old ++ young
      → All (λ r. r.stale ≡ true) old
      → All (λ r. r.stale ≡ false) young
      → (c' : Candidate) × IsRotated now ttl (length old) c c'
  unfolding stale_requests
  rotation_completes [] young c ready listed stale kept =
      (c, IsRotated-now c ready (rw listed (none_stale young kept)))
  rotation_completes (r ∷ old) young c ready listed stale kept =
      let (d, once, ready', requests, _, count) =
        Cycle-once c ttl now now now r (replacement (length old)) (old ++ young) ready listed
          stale.0 (fresh (length old)) in_range in
      let (e, rotated) =
        rotation_completes old (young ++ replacement (length old) ∷ []) d ready'
          (requests ∙ append_assoc old young (replacement (length old) ∷ [])) stale.1
          (All-snoc young (replacement (length old)) kept (ground (arith, fresh (length old)))) in
      (
        e,
        record {
          cycles = more once rotated.cycles;
          ready = rotated.ready;
          none_left = rotated.none_left;
          same_count = rotated.same_count ∙ count;
          rests = rotated.rests;
        },
      )
