-- ===== src/Lease/Acquire.antt =====
-- `Acquire`, `tryCreate` and `casAcquire`: what the state client answers, and what other processes
-- do in between, is an input.
pub mod Views
pub mod Attempts
use omni_infra_provider_true.Base.{◌≡◌, ◌⊎◌, inl, inr, refl, ap, arith, ◌<◌}
use omni_infra_provider_true.Base.{ℕ, zero, suc, List, [], ◌∷◌, Option, none, some}
use omni_infra_provider_true.Base.Result.{Result, ok, err}
use omni_infra_provider_true.Clock.{Time}
use omni_infra_provider_true.Omni.{ProviderStatus}
use omni_infra_provider_true.Omni.Store.{StateError, not_found, conflict, unavailable}
use omni_infra_provider_true.Lease.{Rfc3339, Lease}
use omni_infra_provider_true.Lease.Claim.{LeaseHeld, decide}

-- The client's answers during one attempt: none is success. The update hands the mutator the live
-- resource once more after each conflict; each view is listed with the clock that the mutator reads.
pub record Attempt : Type 0 where
  pub get : Option StateError
  pub create : Option StateError
  pub views : List (Time × ProviderStatus)
  pub update : Option StateError

pub data AcquireError : Type 0 where
  held : LeaseHeld → AcquireError
  create_failed read_failed update_failed : StateError → AcquireError
  out_of_attempts : AcquireError

-- One attempt ends the loop, or the loop goes on.
pub data Round : Type 0 where
  done : Result AcquireError (Unit {0}) → Round
  again : Round

abbrev pub max_attempts : ℕ
max_attempts = 3

module _ (rfc : Rfc3339) where
  -- A refusal ends the update; a claim that is accepted is written, and may lose a conflict.
  after_view :
      Result LeaseHeld Lease → Lease → (Lease → Option LeaseHeld × Lease) → Option LeaseHeld × Lease
  after_view (err h) l next = (some h, l)
  after_view (ok l') l next = next l'

  -- The mutator on each view: the lease keeps in memory what a try that lost a conflict left there.
  unfoldable pub claim_views : Lease → List (Time × ProviderStatus) → Option LeaseHeld × Lease
  unfolding after_view
  claim_views l [] = (none, l)
  claim_views l ((now, res) ∷ views) =
      after_view (decide rfc l now res) l (λ l'. claim_views l' views)

  after_update : Option LeaseHeld → Option StateError → Round
  after_update (some h) answer = done (err (held h))
  after_update none none = done (ok tt)
  after_update none (some not_found) = again
  after_update none (some conflict) = done (err (update_failed conflict))
  after_update none (some unavailable) = done (err (update_failed unavailable))

  -- `casAcquire` with the branches that `Acquire` takes on its results.
  unfoldable pub cas_acquire : Lease → Attempt → Round × Lease
  unfolding claim_views after_update
  cas_acquire l a = let (refusal, l') = claim_views l a.views in (after_update refusal a.update, l')

  -- `tryCreate`'s answer: a conflict falls through to the update.
  create_or : Option StateError → Lease → Attempt → Round × Lease
  unfolding cas_acquire
  create_or none l a = (done (ok tt), l)
  create_or (some conflict) l a = cas_acquire l a
  create_or (some not_found) l a = (done (err (create_failed not_found)), l)
  create_or (some unavailable) l a = (done (err (create_failed unavailable)), l)

  attempt_on : Option StateError → Lease → Attempt → Round × Lease
  unfolding create_or cas_acquire
  attempt_on none l a = cas_acquire l a
  attempt_on (some not_found) l a = create_or a.create (record l { epoch = 1 }) a
  attempt_on (some conflict) l a = (done (err (read_failed conflict)), l)
  attempt_on (some unavailable) l a = (done (err (read_failed unavailable)), l)

  -- One turn of the loop.
  unfoldable pub attempt : Lease → Attempt → Round × Lease
  unfolding attempt_on
  attempt l a = attempt_on a.get l a

  -- What follows an attempt: its result, or the next attempts.
  go_on :
      Round
      → (Lease → Result AcquireError (Unit {0}) × Lease)
      → Lease
      → Result AcquireError (Unit {0}) × Lease
  go_on (done r) next l = (r, l)
  go_on again next l = next l

  unfoldable pub attempts : ℕ → Lease → (ℕ → Attempt) → Result AcquireError (Unit {0}) × Lease
  unfolding attempt go_on
  attempts zero l script = (err out_of_attempts, l)
  attempts (suc n) l script =
      let (round, l') = attempt l (script zero) in
      go_on round (λ l₁. attempts n l₁ (λ i. script (suc i))) l'

  unfoldable pub acquire : Lease → (ℕ → Attempt) → Result AcquireError (Unit {0}) × Lease
  unfolding attempts
  acquire l script = attempts max_attempts l script
