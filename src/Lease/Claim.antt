-- ===== src/Lease/Claim.antt =====
-- One run of the mutators that the lease hands to the state client: `casAcquire`'s, `refresh`'s and
-- `Release`'s. Each sees the live resource, and gives the lease's memory after it with what it
-- writes.
use omni_infra_provider_true.Base.{
  ℕ, ◌+◌, ◌%◌, Bool, true, false, not, ◌&&◌, List, Option, none, some, ltb, ◌==◌, if◌then◌else◌,
}
use omni_infra_provider_true.Base.Int.{ltb_ℤ, u64_mod}
use omni_infra_provider_true.Base.Result.{Result, ok, err}
use omni_infra_provider_true.Clock.{Time, Duration}
use omni_infra_provider_true.Text.{Text, text_eq}
use omni_infra_provider_true.Omni.{ProviderStatus}
use omni_infra_provider_true.Lease.{
  Rfc3339, Lease, annotation_instance_id, read_epoch_annotation, lease_age, write_lease,
  clear_lease,
}

-- `LeaseHeldError`: the other holder, and the age of its heartbeat.
pub record LeaseHeld : Type 0 where
  pub other_instance_id : Text
  pub heartbeat_age : Duration

-- The lease after a takeover.
unfoldable pub take_over : ℕ → Lease → Lease
take_over prior_epoch l = record l { was_takeover = true; epoch = (prior_epoch + 1) % u64_mod }

-- The lease after a re-entrant claim.
unfoldable pub keep : ℕ → Lease → Lease
keep prior_epoch l = record l { epoch = if l.epoch == 0 then prior_epoch else l.epoch }

unfoldable pub claim_aged : Option Duration → Text → ℕ → Lease → Result LeaseHeld Lease
unfolding take_over
claim_aged none owner prior_epoch l = ok (take_over prior_epoch l)
claim_aged (some age) owner prior_epoch l =
    if ltb_ℤ age l.cfg.stale_after
    then err (record { other_instance_id = owner; heartbeat_age = age })
    else ok (take_over prior_epoch l)

unfoldable pub claim_owned : Option Text → Option Duration → ℕ → Lease → Result LeaseHeld Lease
unfolding keep claim_aged take_over
claim_owned none age prior_epoch l = ok (take_over prior_epoch l)
claim_owned (some owner) age prior_epoch l =
    if text_eq owner l.cfg.instance_id
    then ok (keep prior_epoch l)
    else claim_aged age owner prior_epoch l

abbrev pub owner_of : ProviderStatus → Option Text
owner_of res = res.annotations annotation_instance_id

-- The switch of `casAcquire`'s mutator: the lease's memory, or the refusal.
unfoldable pub decide : Rfc3339 → Lease → Time → ProviderStatus → Result LeaseHeld Lease
unfolding claim_owned
decide rfc l now res =
    claim_owned (owner_of res) (lease_age rfc res now) (read_epoch_annotation res) l

-- What follows the switch: the three annotations.
unfoldable pub write_claim :
    Rfc3339
    → Time
    → ProviderStatus
    → Result LeaseHeld Lease
    → Result LeaseHeld (Lease × ProviderStatus)
write_claim rfc now res (err held) = err held
write_claim rfc now res (ok l) = ok (l, write_lease rfc l now res)

unfoldable pub claim :
    Rfc3339 → Lease → Time → ProviderStatus → Result LeaseHeld (Lease × ProviderStatus)
unfolding write_claim decide
claim rfc l now res = write_claim rfc now res (decide rfc l now res)

pub data Stolen : Type 0 where
  by_instance : Text → Stolen
  epoch_advanced : ℕ → Stolen

unfoldable pub refresh_owned :
    Bool → Text → Rfc3339 → Lease → Time → ProviderStatus → Result Stolen ProviderStatus
refresh_owned foreign owner rfc l now res =
    let on_disk = read_epoch_annotation res in
    if foreign
    then err (by_instance owner)
    else if not (l.epoch == 0) && ltb l.epoch on_disk
    then err (epoch_advanced on_disk)
    else ok (write_lease rfc l now res)

unfoldable pub refresh_by :
    Option Text → Rfc3339 → Lease → Time → ProviderStatus → Result Stolen ProviderStatus
unfolding refresh_owned
refresh_by none rfc l now res = refresh_owned false List.[] rfc l now res
refresh_by (some owner) rfc l now res =
    refresh_owned (not (text_eq owner l.cfg.instance_id)) owner rfc l now res

-- `refresh`'s mutator.
unfoldable pub refresh : Rfc3339 → Lease → Time → ProviderStatus → Result Stolen ProviderStatus
unfolding refresh_by
refresh rfc l now res = refresh_by (owner_of res) rfc l now res

unfoldable pub release_by : Option Text → Lease → ProviderStatus → ProviderStatus
release_by none l res = res
release_by (some owner) l res = if text_eq owner l.cfg.instance_id then clear_lease res else res

-- `Release`'s mutator.
unfoldable pub release : Lease → ProviderStatus → ProviderStatus
unfolding release_by
release l res = release_by (owner_of res) l res
