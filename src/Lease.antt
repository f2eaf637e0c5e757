-- ===== src/Lease.antt =====
-- internal/singleton/singleton.go: the lease that one provider instance at a time holds, kept in
-- three annotations of the provider's status resource.
pub mod Claim
pub mod Acquire
pub mod Run
pub mod Exclusion
pub mod Renewal
pub mod Refresh
mod Tests
use omni_infra_provider_true.Base.{
  ◌-◌, ℕ, ◌+◌, ◌*◌, ◌%◌, ◌<◌, ◌≤◌, ◌≡◌, refl, ap, arith, Bool, Bool-cases, inl, inr, true, false,
  ◌&&◌, Option, none, some, String, ltb, if◌then◌else◌,
}
use omni_infra_provider_true.Base.Int.{
  ℤ, pos, negsuc, pos_part, neg_part, ◌<ℤ◌, ◌≤ℤ◌, ltb_ℤ, leb_ℤ, int64_bound, u64_mod,
}
use omni_infra_provider_true.Base.Result.{Result, ok, err}
use omni_infra_provider_true.Clock.{Time, Duration, time_sub, ns_per_second}
use omni_infra_provider_true.Text.{Text, codes, text_eq}
use omni_infra_provider_true.Text.Decimal.{format_uint, parse_uint}
use omni_infra_provider_true.Omni.{Annotations, ProviderStatus, set_annotation, delete_annotation}

abbrev pub annotation_instance_id : String
annotation_instance_id = "bearbinary.com/singleton-instance-id"

abbrev pub annotation_heartbeat : String
annotation_heartbeat = "bearbinary.com/singleton-heartbeat"

abbrev pub annotation_epoch : String
annotation_epoch = "bearbinary.com/singleton-epoch"

-- 15 and 45 seconds.
abbrev pub default_refresh_interval : Duration
default_refresh_interval = pos (15 * ns_per_second)

abbrev pub default_stale_after : Duration
default_stale_after = pos (45 * ns_per_second)

abbrev pub max_consecutive_refresh_errors : ℕ
max_consecutive_refresh_errors = 3

-- Go's `Format` and `Parse` with `time.RFC3339Nano`: an instant of the years 1970 to 9999, in UTC,
-- is read back to the nanosecond.
pub record Rfc3339 : Type 0 where
  pub format : Time → Text
  pub parse : Text → Option Time
  pub parse_format :
      (n : ℕ) → n < 253402300800 * ns_per_second → parse (format (pos n)) ≡ some (pos n)

pub record Config : Type 0 where
  pub provider_id : Text
  pub instance_id : Text
  pub refresh_interval : Duration
  pub stale_after : Duration

-- `lost` is whether the channel `Lost()` is closed.
pub record Lease : Type 0 where
  pub cfg : Config
  pub was_takeover : Bool
  pub epoch : ℕ
  pub lost : Bool

pub data NewError : Type 0 where
  provider_id_required stale_after_too_short : NewError

-- `2 * d` on int64.
twice : Duration → Duration
twice (pos n) = if ltb (2 * n) int64_bound then pos (2 * n) else negsuc (u64_mod - 2 * n - 1)
twice (negsuc n) = negsuc (2 * n + 1)

-- A duration that is not positive is replaced.
default_to : Duration → Duration → Duration
default_to d v = if leb_ℤ v (pos 0) then d else v

with_defaults : Text → Config → Config
unfolding default_to
with_defaults uuid cfg = record {
  provider_id = cfg.provider_id;
  instance_id = if text_eq cfg.instance_id (codes "") then uuid else cfg.instance_id;
  refresh_interval = default_to default_refresh_interval cfg.refresh_interval;
  stale_after = default_to default_stale_after cfg.stale_after;
}

checked : Config → Result NewError Lease
unfolding twice
checked cfg =
    if ltb_ℤ cfg.stale_after (twice cfg.refresh_interval)
    then err stale_after_too_short
    else ok (record { cfg = cfg; was_takeover = false; epoch = 0; lost = false })

-- `New`; the first argument is the UUID that is made for an empty instance ID.
unfoldable pub new : Text → Config → Result NewError Lease
unfolding checked with_defaults
new uuid cfg =
    if text_eq cfg.provider_id (codes "")
    then err provider_id_required
    else checked (with_defaults uuid cfg)

number_or_zero : Option ℕ → ℕ
number_or_zero none = 0
number_or_zero (some n) = n

epoch_of : Option Text → ℕ
unfolding number_or_zero
epoch_of none = 0
epoch_of (some s) = number_or_zero (parse_uint s)

-- `readEpochAnnotation`.
unfoldable pub read_epoch_annotation : ProviderStatus → ℕ
unfolding epoch_of
read_epoch_annotation res = epoch_of (res.annotations annotation_epoch)

module _ (rfc : Rfc3339) where
  since : Time → Option Time → Option Duration
  since now none = none
  since now (some t) = some (time_sub now t)

  age_of : Time → Option Time → Option Text → Option Duration
  unfolding since
  age_of now updated none = since now updated
  age_of now updated (some heartbeat) = since now (rfc.parse heartbeat)

  -- `leaseAge`: the heartbeat where there is one, else the server's update time.
  unfoldable pub lease_age : ProviderStatus → Time → Option Duration
  unfolding age_of
  lease_age res now = age_of now res.updated (res.annotations annotation_heartbeat)

  -- The three annotations that every claim and every refresh writes.
  unfoldable pub write_lease : Lease → Time → ProviderStatus → ProviderStatus
  write_lease l now res = record res {
    annotations = set_annotation annotation_epoch (format_uint l.epoch) (
        set_annotation annotation_heartbeat (rfc.format now)
          (set_annotation annotation_instance_id l.cfg.instance_id res.annotations));
  }

-- The three annotations that `Release` deletes.
unfoldable pub clear_lease : ProviderStatus → ProviderStatus
clear_lease res = record res {
  annotations = delete_annotation annotation_epoch (
      delete_annotation annotation_heartbeat
        (delete_annotation annotation_instance_id res.annotations));
}

default_to-positive : (d v : Duration) → pos 0 <ℤ d → pos 0 <ℤ default_to d v
unfolding default_to
default_to-positive d v h = ground arith

default_to-short :
    (v : Duration)
    → v <ℤ pos 4611686018427387904
    → default_to default_refresh_interval v <ℤ pos 4611686018427387904
unfolding default_to
default_to-short v h = ground arith

with_defaults-named :
    (uuid : Text) (cfg : Config)
    → text_eq uuid (codes "") ≡ false
    → text_eq (with_defaults uuid cfg).instance_id (codes "") ≡ false
unfolding with_defaults
with_defaults-named uuid cfg h = ground arith

checked_ok :
    (cfg : Config) (l : Lease)
    → checked cfg ≡ ok l
    → (l.cfg ≡ cfg) × (l.epoch ≡ 0) × (twice cfg.refresh_interval ≤ℤ cfg.stale_after)
unfolding checked
checked_ok cfg l h = (ground arith, ground arith, ground arith)

twice-small :
    (d : Duration) → pos 0 <ℤ d → d <ℤ pos 4611686018427387904 → twice d ≡ pos (2 * pos_part d)
unfolding twice
twice-small (pos n) p h = ground arith
twice-small (negsuc n) p h = absurd (omega arith)

-- What `New` promises of the lease that it makes.
pub record IsFresh (l : Lease) : Type 0 where
  pub named : text_eq l.cfg.instance_id (codes "") ≡ false
  pub beats : pos 0 <ℤ l.cfg.refresh_interval
  pub stales : pos 0 <ℤ l.cfg.stale_after
  pub twice_beats : 2 * pos_part l.cfg.refresh_interval ≤ pos_part l.cfg.stale_after
  pub unfenced : l.epoch ≡ 0

checked-IsFresh :
    (cfg : Config) (l : Lease)
    → text_eq cfg.instance_id (codes "") ≡ false
    → pos 0 <ℤ cfg.refresh_interval
    → pos 0 <ℤ cfg.stale_after
    → cfg.refresh_interval <ℤ pos 4611686018427387904
    → checked cfg ≡ ok l
    → IsFresh l
checked-IsFresh cfg l named beats stales short made =
    let (e, unfenced, enough) = checked_ok cfg l made in
    record {
      named = rw e named;
      beats = rw e beats;
      stales = rw e stales;
      twice_beats = rw e (
          omega (
            arith,
            enough,
            stales,
            ap pos_part (twice-small cfg.refresh_interval beats short),
            ap neg_part (twice-small cfg.refresh_interval beats short),
          ));
      unfenced = unfenced;
    }

-- Given a non-empty UUID and a refresh interval below 146 years, where doubling it does not wrap,
-- a lease that `New` makes has a non-empty instance ID, both of its durations are positive, and it
-- goes stale no sooner than after two refresh intervals, whatever the configuration left out.
new-IsFresh :
    (uuid : Text) (cfg : Config) (l : Lease)
    → text_eq uuid (codes "") ≡ false
    → cfg.refresh_interval <ℤ pos 4611686018427387904
    → new uuid cfg ≡ ok l
    → IsFresh l
unfolding new
new-IsFresh uuid cfg l named short made = elim (Bool-cases (text_eq cfg.provider_id (codes ""))) [
  | inl e ↦ absurd (ground arith)
  | inr e ↦
      checked-IsFresh (with_defaults uuid cfg) l (with_defaults-named uuid cfg named)
        (default_to-positive default_refresh_interval cfg.refresh_interval (omega arith))
        (default_to-positive default_stale_after cfg.stale_after (omega arith))
        (default_to-short cfg.refresh_interval short) (rw e at made)
]
