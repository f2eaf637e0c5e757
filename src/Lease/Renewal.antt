-- ===== src/Lease/Renewal.antt =====
-- What a claim writes, how the next instance reads it, and a claim after a release.
use omni_infra_provider_true.Base.{
  ℕ, ◌+◌, ◌%◌, ◌*◌, ◌<◌, ◌≡◌, ◌⊎◌, refl, sym, subst, ◌∙◌, ap, true, Option, none, some, ◌==◌,
  if◌then◌else◌, Bool-cases, inl, inr, arith,
}
use omni_infra_provider_true.Base.Int.{u64_mod, pos}
use omni_infra_provider_true.Base.Result.{Result, ok, err}
use omni_infra_provider_true.Clock.{Time, Duration, ns_per_second}
use omni_infra_provider_true.Text.{Text, text_eq, text_eq_refl, text_eq_sound}
use omni_infra_provider_true.Text.Decimal.{parse_uint-format_uint}
use omni_infra_provider_true.Omni.{ProviderStatus}
use omni_infra_provider_true.Lease.{
  Rfc3339, Lease, lease_age, read_epoch_annotation, write_lease, clear_lease,
}
use omni_infra_provider_true.Lease.Claim.{
  LeaseHeld, write_claim, owner_of, claim_owned, claim_aged, take_over, keep, decide, claim,
  release, release_by,
}
use omni_infra_provider_true.Lease.Exclusion.{IsHeld}

-- The resource names the lease's instance, its heartbeat and its epoch.
pub record IsWritten (rfc : Rfc3339) (l : Lease) (now : Time) (res : ProviderStatus) : Type 0 where
  pub held : IsHeld rfc l.cfg.instance_id now res
  pub epoch : read_epoch_annotation res ≡ l.epoch

module _ (rfc : Rfc3339) (l : Lease) (n : ℕ) (res : ProviderStatus)
    (calendar : n < 253402300800 * ns_per_second) where
  pub write_lease-IsWritten :
      l.epoch < u64_mod → IsWritten rfc l (pos n) (write_lease rfc l (pos n) res)
  unfolding write_lease read_epoch_annotation
  write_lease-IsWritten fits = record {
    held = record {
      owned = refl;
      text = rfc.format (pos n);
      beaten = refl;
      read_back = rfc.parse_format n calendar;
    };
    epoch = rw (parse_uint-format_uint l.epoch fits) refl;
  }

module _ (rfc : Rfc3339) (l : Lease) (now : Time) (res : ProviderStatus) where
  ok_of_write :
      (d : Result LeaseHeld Lease) (l' : Lease) (res' : ProviderStatus)
      → write_claim rfc now res d ≡ ok (l', res')
      → (d ≡ ok l') × (res' ≡ write_lease rfc l' now res)
  unfolding write_claim
  ok_of_write (err h) l' res' e = absurd (cc e)
  ok_of_write (ok l₀) l' res' e = (ground arith, ground arith)

  claim_ok :
      (l' : Lease) (res' : ProviderStatus)
      → claim rfc l now res ≡ ok (l', res')
      → (decide rfc l now res ≡ ok l') × (res' ≡ write_lease rfc l' now res)
  unfolding claim
  claim_ok l' res' e = ok_of_write (decide rfc l now res) l' res' e

  aged_how :
      (owner : Text) (a : Option Duration) (prior : ℕ) (l' : Lease)
      → claim_aged a owner prior l ≡ ok l'
      → l' ≡ take_over prior l
  unfolding claim_aged
  aged_how owner none prior l' e = ground arith
  aged_how owner (some age) prior l' e = ground arith

  -- The two ways to claim: a takeover with the next epoch, and a re-entrant claim.
  claimed_how :
      (o : Option Text) (a : Option Duration) (prior : ℕ) (l' : Lease)
      → claim_owned o a prior l ≡ ok l'
      → (l' ≡ take_over prior l) ⊎ ((o ≡ some l.cfg.instance_id) × (l' ≡ keep prior l))
  unfolding claim_owned claim_aged
  claimed_how none a prior l' e = inl (ground arith)
  claimed_how (some owner) a prior l' e = elim (Bool-cases (text_eq owner l.cfg.instance_id)) [
    | inl own ↦ inr (ap some (text_eq_sound owner l.cfg.instance_id own), ground arith)
    | inr foreign ↦ inl (aged_how owner a prior l' (rw foreign at e))
  ]

  -- The epoch that a claim leaves, by the way it was made.
  abbrev pub EpochStep : ℕ → Lease → Type 0
  EpochStep prior l' =
      (l'.epoch ≡ prior + 1)
      ⊎ ((owner_of res ≡ some l.cfg.instance_id)
          × (l'.epoch ≡ (if l.epoch == 0 then prior else l.epoch)))

  epoch_step :
      (l' : Lease)
      → read_epoch_annotation res + 1 < u64_mod
      → l.epoch < u64_mod
      → decide rfc l now res ≡ ok l'
      → (l'.cfg ≡ l.cfg) × (l'.epoch < u64_mod) × EpochStep (read_epoch_annotation res) l'
  unfolding decide take_over keep
  epoch_step l' room fits e =
      elim (claimed_how (owner_of res) (lease_age rfc res now) (read_epoch_annotation res) l' e) [
        | inl t ↦
            let same : l'.epoch ≡ (read_epoch_annotation res + 1) % u64_mod = ap (λ m. m.epoch) t in
            (ap (λ m. m.cfg) t, omega arith, inl (omega arith))
        | inr (own, k) ↦
            let same : l'.epoch ≡ (if l.epoch == 0 then read_epoch_annotation res else l.epoch) =
              ap (λ m. m.epoch) k in
            (ap (λ m. m.cfg) k, ground arith, inr (own, same))
      ]

module _ (rfc : Rfc3339) (l : Lease) (n : ℕ) (res : ProviderStatus)
    (calendar : n < 253402300800 * ns_per_second) where
  -- A claim that succeeds leaves the claimant as the owner, its clock as the heartbeat and its epoch,
  -- all readable again. The epoch is the next after the one on disk, unless the claimant owned the
  -- resource already: then it is the one in its memory, or the one on disk where it has none. The
  -- clock is in the years 1970 to 9999, and neither epoch is at the end of its 64 bits.
  claim-IsWritten :
      (l' : Lease) (res' : ProviderStatus)
      → read_epoch_annotation res + 1 < u64_mod
      → l.epoch < u64_mod
      → claim rfc l (pos n) res ≡ ok (l', res')
      → IsWritten rfc l' (pos n) res'
        × (l'.cfg ≡ l.cfg)
        × EpochStep rfc l (pos n) res (read_epoch_annotation res) l'
  claim-IsWritten l' res' room fits e =
      let (decided, wrote) = claim_ok rfc l (pos n) res l' res' e in
      let (same, small, epochs) = epoch_step rfc l (pos n) res l' room fits decided in
      (
        subst (IsWritten rfc l' (pos n)) (sym wrote)
            (write_lease-IsWritten rfc l' n res calendar small),
        same,
        epochs,
      )

release_own :
    (owner : Lease) (res : ProviderStatus)
    → owner_of res ≡ some owner.cfg.instance_id
    → release owner res ≡ clear_lease res
unfolding release release_by
release_own owner res owned = rw owned (rw (text_eq_refl owner.cfg.instance_id) refl)

cleared-decide :
    (rfc : Rfc3339) (l : Lease) (now : Time) (res : ProviderStatus)
    → decide rfc l now (clear_lease res) ≡ ok (record l { was_takeover = true; epoch = 1 })
unfolding clear_lease decide claim_owned take_over read_epoch_annotation
cleared-decide rfc l now res = refl

-- After its owner's release, a claim of any instance succeeds at once as a takeover. Its epoch is 1,
-- whatever epoch the owner had.
pub claim-release :
    (rfc : Rfc3339) (owner l : Lease) (now : Time) (res : ProviderStatus)
    → owner_of res ≡ some owner.cfg.instance_id
    → decide rfc l now (release owner res) ≡ ok (record l { was_takeover = true; epoch = 1 })
claim-release rfc owner l now res owned =
    ap (decide rfc l now) (release_own owner res owned) ∙ cleared-decide rfc l now res
