-- ===== src/Lease/Exclusion.antt =====
-- Mutual exclusion: while a heartbeat is fresh, no other instance writes the lease.
use omni_infra_provider_true.Base.{
  ℕ, ◌≡◌, ◌↔◌, refl, sym, subst, ◌∙◌, ap, true, false, Option, none, some, arith,
}
use omni_infra_provider_true.Base.Int.{ltb_ℤ}
use omni_infra_provider_true.Base.Result.{Result, ok, err}
use omni_infra_provider_true.Clock.{Time, Duration, time_sub}
use omni_infra_provider_true.Text.{Text, text_eq}
use omni_infra_provider_true.Omni.{ProviderStatus}
use omni_infra_provider_true.Lease.{
  Rfc3339, Lease, annotation_heartbeat, lease_age, read_epoch_annotation,
}
use omni_infra_provider_true.Lease.Claim.{
  LeaseHeld, write_claim, owner_of, claim_owned, claim_aged, decide, claim, Stolen, refresh,
  refresh_by, refresh_owned, release, release_by,
}

-- Another instance owns the resource, and its last sign of life is younger than `stale_after`.
pub record IsHeldByOther (rfc : Rfc3339) (l : Lease) (now : Time) (res : ProviderStatus)
    (h : LeaseHeld) : Type 0 where
  pub owned : owner_of res ≡ some h.other_instance_id
  pub foreign : text_eq h.other_instance_id l.cfg.instance_id ≡ false
  pub aged : lease_age rfc res now ≡ some h.heartbeat_age
  pub young : ltb_ℤ h.heartbeat_age l.cfg.stale_after ≡ true

module _ (rfc : Rfc3339) (l : Lease) (now : Time) (res : ProviderStatus) where
  refused_parts :
      (o : Option Text) (a : Option Duration) (n : ℕ) (h : LeaseHeld)
      → claim_owned o a n l ≡ err h
      → (o ≡ some h.other_instance_id)
        × (text_eq h.other_instance_id l.cfg.instance_id ≡ false)
        × (a ≡ some h.heartbeat_age)
        × (ltb_ℤ h.heartbeat_age l.cfg.stale_after ≡ true)
  unfolding claim_owned claim_aged
  refused_parts none a n h e = absurd (cc e)
  refused_parts (some owner) none n h e = absurd (ground arith)
  refused_parts (some owner) (some age) n h e =
      (ground arith, ground arith, ground arith, ground arith)

  refused_of_parts :
      (n : ℕ) (h : LeaseHeld)
      → text_eq h.other_instance_id l.cfg.instance_id ≡ false
      → ltb_ℤ h.heartbeat_age l.cfg.stale_after ≡ true
      → claim_owned (some h.other_instance_id) (some h.heartbeat_age) n l ≡ err h
  unfolding claim_owned claim_aged
  refused_of_parts n h foreign young = rw foreign (rw young refl)

  refused_of_write :
      (d : Result LeaseHeld Lease) (h : LeaseHeld) → write_claim rfc now res d ≡ err h → d ≡ err h
  unfolding write_claim
  refused_of_write (err k) h e = cc e
  refused_of_write (ok l') h e = absurd (cc e)

  claim_of_refused :
      (h : LeaseHeld)
      → claim_owned (owner_of res) (lease_age rfc res now) (read_epoch_annotation res) l ≡ err h
      → claim rfc l now res ≡ err h
  unfolding claim decide write_claim
  claim_of_refused h e = ap (write_claim rfc now res) e

  pub claim-refused_iff :
      (h : LeaseHeld) → (claim rfc l now res ≡ err h) ↔ IsHeldByOther rfc l now res h
  unfolding claim decide
  claim-refused_iff h = (
    λ e.
        let (owned, foreign, aged, young) =
          refused_parts (owner_of res) (lease_age rfc res now) (read_epoch_annotation res) h
            (refused_of_write (decide rfc l now res) h e) in
        record { owned = owned; foreign = foreign; aged = aged; young = young },
    λ m. claim_of_refused h (
        ap (λ o. claim_owned o (lease_age rfc res now) (read_epoch_annotation res) l) m.owned
        ∙ ap (λ a. claim_owned (some h.other_instance_id) a (read_epoch_annotation res) l) m.aged
        ∙ refused_of_parts (read_epoch_annotation res) h m.foreign m.young),
  )

  -- A refresh of a resource that another instance owns is refused.
  refresh_foreign :
      (owner : Text)
      → owner_of res ≡ some owner
      → text_eq owner l.cfg.instance_id ≡ false
      → (why : Stolen) × (refresh rfc l now res ≡ err why)
  unfolding refresh refresh_by refresh_owned
  refresh_foreign owner owned foreign = (Stolen.by_instance owner, rw owned (rw foreign refl))

  release_foreign :
      (owner : Text)
      → owner_of res ≡ some owner
      → text_eq owner l.cfg.instance_id ≡ false
      → release l res ≡ res
  unfolding release release_by
  release_foreign owner owned foreign = rw owned (rw foreign refl)

-- What stands in the resource while an instance holds the lease since its last heartbeat.
pub record IsHeld (rfc : Rfc3339) (holder : Text) (heartbeat : Time) (res : ProviderStatus)
    : Type 0 where
  pub owned : owner_of res ≡ some holder
  pub text : Text
  pub beaten : res.annotations annotation_heartbeat ≡ some text
  pub read_back : rfc.parse text ≡ some heartbeat

-- A write of another instance whose clock shows less than its `stale_after` since the heartbeat.
pub data OtherWrite (rfc : Rfc3339) (holder : Text) (heartbeat : Time)
    : ProviderStatus → ProviderStatus → Type 0 where
  claims :
      (l l' : Lease) (now : Time) (res res' : ProviderStatus)
      → text_eq holder l.cfg.instance_id ≡ false
      → ltb_ℤ (time_sub now heartbeat) l.cfg.stale_after ≡ true
      → claim rfc l now res ≡ ok (l', res')
      → OtherWrite rfc holder heartbeat res res'
  refreshes :
      (l : Lease) (now : Time) (res res' : ProviderStatus)
      → text_eq holder l.cfg.instance_id ≡ false
      → refresh rfc l now res ≡ ok res'
      → OtherWrite rfc holder heartbeat res res'
  releases :
      (l : Lease) (res : ProviderStatus)
      → text_eq holder l.cfg.instance_id ≡ false
      → OtherWrite rfc holder heartbeat res (release l res)

-- Any number of such writes, by any number of instances, in any order.
pub data OtherWrites (rfc : Rfc3339) (holder : Text) (heartbeat : Time)
    : ProviderStatus → ProviderStatus → Type 0 where
  done : (res : ProviderStatus) → OtherWrites rfc holder heartbeat res res
  step :
      (res res' res'' : ProviderStatus)
      → OtherWrite rfc holder heartbeat res res'
      → OtherWrites rfc holder heartbeat res' res''
      → OtherWrites rfc holder heartbeat res res''

module _ (rfc : Rfc3339) (holder : Text) (heartbeat : Time) where
  aged_of :
      (now : Time) (res : ProviderStatus)
      → IsHeld rfc holder heartbeat res
      → lease_age rfc res now ≡ some (time_sub now heartbeat)
  unfolding lease_age
  aged_of now res held = rw held.beaten (rw held.read_back refl)

  one_write :
      (res res' : ProviderStatus)
      → IsHeld rfc holder heartbeat res
      → OtherWrite rfc holder heartbeat res res'
      → res' ≡ res
  one_write res res' held (OtherWrite.claims l l' now _ _ foreign young e) =
      let refused =
        (claim-refused_iff rfc l now res
            (record { other_instance_id = holder; heartbeat_age = time_sub now heartbeat })).1
          (record {
            owned = held.owned;
            foreign = foreign;
            aged = aged_of now res held;
            young = young;
          }) in
      absurd (cc (e, refused))
  one_write res res' held (OtherWrite.refreshes l now _ _ foreign e) =
      let (why, refused) = refresh_foreign rfc l now res holder held.owned foreign in
      absurd (cc (e, refused))
  one_write res _ held (OtherWrite.releases l _ foreign) =
      release_foreign rfc l heartbeat res holder held.owned foreign

  -- While a holder's heartbeat is fresh for all the others, no sequence of claims, refreshes and
  -- releases of other instances, however interleaved, changes the resource: the holder, its heartbeat
  -- and its epoch stay.
  pub OtherWrites-unchanged :
      (res res' : ProviderStatus)
      → IsHeld rfc holder heartbeat res
      → OtherWrites rfc holder heartbeat res res'
      → res' ≡ res
  OtherWrites-unchanged res _ held (OtherWrites.done _) = refl
  OtherWrites-unchanged res res'' held (OtherWrites.step _ res' _ w ws) =
      let e = one_write res res' held w in
      OtherWrites-unchanged res' res'' (subst (IsHeld rfc holder heartbeat) (sym e) held) ws ∙ e
