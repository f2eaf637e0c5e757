-- ===== src/Lease/Refresh.antt =====
-- When a refresh is refused, and what it writes otherwise.
use omni_infra_provider_true.Base.{
  ℕ, ◌*◌, ◌<◌, ◌≡◌, ◌↔◌, ◌⊎◌, refl, sym, subst, Bool, true, false, not, List, Option, none, some,
  inl, inr, arith,
}
use omni_infra_provider_true.Base.Int.{u64_mod, pos}
use omni_infra_provider_true.Base.Result.{ok, err}
use omni_infra_provider_true.Clock.{Time, ns_per_second}
use omni_infra_provider_true.Text.{Text, text_eq}
use omni_infra_provider_true.Omni.{ProviderStatus}
use omni_infra_provider_true.Lease.{Rfc3339, Lease, read_epoch_annotation, write_lease}
use omni_infra_provider_true.Lease.Claim.{
  owner_of, Stolen, by_instance, epoch_advanced, refresh, refresh_by, refresh_owned,
}
use omni_infra_provider_true.Lease.Renewal.{IsWritten, write_lease-IsWritten}

-- Another instance is the owner, or a later epoch than that in memory is on disk.
abbrev pub IsLost : Lease → ProviderStatus → Type 0
IsLost l res =
    ((owner : Text) × (owner_of res ≡ some owner) × (text_eq owner l.cfg.instance_id ≡ false))
    ⊎ ((0 < l.epoch) × (l.epoch < read_epoch_annotation res))

module _ (rfc : Rfc3339) (l : Lease) (now : Time) (res : ProviderStatus) where
  stolen_how :
      (b : Bool) (owner : Text) (why : Stolen)
      → refresh_owned b owner rfc l now res ≡ err why
      → (b ≡ true) ⊎ ((0 < l.epoch) × (l.epoch < read_epoch_annotation res))
  unfolding refresh_owned
  stolen_how true owner why e = inl refl
  stolen_how false owner why e = inr (ground arith, ground arith)

  stolen_by_epoch :
      (b : Bool) (owner : Text)
      → 0 < l.epoch
      → l.epoch < read_epoch_annotation res
      → (why : Stolen) × (refresh_owned b owner rfc l now res ≡ err why)
  unfolding refresh_owned
  stolen_by_epoch true owner p q = (by_instance owner, refl)
  stolen_by_epoch false owner p q = (epoch_advanced (read_epoch_annotation res), ground arith)

  written_of :
      (b : Bool) (owner : Text) (res' : ProviderStatus)
      → refresh_owned b owner rfc l now res ≡ ok res'
      → res' ≡ write_lease rfc l now res
  unfolding refresh_owned
  written_of true owner res' e = absurd (cc e)
  written_of false owner res' e = ground arith

  IsLost-stolen :
      (o : Option Text) (why : Stolen)
      → owner_of res ≡ o
      → refresh_by o rfc l now res ≡ err why
      → IsLost l res
  unfolding refresh_by
  IsLost-stolen none why owned e = elim (stolen_how false List.[] why e) [
    | inl k ↦ absurd (cc k)
    | inr k ↦ inr k
  ]
  IsLost-stolen (some owner) why owned e =
      elim (stolen_how (not (text_eq owner l.cfg.instance_id)) owner why e) [
        | inl k ↦ inl (owner, owned, ground arith)
        | inr k ↦ inr k
      ]

  refused_of_lost :
      (o : Option Text)
      → owner_of res ≡ o
      → IsLost l res
      → (why : Stolen) × (refresh_by o rfc l now res ≡ err why)
  unfolding refresh_by refresh_owned
  refused_of_lost none owned (inl (owner, owned', foreign)) = absurd (cc (owned, owned'))
  refused_of_lost (some owner) owned (inl (owner', owned', foreign)) =
      (by_instance owner, ground arith)
  refused_of_lost none owned (inr (p, q)) = stolen_by_epoch false List.[] p q
  refused_of_lost (some owner) owned (inr (p, q)) =
      stolen_by_epoch (not (text_eq owner l.cfg.instance_id)) owner p q

  -- A refresh reports the lease as stolen exactly when another instance is the owner, or the lease
  -- has an epoch and a later one is on disk.
  refresh-stolen_iff : ((why : Stolen) × (refresh rfc l now res ≡ err why)) ↔ IsLost l res
  unfolding refresh
  refresh-stolen_iff = (
    λ p. IsLost-stolen (owner_of res) p.0 refl p.1,
    λ lost. refused_of_lost (owner_of res) refl lost,
  )

  refresh_writes :
      (o : Option Text) (res' : ProviderStatus)
      → refresh_by o rfc l now res ≡ ok res'
      → res' ≡ write_lease rfc l now res
  unfolding refresh_by
  refresh_writes none res' e = written_of false List.[] res' e
  refresh_writes (some owner) res' e =
      written_of (not (text_eq owner l.cfg.instance_id)) owner res' e

-- A refresh that is not refused renews the heartbeat under the same owner and epoch, readable again.
-- The clock is in the years 1970 to 9999.
refresh-IsWritten :
    (rfc : Rfc3339) (l : Lease) (n : ℕ) (res res' : ProviderStatus)
    → n < 253402300800 * ns_per_second
    → l.epoch < u64_mod
    → refresh rfc l (pos n) res ≡ ok res'
    → IsWritten rfc l (pos n) res'
unfolding refresh
refresh-IsWritten rfc l n res res' calendar fits e =
    subst (IsWritten rfc l (pos n)) (sym (refresh_writes rfc l (pos n) res (owner_of res) res' e))
      (write_lease-IsWritten rfc l n res calendar fits)
