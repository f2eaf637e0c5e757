-- ===== src/Rotation/Cycle/Members.antt =====
-- The members of a set after a replacement came, and after a stale one left.
use mathlib.Core.List.{append-nil}
use omni_infra_provider_true.Base.{
  ◌+◌, ◌≡◌, true, List, [], ◌∷◌, ◌++◌, select, count_if, count_if-append, select-append, arith,
}
use omni_infra_provider_true.Rotation.Candidate.{RequestStatus, is_fresh_provisioned}

-- A provisioned fresh member adds one to the fresh, and nothing to the stale.
module _ (r : RequestStatus) (fresh : is_fresh_provisioned r ≡ true) (xs : List RequestStatus) where
  pub fresh-append :
      count_if is_fresh_provisioned (xs ++ r ∷ []) ≡ count_if is_fresh_provisioned xs + 1
  unfolding count_if
  fresh-append = ground (arith, count_if-append is_fresh_provisioned xs (r ∷ []))

  pub stale-append : select (λ x. x.stale) (xs ++ r ∷ []) ≡ select (λ x. x.stale) xs
  unfolding select
  stale-append = ground (
    arith,
    select-append (λ (x : RequestStatus). x.stale) xs (r ∷ []),
    append-nil (select (λ (x : RequestStatus). x.stale) xs),
  )

-- A stale member at the head is no fresh one.
module _ (r : RequestStatus) (is_stale : r.stale ≡ true) (xs : List RequestStatus) where
  pub fresh-cons : count_if is_fresh_provisioned (r ∷ xs) ≡ count_if is_fresh_provisioned xs
  unfolding count_if
  fresh-cons = ground arith

  pub stale-cons : select (λ x. x.stale) (r ∷ xs) ≡ r ∷ select (λ x. x.stale) xs
  unfolding select
  stale-cons = ground arith
