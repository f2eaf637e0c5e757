-- ===== src/Rotation/Discovery/Sound.antt =====
-- What every discovered candidate satisfies.
use mathlib.Core.List.{Perm}
use omni_infra_provider_true.Base.{
  ◌≡◌, subst, inl, inr, refl, true, List, [], ◌∷◌, Option, none, some, String, str_eq, All,
  Bool-cases,
}
use omni_infra_provider_true.Base.Result.{Result, ok, err}
use omni_infra_provider_true.Text.{Text}
use omni_infra_provider_true.Omni.{MachineSet, MachineClass, MachineRequest, Allocation, Stage}
use omni_infra_provider_true.Omni.Store.{StateError}
use omni_infra_provider_true.Rotation.Generation.{Digest}
use omni_infra_provider_true.Rotation.Candidate.{Candidate, RequestStatus}
use omni_infra_provider_true.Rotation.Candidate.Sorting.{
  IsSorted, sort_requests_by_created_at, sort_requests_by_created_at-IsSorted,
}
use omni_infra_provider_true.Rotation.Discovery.{
  Discoverer, Listing, OptedIn, index_classes, find_class, check_role_mismatch, stage_of, statuses,
  classified, classify_requests, candidate_with, candidate_in, candidate_for, candidate_of,
  candidates, discover_sets, discover_with, discover_classes, discover,
}
use omni_infra_provider_true.Rotation.Discovery.Index.{
  IsOptedIn, All-prepend, some_inj, index_classes-IsOptedIn, find_class-IsOptedIn,
}

-- A candidate stands on its class, its set's allocation and its requests as they were listed.
pub record IsCandidate (digest : Digest) (d : Discoverer) (listing : Listing) (c : Candidate)
    : Type 0 where
  pub class : IsOptedIn digest (record {
    machine_class = c.machine_class;
    config = c.config;
    generation = c.current_generation;
  })
  pub role : check_role_mismatch d.trust_declared_role c.machine_set c.config.role ≡ true
  pub allocated :
      (a : Allocation) × (c.machine_set.allocation ≡ some a)
      × (str_eq c.machine_class.id a.name ≡ true)
      × (c.machine_count ≡ a.machine_count)
  pub members :
      (mrs : List MachineRequest) × (listing.requests c.machine_set.id d.provider_id ≡ ok mrs)
      × Perm c.requests
          (statuses digest c.current_generation (stage_of (listing.stages d.provider_id)) mrs)
      × IsSorted c.requests

module _ (digest : Digest) where
  module _ (d : Discoverer) (listing : Listing) where
    abbrev stages : String → Stage
    stages = stage_of (listing.stages d.provider_id)

    classified-members :
        (set_id : String) (gen : Text) (r : Result StateError (List MachineRequest))
        (reqs : List RequestStatus)
        → listing.requests set_id d.provider_id ≡ r
        → classified digest gen stages r ≡ ok reqs
        → (mrs : List MachineRequest) × (listing.requests set_id d.provider_id ≡ ok mrs)
          × Perm reqs (statuses digest gen stages mrs)
          × IsSorted reqs
    unfolding classified
    classified-members set_id gen (err e) reqs p h = absurd (cc h)
    classified-members set_id gen (ok mrs) reqs p h =
        let same : sort_requests_by_created_at (statuses digest gen stages mrs) ≡ reqs = cc h in
        (
          mrs,
          p,
          subst (λ rs. Perm rs (statuses digest gen stages mrs)) same
              (sort_requests_by_created_at-IsSorted (statuses digest gen stages mrs)).0,
          subst IsSorted same
              (sort_requests_by_created_at-IsSorted (statuses digest gen stages mrs)).1,
        )

    candidate_with-IsCandidate :
        (ms : MachineSet) (a : Allocation) (o : OptedIn)
        (r : Result StateError (List RequestStatus)) (c : Candidate)
        → IsOptedIn digest o
        → str_eq o.machine_class.id a.name ≡ true
        → ms.allocation ≡ some a
        → check_role_mismatch d.trust_declared_role ms o.config.role ≡ true
        → classify_requests digest d listing stages ms.id o.generation ≡ r
        → candidate_with ms a.machine_count o r ≡ some c
        → IsCandidate digest d listing c
    unfolding candidate_with classify_requests
    candidate_with-IsCandidate ms a o (err e) c class named allocated role p h = absurd (cc h)
    candidate_with-IsCandidate ms a o (ok reqs) c class named allocated role p h =
        subst (IsCandidate digest d listing) (some_inj _ c h) (record {
          class = class;
          role = role;
          allocated = (a, allocated, named, refl);
          members =
              classified-members ms.id o.generation (listing.requests ms.id d.provider_id) reqs refl
                p;
        })

    candidate_in-IsCandidate :
        (ms : MachineSet) (a : Allocation) (found : Option OptedIn) (c : Candidate)
        → ms.allocation ≡ some a
        → ((o : OptedIn)
            → found ≡ some o
            → IsOptedIn digest o × (str_eq o.machine_class.id a.name ≡ true))
        → candidate_in digest d listing stages ms a.machine_count found ≡ some c
        → IsCandidate digest d listing c
    unfolding candidate_in
    candidate_in-IsCandidate ms a none c allocated class h = absurd (cc h)
    candidate_in-IsCandidate ms a (some o) c allocated class h =
        elim (Bool-cases (check_role_mismatch d.trust_declared_role ms o.config.role)) [
          | inl e ↦
              let (opted, named) = class o refl in
              candidate_with-IsCandidate ms a o
                (classify_requests digest d listing stages ms.id o.generation) c opted named
                allocated e refl (rw e at h)
          | inr e ↦ absurd (cc (rw e at h))
        ]

    candidate_for-IsCandidate :
        (index : List OptedIn) (ms : MachineSet) (alloc : Option Allocation) (c : Candidate)
        → All (IsOptedIn digest) index
        → ms.allocation ≡ alloc
        → candidate_for digest d listing stages index ms alloc ≡ some c
        → IsCandidate digest d listing c
    unfolding candidate_for
    candidate_for-IsCandidate index ms none c all p h = absurd (cc h)
    candidate_for-IsCandidate index ms (some a) c all p h =
        candidate_in-IsCandidate ms a (find_class a.name index) c p
          (λ o. find_class-IsOptedIn digest a.name index o all) h

    candidates-IsCandidate :
        (index : List OptedIn) (sets : List MachineSet)
        → All (IsOptedIn digest) index
        → All (IsCandidate digest d listing) (candidates digest d listing stages index sets)
    unfolding candidates candidate_of
    candidates-IsCandidate index [] all = tt
    candidates-IsCandidate index (ms ∷ sets) all =
        All-prepend (IsCandidate digest d listing) (candidate_of digest d listing stages index ms)
          (candidates digest d listing stages index sets)
          (λ c. candidate_for-IsCandidate index ms ms.allocation c all refl)
          (candidates-IsCandidate index sets all)

    discover_sets-IsCandidate :
        (index : List OptedIn) (r : Result StateError (List MachineSet)) (cs : List Candidate)
        → All (IsOptedIn digest) index
        → discover_sets digest d listing index r ≡ ok cs
        → All (IsCandidate digest d listing) cs
    unfolding discover_sets
    discover_sets-IsCandidate index (err e) cs all h = absurd (cc h)
    discover_sets-IsCandidate index (ok sets) cs all h =
        let same : candidates digest d listing stages index sets ≡ cs = cc h in
        subst (All (IsCandidate digest d listing)) same (candidates-IsCandidate index sets all)

    discover_with-IsCandidate :
        (index : List OptedIn) (cs : List Candidate)
        → All (IsOptedIn digest) index
        → discover_with digest d listing index ≡ ok cs
        → All (IsCandidate digest d listing) cs
    unfolding discover_with
    discover_with-IsCandidate [] cs all h =
        let same : [] ≡ cs = cc h in subst (All (IsCandidate digest d listing)) same tt
    discover_with-IsCandidate (o ∷ index) cs all h =
        discover_sets-IsCandidate (o ∷ index) (listing.sets d.cluster) cs all h

    discover_classes-IsCandidate :
        (r : Result StateError (List MachineClass)) (cs : List Candidate)
        → discover_classes digest d listing r ≡ ok cs
        → All (IsCandidate digest d listing) cs
    unfolding discover_classes
    discover_classes-IsCandidate (err e) cs h = absurd (cc h)
    discover_classes-IsCandidate (ok mcs) cs h =
        discover_with-IsCandidate (index_classes digest [] mcs) cs
          (index_classes-IsOptedIn digest [] mcs tt) h

    -- Every candidate of a pass stands on a class whose policy parses and whose hash is not empty, and
    -- which its set's allocation names; the role check let its set pass; its count is the
    -- allocation's; and its members are the requests that were listed for the set and the provider,
    -- less those whose hash fails, marked stale by their hash, the oldest first.
    pub discover-IsCandidate :
        (cs : List Candidate)
        → discover digest d listing ≡ ok cs
        → All (IsCandidate digest d listing) cs
    unfolding discover
    discover-IsCandidate cs h = discover_classes-IsCandidate listing.classes cs h
