-- ===== src/Rotation/Reconciler/Ownership.antt =====
-- What a tick may destroy.
use omni_infra_provider_true.Base.{
  ◌≡◌, ◌≢◌, ◌⊎◌, inl, inr, refl, true, false, List, [], ◌∷◌, ◌++◌, some, All,
}
use omni_infra_provider_true.Base.Result.{ok}
use omni_infra_provider_true.Clock.{Time, Duration}
use omni_infra_provider_true.Omni.{MachineSet, MachineClass, MachineRequest}
use omni_infra_provider_true.Omni.Store.{Store}
use omni_infra_provider_true.Rotation.Annotations.{
  Role, Strategy, control_plane, worker, in_place, parse_machine_class_rotation_config-roles,
}
use omni_infra_provider_true.Rotation.Candidate.{Candidate}
use omni_infra_provider_true.Rotation.Decision.{teardown_stale}
use omni_infra_provider_true.Rotation.Plan.{plan}
use omni_infra_provider_true.Rotation.Plan.About.{candidate-plan}
use omni_infra_provider_true.Rotation.Plan.InPlace.{plan-teardown_iff}
use omni_infra_provider_true.Rotation.Engine.Execute.{World}
use omni_infra_provider_true.Rotation.Generation.{Digest}
use omni_infra_provider_true.Rotation.Discovery.{Discoverer, Listing, discover, check_role_mismatch}
use omni_infra_provider_true.Rotation.Discovery.Sound.{IsCandidate, discover-IsCandidate}
use omni_infra_provider_true.Rotation.Engine.Execute.Requests.{execute_keeps_requests}
use omni_infra_provider_true.Rotation.Reconciler.{act}

All-mid {ℓ κ} :
    {A : Type ℓ} (P : A → Type κ) (xs : List A) (y : A) (ys : List A) → All P (xs ++ y ∷ ys) → P y
All-mid P [] y ys h = h.0
All-mid P (x ∷ xs) y ys h = All-mid P xs y ys h.1

-- A set labelled as a control plane passes only under that role.
role_of_label :
    (ms : MachineSet) (role : Role)
    → ms.labels.control_plane ≡ true
    → check_role_mismatch false ms role ≡ true
    → role ≡ control_plane
unfolding check_role_mismatch
role_of_label ms control_plane labelled h = refl
role_of_label ms worker labelled h = absurd (cc (rw labelled at h))

not_both :
    {role : Role} {strategy : Strategy}
    → (role ≡ worker) ⊎ (strategy ≢ in_place)
    → role ≡ control_plane
    → strategy ≡ in_place
    → ⊥
not_both (inl w) r s = cc (w, r)
not_both (inr k) r s = k s

module _ (digest : Digest) (d : Discoverer) (listing : Listing) (before after : List Candidate)
    (c : Candidate) where
  -- With the declared role not trusted, which is the default, no discovered set that carries the
  -- control-plane label is ever rotated in place.
  control_plane-not_torn_down :
      (now : Time) (lock_ttl : Duration)
      → d.trust_declared_role ≡ false
      → discover digest d listing ≡ ok (before ++ c ∷ after)
      → c.machine_set.labels.control_plane ≡ true
      → (plan now lock_ttl (some c)).action ≢ teardown_stale
  control_plane-not_torn_down now lock_ttl distrusted found labelled h =
      let found_c =
        All-mid (IsCandidate digest d listing) before c after
          (discover-IsCandidate digest d listing (before ++ c ∷ after) found) in
      let role =
        role_of_label c.machine_set c.config.role labelled (rw distrusted at found_c.role) in
      let (victim, may, target) = (plan-teardown_iff now lock_ttl c).0 h in
      let (opt_in, pair) =
        parse_machine_class_rotation_config-roles c.machine_class.annotations c.config
          found_c.class.parsed in
      not_both pair role may.by_in_place

  -- With the declared role not trusted, which is the default, the turn of a discovered set that
  -- carries the control-plane label destroys no machine request, at any time, in any state of Omni
  -- and under any annotation of its class.
  pub act-control_plane :
      (sets : Store MachineSet) (classes : Store MachineClass) (requests : Store MachineRequest)
      (lock_ttl : Duration) (planned executed : Time) (w : World sets classes requests)
      → d.trust_declared_role ≡ false
      → discover digest d listing ≡ ok (before ++ c ∷ after)
      → c.machine_set.labels.control_plane ≡ true
      → (act sets classes requests d.provider_id lock_ttl
          (planned, executed)
          c
          w).1.machine_requests
        ≡ w.machine_requests
  unfolding act
  act-control_plane sets classes requests lock_ttl planned executed w distrusted found labelled =
      execute_keeps_requests sets classes requests d.provider_id c (plan planned lock_ttl (some c))
        executed w (candidate-plan planned lock_ttl c)
        (control_plane-not_torn_down planned lock_ttl distrusted found labelled)
