-- ===== src/Provisioner/Deprovision/Ownership.antt =====
-- A teardown touches only what is tagged as the provider's.
use omni_infra_provider_true.Base.{
  ℕ, ◌≡◌, ◌⊎◌, inl, inr, refl, Bool, true, false, not, ◌&&◌, List, [], ◌∷◌, ◌++◌, All, String, ◌==◌,
  if◌then◌else◌, Bool-cases,
}
use omni_infra_provider_true.Base.Result.{Result, ok, err, passed}
use omni_infra_provider_true.Text.{Text, codes, text_eq, text_eq_sound}
use omni_infra_provider_true.Provisioner.Deprovision.{
  ApiError, not_found, failed, Host, Call, stop_vm, delete_vm, delete_dataset, OwnershipError,
  not_tagged, other_request, Run, is_omni_managed_vm, check_tags, check_properties,
  verify_zvol_ownership, wait_for_graceful_stop, stop_calls, remove_vm, cleanup_fetched, cleanup_vm,
  refusal, cleanup_checked, cleanup_zvol, and_then, cleanup_zvols, deprovision,
}

-- A machine whose description carries the provider's mark.
abbrev pub IsOurVm : Host → ℕ → Type 0
IsOurVm host n =
    (description : Text) × (host.get_vm n ≡ ok description)
    × (is_omni_managed_vm description ≡ true)

-- A volume that is tagged as managed, for this request if both the tag and the request have an ID.
abbrev pub IsOurZvol : Host → Text → Text → Type 0
IsOurZvol host request_id path =
    (props : String → Text) × (host.user_properties path ≡ ok props)
    × (props "org.omni:managed" ≡ codes "true")
    × ((request_id ≡ [])
        ⊎ ((props "org.omni:request-id" ≡ []) ⊎ (props "org.omni:request-id" ≡ request_id)))

abbrev pub IsOurs : Host → Text → Call → Type 0
IsOurs host request_id (stop_vm n force) = IsOurVm host n
IsOurs host request_id (delete_vm n) = IsOurVm host n
IsOurs host request_id (delete_dataset path) = IsOurZvol host request_id path

All-append {ℓ κ} :
    {A : Type ℓ} (P : A → Type κ) (xs ys : List A) → All P xs → All P ys → All P (xs ++ ys)
All-append P [] ys h k = k
All-append P (x ∷ xs) ys h k = (h.0, All-append P xs ys h.1 k)

tag_flags :
    (managed no_request untagged same : Bool)
    → (if not managed
        then err not_tagged
        else if no_request
        then passed
        else if not untagged && not same
        then err other_request
        else passed)
      ≡ passed
    → (managed ≡ true) × ((no_request ≡ true) ⊎ ((untagged ≡ true) ⊎ (same ≡ true)))
tag_flags false no_request untagged same h = absurd (cc h)
tag_flags true true untagged same h = (refl, inl refl)
tag_flags true false true same h = (refl, inr (inl refl))
tag_flags true false false true h = (refl, inr (inr refl))
tag_flags true false false false h = absurd (cc h)

tags_sound :
    (props : String → Text) (request_id : Text)
    → check_tags props request_id ≡ ok tt
    → (props "org.omni:managed" ≡ codes "true")
      × ((request_id ≡ [])
          ⊎ ((props "org.omni:request-id" ≡ []) ⊎ (props "org.omni:request-id" ≡ request_id)))
unfolding check_tags
tags_sound props request_id h =
    let (managed, rest) =
      tag_flags (text_eq (props "org.omni:managed") (codes "true")) (text_eq request_id [])
        (text_eq (props "org.omni:request-id") [])
        (text_eq (props "org.omni:request-id") request_id) h in
    (
      text_eq_sound (props "org.omni:managed") (codes "true") managed,
      elim rest [
        | inl e ↦ inl (text_eq_sound request_id [] e)
        | inr (inl e) ↦ inr (inl (text_eq_sound (props "org.omni:request-id") [] e))
        | inr (inr e) ↦ inr (inr (text_eq_sound (props "org.omni:request-id") request_id e))
      ],
    )

module _ (host : Host) (request_id : Text) where
  properties_sound :
      (path : Text) (r : Result ApiError (String → Text))
      → host.user_properties path ≡ r
      → check_properties r request_id ≡ ok tt
      → IsOurZvol host request_id path
  unfolding check_properties
  properties_sound path (err e) p h = absurd (cc h)
  properties_sound path (ok props) p h =
      let (managed, same) = tags_sound props request_id h in (props, p, managed, same)

  verified-IsOurZvol :
      (path : Text)
      → verify_zvol_ownership host path request_id ≡ ok tt
      → IsOurZvol host request_id path
  unfolding verify_zvol_ownership
  verified-IsOurZvol path h = elim (Bool-cases (text_eq path [])) [
    | inl e ↦ absurd (cc (rw e at h))
    | inr e ↦ properties_sound path (host.user_properties path) refl (rw e at h)
  ]

  refusal-calls :
      (path : Text) (e : OwnershipError) (r : Result ApiError Bool) → (refusal path e r).1 ≡ []
  unfolding refusal
  refusal-calls path e (ok true) = refl
  refusal-calls path e (ok false) = refl
  refusal-calls path e (err f) = refl

  checked-IsOurs :
      (path : Text) (r : Result OwnershipError (Unit {0}))
      → verify_zvol_ownership host path request_id ≡ r
      → All (IsOurs host request_id) (cleanup_checked host path r).1
  unfolding cleanup_checked
  checked-IsOurs path (err e) p = rw (refusal-calls path e (host.dataset_exists path)) tt
  checked-IsOurs path (ok u) p = (verified-IsOurZvol path p, tt)

  cleanup_zvol-IsOurs :
      (path : Text) → All (IsOurs host request_id) (cleanup_zvol host request_id path).1
  unfolding cleanup_zvol
  cleanup_zvol-IsOurs path = elim (Bool-cases (text_eq path [])) [
    | inl e ↦ rw e tt
    | inr e ↦ rw e (checked-IsOurs path (verify_zvol_ownership host path request_id) refl)
  ]

  and_then-IsOurs :
      (a b : Run)
      → All (IsOurs host request_id) a.1
      → All (IsOurs host request_id) b.1
      → All (IsOurs host request_id) (and_then a b).1
  unfolding and_then
  and_then-IsOurs (err e, calls) b h k = h
  and_then-IsOurs (ok u, calls) (r, more) h k = All-append (IsOurs host request_id) calls more h k

  cleanup_zvols-IsOurs :
      (paths : List Text) → All (IsOurs host request_id) (cleanup_zvols host request_id paths).1
  unfolding cleanup_zvols
  cleanup_zvols-IsOurs [] = tt
  cleanup_zvols-IsOurs (path ∷ paths) =
      and_then-IsOurs (cleanup_zvol host request_id path) (cleanup_zvols host request_id paths)
        (cleanup_zvol-IsOurs path) (cleanup_zvols-IsOurs paths)

  stop_calls-IsOurs :
      (n : ℕ) (in_time : Bool)
      → IsOurVm host n
      → All (IsOurs host request_id) (stop_calls n in_time)
  unfolding stop_calls
  stop_calls-IsOurs n true ours = (ours, tt)
  stop_calls-IsOurs n false ours = (ours, (ours, tt))

  fetched-IsOurs :
      (n : ℕ) (r : Result ApiError Text)
      → host.get_vm n ≡ r
      → All (IsOurs host request_id) (cleanup_fetched host n r).1
  unfolding cleanup_fetched remove_vm
  fetched-IsOurs n (err not_found) p = tt
  fetched-IsOurs n (err failed) p = tt
  fetched-IsOurs n (ok description) p = elim (Bool-cases (is_omni_managed_vm description)) [
    | inl e ↦ rw e (
        All-append (IsOurs host request_id) (stop_calls n (wait_for_graceful_stop (host.polls n)))
          (delete_vm n ∷ [])
          (stop_calls-IsOurs n (wait_for_graceful_stop (host.polls n)) (description, p, e))
          ((description, p, e), tt))
    | inr e ↦ rw e tt
  ]

  cleanup_vm-IsOurs : (n : ℕ) → All (IsOurs host request_id) (cleanup_vm host n).1
  unfolding cleanup_vm
  cleanup_vm-IsOurs n = elim (Bool-cases (n == 0)) [
    | inl e ↦ rw e tt
    | inr e ↦ rw e (fetched-IsOurs n (host.get_vm n) refl)
  ]

  -- Whatever is recorded for a machine, its teardown stops and deletes only a machine whose
  -- description carries the provider's mark, and deletes only volumes that are tagged as managed and,
  -- where the tag and the request both have an ID, for this very request.
  pub deprovision-IsOurs :
      (vm_id : ℕ) (additional_zvol_paths : List Text) (zvol_path : Text)
      → All
          (IsOurs host request_id)
          (deprovision host request_id vm_id additional_zvol_paths zvol_path).1
  unfolding deprovision
  deprovision-IsOurs vm_id additional_zvol_paths zvol_path =
      let further = cleanup_zvols host request_id additional_zvol_paths in
      let root = cleanup_zvol host request_id zvol_path in
      and_then-IsOurs (cleanup_vm host vm_id) (and_then further root) (cleanup_vm-IsOurs vm_id) (
        and_then-IsOurs further root (cleanup_zvols-IsOurs additional_zvol_paths)
          (cleanup_zvol-IsOurs zvol_path))
