-- ===== src/Provisioner/Create/Disks.antt =====
-- What is done to a volume that is there already.
use omni_infra_provider_true.Base.{
  ◌≡◌, refl, Bool, true, false, List, [], ◌∷◌, ◌++◌, Option, none, some, All, Bool-cases, inl, inr,
}
use omni_infra_provider_true.Base.Int.{ℤ, leb_ℤ}
use omni_infra_provider_true.Base.Result.{ok, err}
use omni_infra_provider_true.Int64.{scale}
use omni_infra_provider_true.Text.{Text, text_eq}
use omni_infra_provider_true.Provisioner.Create.{
  Failure, already_exists, no_memory, failed, HostCall, create_zvol, create_encrypted_zvol,
  resize_zvol, unlock_dataset, CreateHost, Run, ◌>>◌, made, must, resize_from, maybe_resize_zvol,
  unlock, reopen, created, sealed_with, ensure_encrypted_zvol, ensure_zvol,
}

All-append : {A : Type 0} (P : A → Type 0) (xs ys : List A) → All P xs → All P ys → All P (xs ++ ys)
All-append P [] ys h k = k
All-append P (x ∷ xs) ys h k = (h.0, All-append P xs ys h.1 k)

All-then :
    (P : HostCall → Type 0) (m : Run (Unit {0})) (k : Run (Unit {0}))
    → All P m.1
    → All P k.1
    → All P (m >> k).1
All-then P (ok u, calls) (r, more) h k = All-append P calls more h k
All-then P (err e, calls) k h h' = h

module _ (host : CreateHost) (path : Text) (size : ℤ) where
  -- A creation of this very volume, sealed with a new passphrase where it is encrypted, or a change of the one that is there which keeps its data: a size
  -- that grows, and an unlock of a locked volume with the passphrase that is stored on it.
  abbrev pub IsKept : HostCall → Type 0
  IsKept (create_zvol p s) = (p ≡ path) × (s ≡ size)
  IsKept (create_encrypted_zvol p s passphrase) =
      (p ≡ path) × (s ≡ size) × (host.new_passphrase path ≡ some passphrase)
  IsKept (resize_zvol p s) =
      (p ≡ path)
      × (s ≡ size)
      × ((current : ℤ) × (host.zvol_size path ≡ some current)
          × (leb_ℤ (scale 1073741824 size) current ≡ false))
  IsKept (unlock_dataset p passphrase) =
      (p ≡ path)
      × (host.stored_passphrase path ≡ some passphrase)
      × (text_eq passphrase [] ≡ false)
      × (host.is_locked path ≡ some true)
  IsKept call = ⊥

  made-IsKept : (call : HostCall) (f : Option Failure) → IsKept call → All IsKept (made call f).1
  unfolding made
  made-IsKept call none h = (h, tt)
  made-IsKept call (some e) h = (h, tt)

  must-IsKept : (call : HostCall) → IsKept call → All IsKept (must host call).1
  unfolding must
  must-IsKept call h = made-IsKept call (host.failure call) h

  resize-IsKept :
      (o : Option ℤ) → host.zvol_size path ≡ o → All IsKept (resize_from host path size o).1
  unfolding resize_from
  resize-IsKept none e = tt
  resize-IsKept (some current) e = elim (Bool-cases (leb_ℤ (scale 1073741824 size) current)) [
    | inl enough ↦ simp (enough) tt
    | inr less ↦ simp (less) (must-IsKept (resize_zvol path size) (refl, refl, (current, e, less)))
  ]

  unlock-IsKept :
      (passphrase : Text) (o : Option Bool)
      → host.stored_passphrase path ≡ some passphrase
      → text_eq passphrase [] ≡ false
      → host.is_locked path ≡ o
      → All IsKept (unlock host path passphrase o).1
  unfolding unlock
  unlock-IsKept passphrase none stored n e = tt
  unlock-IsKept passphrase (some false) stored n e = tt
  unlock-IsKept passphrase (some true) stored n e =
      must-IsKept (unlock_dataset path passphrase) (refl, stored, n, e)

  reopen-IsKept :
      (o : Option Text) → host.stored_passphrase path ≡ o → All IsKept (reopen host path size o).1
  unfolding reopen maybe_resize_zvol
  reopen-IsKept none e = tt
  reopen-IsKept (some passphrase) e = elim (Bool-cases (text_eq passphrase [])) [
    | inl empty ↦ simp (empty) tt
    | inr n ↦ simp (n) (
        All-then IsKept (unlock host path passphrase (host.is_locked path))
          (resize_from host path size (host.zvol_size path))
          (unlock-IsKept passphrase (host.is_locked path) e n refl)
          (resize-IsKept (host.zvol_size path) refl))
  ]

  created-IsKept :
      (call : HostCall) (f : Option Failure) (existing : Run (Unit {0}))
      → IsKept call
      → All IsKept existing.1
      → All IsKept (created call f existing).1
  unfolding created
  created-IsKept call none existing h k = (h, tt)
  created-IsKept call (some already_exists) existing h k = (h, k)
  created-IsKept call (some no_memory) existing h k = (h, tt)
  created-IsKept call (some failed) existing h k = (h, tt)

  sealed-IsKept :
      (o : Option Text) → host.new_passphrase path ≡ o → All IsKept (sealed_with host path size o).1
  unfolding sealed_with
  sealed-IsKept none e = tt
  sealed-IsKept (some passphrase) e =
      let call = create_encrypted_zvol path size passphrase in
      created-IsKept call (host.failure call) (reopen host path size (host.stored_passphrase path))
        (refl, refl, e) (reopen-IsKept (host.stored_passphrase path) refl)

  pub ensure_zvol-IsKept : (encrypted : Bool) → All IsKept (ensure_zvol host path size encrypted).1
  unfolding ensure_zvol ensure_encrypted_zvol maybe_resize_zvol
  ensure_zvol-IsKept true = sealed-IsKept (host.new_passphrase path) refl
  ensure_zvol-IsKept false =
      let call = create_zvol path size in
      created-IsKept call (host.failure call) (resize_from host path size (host.zvol_size path))
        (refl, refl) (resize-IsKept (host.zvol_size path) refl)
