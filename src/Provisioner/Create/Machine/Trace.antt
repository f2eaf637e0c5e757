-- ===== src/Provisioner/Create/Machine/Trace.antt =====
-- Runs by the calls that they make to create a machine, to attach a device to it and to start it.
use mathlib.Core.List.{append_assoc, append-nil}
use omni_infra_provider_true.Base.{
  ℕ, ◌≡◌, refl, sym, ap, subst, ◌∙◌, Bool, true, false, List, [], ◌∷◌, ◌++◌, Option, none, some,
  All, select, select-append, if◌then◌else◌,
}
use omni_infra_provider_true.Base.Int.{ℤ}
use omni_infra_provider_true.Base.Result.{ok, err}
use omni_infra_provider_true.Text.{Text}
use omni_infra_provider_true.Provisioner.Create.{
  Failure, HostCall, create_zvol, create_encrypted_zvol, resize_zvol, unlock_dataset, create_vm,
  add_cdrom, add_disk, add_nic, start_vm, CreateHost, CreateError, call_failed, Run, ◌>>◌, done,
  stop, made, must, ensure, ensure_dataset, ensure_zvol,
}
use omni_infra_provider_true.Provisioner.Create.Disks.{IsKept, ensure_zvol-IsKept}

-- The calls that make a machine, attach a device to it or start it.
unfoldable pub is_device : HostCall → Bool
is_device (create_vm request) = true
is_device (add_cdrom vm path) = true
is_device (add_disk vm path order) = true
is_device (add_nic vm config order) = true
is_device (start_vm vm) = true
is_device call = false

-- A run that is ok and makes exactly these calls of that kind, or that fails after the first of them.
pub data IsTraced (m : Run (Unit {0})) (xs : List HostCall) : Type 0 where
  whole : m.0 ≡ ok tt → select is_device m.1 ≡ xs → IsTraced m xs
  broken_off :
      (e : CreateError)
      → m.0 ≡ err e
      → (rest : List HostCall) → select is_device m.1 ++ rest ≡ xs
      → IsTraced m xs

join :
    (m k : Run (Unit {0})) (xs ys : List HostCall)
    → IsTraced m xs
    → IsTraced k ys
    → IsTraced (m >> k) (xs ++ ys)
join (ok u, calls) (r, more) xs ys (whole e t) (whole e' t') =
    whole e' (select-append is_device calls more ∙ simp (t, t'))
join (ok u, calls) (r, more) xs ys (whole e t) (broken_off f e' rest t') = broken_off f e' rest (
    ap (λ l. l ++ rest) (select-append is_device calls more)
    ∙ append_assoc (select is_device calls) (select is_device more) rest
    ∙ simp (t, t'))
join (ok u, calls) (r, more) xs ys (broken_off f e rest t) k = absurd (cc e)
join (err e, calls) k xs ys (whole h t) q = absurd (cc h)
join (err e, calls) k xs ys (broken_off f h rest t) q =
    broken_off f h (rest ++ ys)
      (sym (append_assoc (select is_device calls) rest ys) ∙ ap (λ l. l ++ ys) t)

pub then-IsTraced :
    {m k : Run (Unit {0})} {xs ys : List HostCall}
    → IsTraced m xs
    → IsTraced k ys
    → IsTraced (m >> k) (xs ++ ys)
then-IsTraced {m = m} {k = k} {xs = xs} {ys = ys} a b = join m k xs ys a b

made-IsTraced :
    (call : HostCall) (f : Option Failure) → IsTraced (made call f) (select is_device (call ∷ []))
unfolding made
made-IsTraced call none = whole refl refl
made-IsTraced call (some e) =
    broken_off (call_failed call) refl [] (append-nil (select is_device (call ∷ [])))

pub done-IsTraced : IsTraced done []
unfolding select
done-IsTraced = whole refl refl

pub stop-IsTraced : (e : CreateError) (xs : List HostCall) → IsTraced (stop e) xs
unfolding select
stop-IsTraced e xs = broken_off e refl xs refl

module _ (host : CreateHost) where
  must-IsTraced : (call : HostCall) → IsTraced (must host call) (select is_device (call ∷ []))
  unfolding must
  must-IsTraced call = made-IsTraced call (host.failure call)

  quiet : (m : Run (Unit {0})) → select is_device m.1 ≡ [] → IsTraced m []
  quiet (ok u, calls) h = whole refl h
  quiet (err e, calls) h = broken_off e refl [] (simp (h))

  kept-quiet :
      (path : Text) (size : ℤ) (calls : List HostCall)
      → All (IsKept host path size) calls
      → select is_device calls ≡ []
  unfolding select is_device
  kept-quiet path size [] h = refl
  kept-quiet path size (create_zvol p s ∷ calls) h = kept-quiet path size calls h.1
  kept-quiet path size (create_encrypted_zvol p s w ∷ calls) h = kept-quiet path size calls h.1
  kept-quiet path size (resize_zvol p s ∷ calls) h = kept-quiet path size calls h.1
  kept-quiet path size (unlock_dataset p w ∷ calls) h = kept-quiet path size calls h.1
  kept-quiet path size (call ∷ calls) h = absurd h.0

  pub ensure_zvol-IsTraced :
      (path : Text) (size : ℤ) (encrypted : Bool)
      → IsTraced (ensure_zvol host path size encrypted) []
  ensure_zvol-IsTraced path size encrypted = quiet (ensure_zvol host path size encrypted) (
      kept-quiet path size (ensure_zvol host path size encrypted).1
        (ensure_zvol-IsKept host path size encrypted))

  pub optional-IsTraced :
      (b : Bool) (call : HostCall)
      → select is_device (call ∷ []) ≡ []
      → IsTraced (if b then must host call else done) []
  unfolding select
  optional-IsTraced true call h = subst (IsTraced (must host call)) h (must-IsTraced call)
  optional-IsTraced false call h = whole refl refl

  pub quiet_must :
      (call : HostCall) → select is_device (call ∷ []) ≡ [] → IsTraced (must host call) []
  quiet_must call h = subst (IsTraced (must host call)) h (must-IsTraced call)

  pub quiet_ensure : (place : ℕ) (path : Text) → IsTraced (ensure host place path) []
  unfolding ensure select is_device
  quiet_ensure place path = made-IsTraced (ensure_dataset path) (host.dataset_failure place path)

  pub device_must :
      (call : HostCall)
      → select is_device (call ∷ []) ≡ call ∷ []
      → IsTraced (must host call) (call ∷ [])
  device_must call h = subst (IsTraced (must host call)) h (must-IsTraced call)
