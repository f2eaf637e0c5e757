-- ===== src/Base/Result.antt =====
-- A value or an error, for Go's `(T, error)`.
use mathlib.Core.Path.{◌≡◌, refl}
use mathlib.Core.Bool.{Bool, true, false}
use omni_infra_provider_true.Base.Tests.{if◌then◌else◌}

pub data Result {ℓ κ} (E : Type ℓ) (A : Type κ) : Type (ℓ ⊔ κ) where
  ok : A → Result E A
  err : E → Result E A

infixl 5 ◌>>=◌ ◌>>◌
abbrev pub ◌>>=◌ {ℓ κ ι} :
    {E : Type ℓ} {A : Type κ} {B : Type ι} → Result E A → (A → Result E B) → Result E B
ok a >>= f = f a
err e >>= f = err e

abbrev pub ◌>>◌ {ℓ κ} : {E : Type ℓ} {B : Type κ} → Result E (Unit {0}) → Result E B → Result E B
m >> k = m >>= λ _. k

-- An early return of an error where a test holds.
abbrev pub fail_if {ℓ} : {E : Type ℓ} → Bool → E → Result E (Unit {0})
fail_if true e = err e
fail_if false e = ok tt

pub bind_ok {ℓ κ ι} :
    {E : Type ℓ} {A : Type κ} {B : Type ι} (f : A → Result E B) (m : Result E A) (b : B)
    → (m >>= f) ≡ ok b
    → (a : A) × (m ≡ ok a) × (f a ≡ ok b)
bind_ok f (ok a) b h = (a, refl, h)
bind_ok f (err e) b h = absurd (cc h)

pub fail_if_ok {ℓ} : {E : Type ℓ} (b : Bool) (e : E) (u : Unit {0}) → fail_if b e ≡ ok u → b ≡ false
fail_if_ok true e u h = absurd (cc h)
fail_if_ok false e u h = refl

pub then_ok {ℓ} :
    {E : Type ℓ} (m k : Result E (Unit {0})) → (m >> k) ≡ ok tt → (m ≡ ok tt) × (k ≡ ok tt)
then_ok (ok u) k h = (refl, h)
then_ok (err e) k h = absurd (cc h)

-- A nil error.
abbrev pub passed : {E : Type 0} → Result E (Unit {0})
passed = ok tt

pub if_passed : {E : Type 0} (b : Bool) (e : E) → (if b then passed else err e) ≡ passed → b ≡ true
if_passed true e h = refl
if_passed false e h = absurd (cc h)

-- The error of a check, told by its place.
abbrev pub relabel : {E F : Type 0} → (E → F) → Result E (Unit {0}) → Result F (Unit {0})
relabel f (ok u) = ok u
relabel f (err e) = err (f e)

pub relabel_ok :
    {E F : Type 0} (f : E → F) (r : Result E (Unit {0})) → relabel f r ≡ ok tt → r ≡ ok tt
relabel_ok f (ok u) h = refl
relabel_ok f (err e) h = absurd (cc h)
