-- ===== src/Lease/Acquire/Views.antt =====
-- A whole update: its views are accepted, each from the memory that the one before it left.
use omni_infra_provider_true.Base.{◌≡◌, refl, ap, ◌∙◌, List, [], ◌∷◌, none}
use omni_infra_provider_true.Base.Result.{Result, ok, err}
use omni_infra_provider_true.Clock.{Time}
use omni_infra_provider_true.Omni.{ProviderStatus}
use omni_infra_provider_true.Lease.{Rfc3339, Lease}
use omni_infra_provider_true.Lease.Claim.{LeaseHeld, decide}
use omni_infra_provider_true.Lease.Acquire.{after_view, claim_views}

module _ (rfc : Rfc3339) where
  -- Each view is accepted by the rules of a claim, from the memory that the view before it left.
  abbrev pub AreAccepted : Lease → List (Time × ProviderStatus) → Lease → Type 0
  AreAccepted l [] l' = l ≡ l'
  AreAccepted l ((now, res) ∷ views) l' =
      (l₁ : Lease) × (decide rfc l now res ≡ ok l₁) × AreAccepted l₁ views l'

  view_sound :
      (r : Result LeaseHeld Lease) (l l' : Lease) (views : List (Time × ProviderStatus))
      → ((l₁ : Lease) → claim_views rfc l₁ views ≡ (none, l') → AreAccepted l₁ views l')
      → after_view rfc r l (λ l₁. claim_views rfc l₁ views) ≡ (none, l')
      → (l₁ : Lease) × (r ≡ ok l₁) × AreAccepted l₁ views l'
  unfolding after_view
  view_sound (err h) l l' views later e = absurd (cc e)
  view_sound (ok l₁) l l' views later e = (l₁, refl, later l₁ e)

  pub views_sound :
      (views : List (Time × ProviderStatus)) (l l' : Lease)
      → claim_views rfc l views ≡ (none, l')
      → AreAccepted l views l'
  unfolding claim_views
  views_sound [] l l' e = ap (λ r. r.1) e
  views_sound ((now, res) ∷ views) l l' e =
      view_sound (decide rfc l now res) l l' views (λ l₁. views_sound views l₁ l') e

  pub views_complete :
      (views : List (Time × ProviderStatus)) (l l' : Lease)
      → AreAccepted l views l'
      → claim_views rfc l views ≡ (none, l')
  unfolding claim_views after_view
  views_complete [] l l' e = ap (λ m. (none, m)) e
  views_complete ((now, res) ∷ views) l l' (l₁, d, rest) =
      ap (λ r. after_view rfc r l (λ m. claim_views rfc m views)) d
      ∙ views_complete views l₁ l' rest
