-- ===== src/Provisioner/Validation/Unique.antt =====
-- Names that are checked against those seen before are distinct.
use omni_infra_provider_true.Base.{
  ◌≡◌, ◌≢◌, ap, ◌∙◌, Bool, false, ◌||◌, List, [], ◌∷◌, any_of, All, arith,
}
use omni_infra_provider_true.Text.{Text, text_eq, text_eq_refl}
use omni_infra_provider_true.Provisioner.Validation.{seen_before}

-- No two elements are the same.
abbrev pub AllDistinct : List Text → Type 0
AllDistinct [] = Unit
AllDistinct (s ∷ ss) = All (λ t. s ≢ t) ss × AllDistinct ss

abbrev pub Unseen : List Text → Text → Type 0
Unseen seen t = seen_before seen t ≡ false

or_false : (a b : Bool) → (a || b) ≡ false → (a ≡ false) × (b ≡ false)
or_false a b h = ground arith

Unseen-cons : (s t : Text) (seen : List Text) → Unseen (s ∷ seen) t → (s ≢ t) × Unseen seen t
unfolding seen_before any_of
Unseen-cons s t seen h =
    let (apart, unseen) = or_false (text_eq t s) (seen_before seen t) h in
    (λ e. cc (apart, ap (text_eq t) e ∙ text_eq_refl t), unseen)

pub All-Unseen_cons :
    (s : Text) (seen ts : List Text)
    → All (Unseen (s ∷ seen)) ts
    → All (λ t. s ≢ t) ts × All (Unseen seen) ts
All-Unseen_cons s seen [] h = (tt, tt)
All-Unseen_cons s seen (t ∷ ts) h =
    let (here, before) = Unseen-cons s t seen h.0 in
    let (later, before_all) = All-Unseen_cons s seen ts h.1 in ((here, later), (before, before_all))
