-- ===== src/Text/Order.antt =====
-- Go's `<=` on strings: lexicographic, by code points (which is the order of their UTF-8 bytes).
use omni_infra_provider_true.Base.{
  ◌≡◌, refl, Bool, true, false, [], ◌∷◌, arith, ltb, ◌==◌, if◌then◌else◌,
}
use omni_infra_provider_true.Text.{Text}

unfoldable pub text_leb : Text → Text → Bool
text_leb [] t = true
text_leb (x ∷ s) [] = false
text_leb (x ∷ s) (y ∷ t) = let rest = text_leb s t in if x == y then rest else ltb x y

pub text_leb_total : (s t : Text) → text_leb s t ≡ false → text_leb t s ≡ true
unfolding text_leb
text_leb_total [] t h = absurd (cc h)
text_leb_total (x ∷ s) [] h = refl
text_leb_total (x ∷ s) (y ∷ t) h = ground (arith, text_leb_total s t)
