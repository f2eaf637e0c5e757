-- ===== src/Meta/Squeeze.antt =====
-- The loop that collapses runs of underscores ends, and does what one pass would.
use omni_infra_provider_true.Base.{
  ℕ, zero, suc, ◌≤◌, ◌<◌, ◌≡◌, refl, sym, ap, ◌∙◌, Bool, true, false, [], ◌∷◌, length, ◌==◌, arith,
  Bool-cases, inl, inr,
}
use omni_infra_provider_true.Text.{Text}
use omni_infra_provider_true.Meta.{has_pair, replace_pairs, collapse}

-- One pass: an underscore is dropped where the last code point kept was one.
unfoldable pub squeeze : Bool → Text → Text
squeeze last [] = []
squeeze last (c ∷ s) = elim (c == b'_') [
  | true ↦ elim last [ true ↦ squeeze true s | false ↦ b'_' ∷ squeeze true s ]
  | false ↦ c ∷ squeeze false s
]

squeeze-replace_pairs : (last : Bool) (s : Text) → squeeze last (replace_pairs s) ≡ squeeze last s
unfolding squeeze replace_pairs
squeeze-replace_pairs last [] = refl
squeeze-replace_pairs last (c ∷ []) = refl
squeeze-replace_pairs last (c ∷ d ∷ s) = ground (
  arith,
  squeeze-replace_pairs true s,
  squeeze-replace_pairs true (d ∷ s),
  squeeze-replace_pairs false (d ∷ s),
)

squeeze_same : (c : ℕ) (s : Text) → has_pair (c ∷ s) ≡ false → squeeze (c == b'_') s ≡ s
unfolding squeeze has_pair
squeeze_same c [] h = refl
squeeze_same c (d ∷ s) h = ground (arith, squeeze_same d s)

length-replace_pairs_le : (s : Text) → length (replace_pairs s) ≤ length s
unfolding replace_pairs
length-replace_pairs_le [] = omega arith
length-replace_pairs_le (c ∷ []) = omega arith
length-replace_pairs_le (c ∷ d ∷ s) =
    ground (arith, length-replace_pairs_le s, length-replace_pairs_le (d ∷ s))

length-replace_pairs : (s : Text) → has_pair s ≡ true → length (replace_pairs s) < length s
unfolding replace_pairs has_pair
length-replace_pairs [] h = absurd (cc h)
length-replace_pairs (c ∷ []) h = absurd (cc h)
length-replace_pairs (c ∷ d ∷ s) h =
    ground (arith, length-replace_pairs_le s, length-replace_pairs (d ∷ s))

has_pair-squeeze :
    (last : Bool) (c : ℕ) (s : Text) → (c == b'_') ≡ last → has_pair (c ∷ squeeze last s) ≡ false
unfolding has_pair squeeze
has_pair-squeeze last c [] h = refl
has_pair-squeeze last c (d ∷ s) h =
    ground (arith, has_pair-squeeze true c s, has_pair-squeeze true d s, has_pair-squeeze false d s)

squeeze-without_pair : (s : Text) → has_pair s ≡ false → squeeze false s ≡ s
unfolding squeeze
squeeze-without_pair [] h = refl
squeeze-without_pair (c ∷ s) h = ground (arith, squeeze_same c s h)

pub collapse-squeeze : (f : ℕ) (s : Text) → length s ≤ f → collapse f s ≡ squeeze false s
unfolding collapse
collapse-squeeze zero [] h = unfold squeeze in refl
collapse-squeeze zero (c ∷ s) h = absurd (omega (arith, h))
collapse-squeeze (suc f) s h = elim (Bool-cases (has_pair s)) [
  | inl e ↦
      rw (e, collapse)
        (collapse-squeeze f (replace_pairs s) (omega (arith, length-replace_pairs s e))
          ∙ squeeze-replace_pairs false s)
  | inr e ↦ rw (e, collapse) (sym (squeeze-without_pair s e))
]

has_pair-squeeze-false : (s : Text) → has_pair (squeeze false s) ≡ false
unfolding squeeze has_pair
has_pair-squeeze-false [] = refl
has_pair-squeeze-false (c ∷ s) =
    ground (arith, has_pair-squeeze true b'_' s, has_pair-squeeze false c s)

-- The loop that collapses runs of underscores ends for every text: after as many rounds as the text
-- is long, if not before, its condition is false, and what is left is the text with each underscore
-- dropped that follows another.
pub collapse-ends :
    (f : ℕ) (s : Text)
    → length s ≤ f
    → (has_pair (collapse f s) ≡ false) × (collapse f s ≡ squeeze false s)
collapse-ends f s enough =
    let e = collapse-squeeze f s enough in (ap has_pair e ∙ has_pair-squeeze-false s, e)
