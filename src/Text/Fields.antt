-- ===== src/Text/Fields.antt =====
-- Numerals as fields between separators.
use omni_infra_provider_true.Base.{
  ℕ, zero, suc, ◌+◌, ◌/◌, ◌%◌, ◌<◌, ◌≡◌, refl, true, [], ◌∷◌, ◌++◌, arith,
}
use omni_infra_provider_true.Base.Int.{ℤ, pos, negsuc}
use omni_infra_provider_true.Text.{Text, lacks}
use omni_infra_provider_true.Text.Decimal.{digits, format_uint}
use omni_infra_provider_true.Text.Signed.{format_int}

lacks-append :
    (sep : ℕ) (s t : Text) → lacks sep s ≡ true → lacks sep t ≡ true → lacks sep (s ++ t) ≡ true
unfolding lacks
lacks-append sep [] t h k = k
lacks-append sep (c ∷ s) t h k = ground (arith, lacks-append sep s t)

lacks-digits : (sep f n : ℕ) → b'9' < sep → lacks sep (digits f n) ≡ true
unfolding lacks digits
lacks-digits sep zero n h = refl
lacks-digits sep (suc f) n h = ground (
  arith,
  lacks-digits sep f (n / 10),
  lacks-append sep (digits f (n / 10)) ((b'0' + n % 10) ∷ []),
)

-- A numeral holds no separator that stands above the digits, such as a colon.
pub lacks-format_int : (sep : ℕ) (z : ℤ) → b'9' < sep → lacks sep (format_int z) ≡ true
unfolding format_int format_uint lacks
lacks-format_int sep (pos n) h = lacks-digits sep (suc n) n h
lacks-format_int sep (negsuc n) h = ground (arith, lacks-digits sep (suc (suc n)) (suc n))
