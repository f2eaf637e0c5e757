-- ===== src/Text/Signed.antt =====
-- Signed decimal numerals: `strconv.FormatInt`, `strconv.ParseInt` and `strconv.Atoi` in base 10 on
-- 64 bits.
use omni_infra_provider_true.Base.{
  ℕ, zero, suc, ◌≡◌, List, [], ◌∷◌, Option, none, some, arith, ltb, ◌==◌, if◌then◌else◌,
}
use omni_infra_provider_true.Base.Int.{ℤ, pos, negsuc, int64_bound}
use omni_infra_provider_true.Clock.{IsInt64}
use omni_infra_provider_true.Text.Decimal.{
  format_uint, parse_uint, format_uint-head, parse_uint-format_uint,
}

unfoldable pub format_int : ℤ → List ℕ
format_int (pos n) = format_uint n
format_int (negsuc n) = b'-' ∷ format_uint (suc n)

-- The magnitude after no sign or a plus sign, and after a minus sign, within int64.
positive : Option ℕ → Option ℤ
positive none = none
positive (some n) = if ltb n int64_bound then some (pos n) else none

negative : Option ℕ → Option ℤ
negative none = none
negative (some zero) = some (pos 0)
negative (some (suc n)) = if ltb n int64_bound then some (negsuc n) else none

-- `strconv.ParseInt(s, 10, 64)` and `strconv.Atoi(s)`; `none` is any error.
unfoldable pub parse_int : List ℕ → Option ℤ
unfolding positive negative
parse_int [] = none
parse_int (c ∷ s) =
    if c == b'+'
    then positive (parse_uint s)
    else if c == b'-'
    then negative (parse_uint s)
    else positive (parse_uint (c ∷ s))

-- Every int64 is read back from its numeral.
pub parse_int-format_int : (z : ℤ) → IsInt64 z → parse_int (format_int z) ≡ some z
unfolding parse_int format_int
parse_int-format_int (pos n) h =
    let (c, s, e, lo, hi) = format_uint-head n in ground (arith, parse_uint-format_uint n)
parse_int-format_int (negsuc n) h = ground (arith, parse_uint-format_uint (suc n))
