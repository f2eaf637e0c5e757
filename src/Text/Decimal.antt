-- ===== src/Text/Decimal.antt =====
-- Unsigned decimal numerals: `strconv.FormatUint` and `strconv.ParseUint` in base 10, 64 bits.
use omni_infra_provider_true.Base.{
  ℕ, zero, suc, ◌+◌, ◌-◌, ◌*◌, ◌/◌, ◌%◌, ◌<◌, ◌≤◌, ◌≡◌, Bool, ◌&&◌, List, [], ◌∷◌, ◌++◌, Option,
  none, some, arith, ltb, leb, if◌then◌else◌, Bool-cases, inl, inr,
}
use omni_infra_provider_true.Base.Int.{u64_mod}

-- The digits of a number, the most significant first; the fuel is a bound on their count.
unfoldable pub digits : ℕ → ℕ → List ℕ
digits zero n = []
digits (suc f) n =
    let more = digits f (n / 10) ++ (b'0' + n % 10) ∷ [] in
    if ltb n 10 then (b'0' + n) ∷ [] else more

-- `strconv.FormatUint(n, 10)`. A number has fewer than `n + 1` digits beyond its first.
unfoldable pub format_uint : ℕ → List ℕ
unfolding digits
format_uint n = digits (suc n) n

is_digit : ℕ → Bool
is_digit c = leb b'0' c && leb c b'9'

-- The number that a run of digits stands for, after those read so far.
unfoldable pub read_digits : ℕ → List ℕ → Option ℕ
unfolding is_digit
read_digits acc [] = some acc
read_digits acc (c ∷ s) =
    let rest = read_digits (acc * 10 + (c - b'0')) s in if is_digit c then rest else none

in_range : ℕ → ℕ → Option ℕ
in_range bound n = if ltb n bound then some n else none

-- `strconv.ParseUint(s, 10, 64)`; `none` is any error.
unfoldable pub parse_uint : List ℕ → Option ℕ
unfolding read_digits in_range
parse_uint [] = none
parse_uint (c ∷ s) = elim (read_digits 0 (c ∷ s)) [ none ↦ none | some n ↦ in_range u64_mod n ]

read_digits-append :
    (acc n : ℕ) (s t : List ℕ)
    → read_digits acc s ≡ some n
    → read_digits acc (s ++ t) ≡ read_digits n t
unfolding read_digits
read_digits-append acc n [] t h = ground arith
read_digits-append acc n (c ∷ s) t h =
    ground (arith, read_digits-append (acc * 10 + (c - b'0')) n s t)

read_digits-digits : (f n : ℕ) → n < f → read_digits 0 (digits f n) ≡ some n
unfolding digits read_digits
read_digits-digits zero n h = elim h [ ]
read_digits-digits (suc f) n h = elim (Bool-cases (ltb n 10)) [
  | inl small ↦ ground arith
  | inr big ↦ ground (
    arith,
    read_digits-digits f (n / 10),
    read_digits-append 0 (n / 10) (digits f (n / 10)) ((b'0' + n % 10) ∷ []),
  )
]

-- The first character of a numeral is a digit, so it is no sign.
digits-head :
    (f n : ℕ) → n < f → (c : ℕ) × (s : List ℕ) × (digits f n ≡ c ∷ s) × (b'0' ≤ c) × (c ≤ b'9')
unfolding digits
digits-head zero n h = elim h [ ]
digits-head (suc f) n h = elim (Bool-cases (ltb n 10)) [
  | inl small ↦ (b'0' + n, [], ground arith, omega arith, ground arith)
  | inr big ↦
      let (c, s, e, lo, hi) = digits-head f (n / 10) (ground arith) in
      (c, s ++ (b'0' + n % 10) ∷ [], ground arith, lo, hi)
]

pub format_uint-head :
    (n : ℕ) → (c : ℕ) × (s : List ℕ) × (format_uint n ≡ c ∷ s) × (b'0' ≤ c) × (c ≤ b'9')
unfolding format_uint
format_uint-head n = digits-head (suc n) n (omega arith)

-- A number that fits in 64 bits is read back from its numeral.
pub parse_uint-format_uint : (n : ℕ) → n < u64_mod → parse_uint (format_uint n) ≡ some n
unfolding parse_uint format_uint
parse_uint-format_uint n h =
    let (c, s, e, lo, hi) = format_uint-head n in ground (arith, read_digits-digits (suc n) n)
