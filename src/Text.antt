-- ===== src/Text.antt =====
-- Texts as lists of code points, with what the program uses of Go's `strings` package.
pub mod Decimal
pub mod Signed
pub mod Fields
pub mod Order
use Prim.Native.Char.{code}
use omni_infra_provider_true.Base.{
  ℕ, ◌-◌, ◌+◌, ◌≡◌, ◌↔◌, refl, Bool, true, false, ◌&&◌, ◌||◌, List, [], ◌∷◌, ◌++◌, map, Option,
  none, some, String, arith, leb, ◌==◌, ==_iff, if◌then◌else◌,
}
use mathlib.Core.List.{reverse}

abbrev pub Text : Type 0
Text = List ℕ

-- The code points of a literal.
abbrev pub codes : String → Text
codes String.[] = []
codes (String.◌∷◌ c s) = code c ∷ codes s

-- Go's `==` on two strings.
unfoldable pub text_eq : Text → Text → Bool
text_eq [] [] = true
text_eq [] (y ∷ ys) = false
text_eq (x ∷ xs) [] = false
text_eq (x ∷ xs) (y ∷ ys) = (x == y) && text_eq xs ys

pub text_eq_refl : (s : Text) → text_eq s s ≡ true
unfolding text_eq
text_eq_refl [] = refl
text_eq_refl (x ∷ xs) = ground (arith, text_eq_refl xs)

pub text_eq_sound : (s t : Text) → text_eq s t ≡ true → s ≡ t
unfolding text_eq
text_eq_sound [] [] h = refl
text_eq_sound [] (y ∷ ys) h = ground arith
text_eq_sound (x ∷ xs) [] h = ground arith
text_eq_sound (x ∷ xs) (y ∷ ys) h = ground (arith, text_eq_sound xs ys)

-- `unicode.IsSpace`.
unfoldable pub is_space : ℕ → Bool
is_space c =
    (leb 9 c && leb c 13)
    || c == 32
    || c == 0x85
    || c == 0xA0
    || c == 0x1680
    || (leb 0x2000 c && leb c 0x200A)
    || c == 0x2028
    || c == 0x2029
    || c == 0x202F
    || c == 0x205F
    || c == 0x3000

unfoldable pub trim_left : Text → Text
unfolding is_space
trim_left [] = []
trim_left (c ∷ s) = let rest = trim_left s in if is_space c then rest else c ∷ s

-- `strings.TrimSpace`.
unfoldable pub trim_space : Text → Text
unfolding trim_left
trim_space s = reverse (trim_left (reverse (trim_left s)))

-- `unicode.ToLower` where its result is ASCII: the capital letters, the Kelvin sign and the dotted
-- capital I. Any other code point keeps a value that is no ASCII letter, which is all that a
-- comparison with an ASCII literal sees.
unfoldable pub lower : ℕ → ℕ
lower c =
    if leb b'A' c && leb c b'Z'
    then c + 32
    else if c == 0x212A
    then b'k'
    else if c == 0x130
    then b'i'
    else c

-- `strings.ToLower`.
unfoldable pub to_lower : Text → Text
unfolding lower
to_lower s = map lower s

before : ℕ → Option (Text × Text) → Option (Text × Text)
before c none = none
before c (some (a, b)) = some (c ∷ a, b)

-- `strings.SplitN(s, sep, 2)`, where it gives two parts: what stands before and after the first
-- separator.
unfoldable pub cut : ℕ → Text → Option (Text × Text)
unfolding before
cut sep [] = none
cut sep (c ∷ s) = let rest = before c (cut sep s) in if c == sep then some ([], s) else rest

-- Whether a separator does not occur.
unfoldable pub lacks : ℕ → Text → Bool
lacks sep [] = true
lacks sep (c ∷ s) = if c == sep then false else lacks sep s

-- A join at a separator that the first part lacks is cut there again.
pub cut-append : (sep : ℕ) (s t : Text) → lacks sep s ≡ true → cut sep (s ++ sep ∷ t) ≡ some (s, t)
unfolding cut lacks
cut-append sep [] t h = ground arith
cut-append sep (c ∷ s) t h = ground (arith, cut-append sep s t)
