-- ===== src/Provisioner/Names.antt =====
-- internal/provisioner/data.go: names that are safe in paths and calls.
use omni_infra_provider_true.Base.{
  ℕ, Bool, true, false, ◌&&◌, ◌||◌, List, [], ◌∷◌, leb, ◌==◌, if◌then◌else◌,
}
use omni_infra_provider_true.Text.{Text}

unfoldable pub is_ascii_alphanumeric : ℕ → Bool
is_ascii_alphanumeric c =
    (leb b'a' c && leb c b'z') || (leb b'A' c && leb c b'Z') || (leb b'0' c && leb c b'9')

unfoldable pub all_safe : Text → Bool
unfolding is_ascii_alphanumeric
all_safe [] = true
all_safe (c ∷ s) = (is_ascii_alphanumeric c || c == b'.' || c == b'_' || c == b'-') && all_safe s

-- `safeNameRe.MatchString`.
unfoldable pub matches_safe_name : Text → Bool
unfolding all_safe
matches_safe_name [] = false
matches_safe_name (c ∷ s) = is_ascii_alphanumeric c && all_safe s

-- Whether `validateSafeName` has no complaint.
unfoldable pub is_safe_name : Text → Bool
unfolding matches_safe_name
is_safe_name [] = true
is_safe_name (c ∷ s) = matches_safe_name (c ∷ s)

onto_first : ℕ → List Text → List Text
onto_first c [] = (c ∷ []) ∷ []
onto_first c (part ∷ parts) = (c ∷ part) ∷ parts

-- `strings.Split`, at a separator of one code point.
unfoldable pub split : ℕ → Text → List Text
unfolding onto_first
split sep [] = [] ∷ []
split sep (c ∷ s) = let rest = split sep s in if c == sep then [] ∷ rest else onto_first c rest
