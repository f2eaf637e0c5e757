-- ===== src/Meta.antt =====
-- internal/resources/meta/meta.go, with the description that internal/provisioner/ownership.go writes:
-- the names of virtual machines and the request IDs in their descriptions.
pub mod Squeeze
pub mod Names
mod Tests
use omni_infra_provider_true.Base.{
  ℕ, zero, suc, ◌≡◌, refl, Bool, true, false, ◌&&◌, ◌||◌, List, [], ◌∷◌, ◌++◌, map, Option, none,
  some, length, leb, ◌==◌, if◌then◌else◌,
}
use omni_infra_provider_true.Text.{Text, codes, cut, cut-append, lacks}

-- A code point that `vmNameSafeRe` does not match.
unfoldable pub is_word : ℕ → Bool
is_word c =
    (leb b'a' c && leb c b'z')
    || (leb b'A' c && leb c b'Z')
    || (leb b'0' c && leb c b'9')
    || c == b'_'

-- `vmNameSafeRe.ReplaceAllString(s, "_")`.
unfoldable pub mask : Text → Text
unfolding is_word
mask s = map (λ c. if is_word c then c else b'_') s

-- `strings.ReplaceAll(s, "-", "_")`.
unfoldable pub underscore : Text → Text
underscore s = map (λ c. if c == b'-' then b'_' else c) s

-- `strings.Contains(s, "__")`.
unfoldable pub has_pair : Text → Bool
has_pair [] = false
has_pair (c ∷ []) = false
has_pair (c ∷ d ∷ s) = (c == b'_' && d == b'_') || has_pair (d ∷ s)

-- `strings.ReplaceAll(s, "__", "_")`, from the left, without overlaps.
unfoldable pub replace_pairs : Text → Text
replace_pairs [] = []
replace_pairs (c ∷ []) = c ∷ []
replace_pairs (c ∷ d ∷ s) = elim (c == b'_' && d == b'_') [
  | true ↦ b'_' ∷ replace_pairs s
  | false ↦ c ∷ replace_pairs (d ∷ s)
]

-- The loop that collapses runs of underscores, on fuel.
unfoldable pub collapse : ℕ → Text → Text
unfolding has_pair replace_pairs
collapse zero s = s
collapse (suc f) s = elim (has_pair s) [ true ↦ collapse f (replace_pairs s) | false ↦ s ]

-- `strings.TrimSuffix(s, "_")`.
unfoldable pub trim_underscore : Text → Text
trim_underscore [] = []
trim_underscore (c ∷ []) = if c == b'_' then [] else c ∷ []
trim_underscore (c ∷ d ∷ s) = c ∷ trim_underscore (d ∷ s)

abbrev pub omni_prefix : Text
omni_prefix = codes "omni_"

-- The name before the loop.
unfoldable pub joined : Text → Text → Text
unfolding mask underscore
joined provider_id request_id =
    omni_prefix ++ mask provider_id ++ b'_' ∷ mask (underscore request_id)

unfoldable pub build_vm_name : Text → Text → Text
unfolding joined collapse trim_underscore
build_vm_name provider_id request_id =
    let name = joined provider_id request_id in trim_underscore (collapse (length name) name)

-- What follows a prefix.
unfoldable pub after_prefix : Text → Text → Option Text
after_prefix [] s = some s
after_prefix (p ∷ ps) [] = none
after_prefix (p ∷ ps) (c ∷ s) = let rest = after_prefix ps s in if p == c then rest else none

is_some : Option Text → Bool
is_some none = false
is_some (some s) = true

-- `strings.HasPrefix`.
unfoldable pub has_prefix : Text → Text → Bool
unfolding after_prefix is_some
has_prefix p s = is_some (after_prefix p s)

unfoldable pub is_omni_vm_name : Text → Bool
unfolding has_prefix
is_omni_vm_name name = has_prefix omni_prefix name

or_else : Option Text → Option Text → Option Text
or_else none o = o
or_else (some s) o = some s

-- What follows the first occurrence of a marker that is not empty.
unfoldable pub after_marker : Text → Text → Option Text
unfolding after_prefix or_else
after_marker m [] = none
after_marker m (c ∷ s) = or_else (after_prefix m (c ∷ s)) (after_marker m s)

before_end : Option (Text × Text) → Text
before_end none = []
before_end (some (id, rest)) = id

up_to_end : Option Text → Text
unfolding before_end cut
up_to_end none = []
up_to_end (some rest) = before_end (cut b')' rest)

unfoldable pub parse_request_id_from_description : Text → Text
unfolding up_to_end after_marker
parse_request_id_from_description description =
    up_to_end (after_marker (codes "(request-id: ") description)

abbrev pub omni_vm_description_prefix : Text
omni_vm_description_prefix = codes "Managed by Omni infra provider"

unfoldable pub omni_vm_description : Text → Text
omni_vm_description request_id =
    omni_vm_description_prefix ++ codes " (request-id: " ++ request_id ++ codes ")"

-- The request ID that the provisioner writes into a machine's description is read back from it, for
-- every ID that holds no closing parenthesis.
pub parse_request_id_from_description-omni_vm_description :
    (request_id : Text)
    → lacks b')' request_id ≡ true
    → parse_request_id_from_description (omni_vm_description request_id) ≡ request_id
unfolding parse_request_id_from_description omni_vm_description up_to_end before_end after_marker
    after_prefix or_else
parse_request_id_from_description-omni_vm_description request_id h =
    rw (cut-append b')' request_id [] h) refl
