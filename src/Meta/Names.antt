-- ===== src/Meta/Names.antt =====
-- What the names of virtual machines look like.
use omni_infra_provider_true.Base.{
  ℕ, ◌≡◌, refl, ap, ◌∙◌, Bool, true, false, not, ◌&&◌, [], ◌∷◌, ◌++◌, length, any_of, ◌==◌, arith,
}
use omni_infra_provider_true.Text.{Text}
use omni_infra_provider_true.Meta.{
  is_word, mask, underscore, has_pair, trim_underscore, joined, collapse, build_vm_name,
  omni_prefix, is_omni_vm_name, has_prefix, is_some, after_prefix,
}
use omni_infra_provider_true.Meta.Squeeze.{squeeze, collapse-squeeze, collapse-ends}

-- A code point that is no underscore.
abbrev solid : ℕ → Bool
solid c = not (c == b'_')

-- A letter or a digit of ASCII.
abbrev pub is_alphanumeric : ℕ → Bool
is_alphanumeric c = is_word c && solid c

any_of-append_right : (s t : Text) → any_of solid t ≡ true → any_of solid (s ++ t) ≡ true
unfolding any_of
any_of-append_right [] t h = h
any_of-append_right (c ∷ s) t h = ground (arith, any_of-append_right s t h)

any_of-mask :
    (s : Text) → any_of is_alphanumeric s ≡ true → any_of solid (mask (underscore s)) ≡ true
unfolding any_of mask underscore is_word
any_of-mask [] h = absurd (cc h)
any_of-mask (c ∷ s) h = ground (arith, any_of-mask s)

any_of-squeeze-solid :
    (last : Bool) (s : Text) → any_of solid s ≡ true → any_of solid (squeeze last s) ≡ true
unfolding any_of squeeze
any_of-squeeze-solid last [] h = absurd (cc h)
any_of-squeeze-solid last (c ∷ s) h =
    ground (arith, any_of-squeeze-solid true s, any_of-squeeze-solid false s)

with_prefix :
    (t : Text) → any_of solid t ≡ true → is_omni_vm_name (trim_underscore (omni_prefix ++ t)) ≡ true
unfolding is_omni_vm_name has_prefix is_some after_prefix trim_underscore
with_prefix [] h = absurd (unfold any_of in cc h)
with_prefix (c ∷ []) h = refl
with_prefix (c ∷ d ∷ t) h = refl

squeezed_tail : Text → Text → Text
squeezed_tail provider_id request_id =
    squeeze true (mask provider_id ++ b'_' ∷ mask (underscore request_id))

squeezed_tail-solid :
    (provider_id request_id : Text)
    → any_of is_alphanumeric request_id ≡ true
    → any_of solid (squeezed_tail provider_id request_id) ≡ true
unfolding squeezed_tail any_of
squeezed_tail-solid provider_id request_id h =
    any_of-squeeze-solid true (mask provider_id ++ b'_' ∷ mask (underscore request_id)) (
      any_of-append_right (mask provider_id) (b'_' ∷ mask (underscore request_id))
        (any_of-mask request_id h))

collapse-joined :
    (provider_id request_id : Text)
    → collapse (length (joined provider_id request_id)) (joined provider_id request_id)
      ≡ omni_prefix ++ squeezed_tail provider_id request_id
unfolding joined squeeze squeezed_tail
collapse-joined provider_id request_id =
    let name = joined provider_id request_id in collapse-squeeze (length name) name (omega arith)

-- The name that is built for a request is recognised by the cleanup's prefix test, for every
-- provider ID, if the request ID has a letter or a digit.
pub is_omni_vm_name-build_vm_name :
    (provider_id request_id : Text)
    → any_of is_alphanumeric request_id ≡ true
    → is_omni_vm_name (build_vm_name provider_id request_id) ≡ true
unfolding build_vm_name
is_omni_vm_name-build_vm_name provider_id request_id h =
    ap (λ s. is_omni_vm_name (trim_underscore s)) (collapse-joined provider_id request_id)
    ∙ with_prefix (squeezed_tail provider_id request_id)
        (squeezed_tail-solid provider_id request_id h)

abbrev unsafe : ℕ → Bool
unsafe c = not (is_word c)

any_of-mask-unsafe : (s : Text) → any_of unsafe (mask s) ≡ false
unfolding any_of mask is_word
any_of-mask-unsafe [] = refl
any_of-mask-unsafe (c ∷ s) = ground (arith, any_of-mask-unsafe s)

any_of-append-unsafe :
    (s t : Text)
    → any_of unsafe s ≡ false
    → any_of unsafe t ≡ false
    → any_of unsafe (s ++ t) ≡ false
unfolding any_of
any_of-append-unsafe [] t h k = k
any_of-append-unsafe (c ∷ s) t h k = ground (arith, any_of-append-unsafe s t)

any_of-joined :
    (provider_id request_id : Text) → any_of unsafe (joined provider_id request_id) ≡ false
unfolding joined any_of is_word
any_of-joined provider_id request_id =
    any_of-append-unsafe (mask provider_id) (b'_' ∷ mask (underscore request_id))
      (any_of-mask-unsafe provider_id) (any_of-mask-unsafe (underscore request_id))

any_of-squeeze :
    (last : Bool) (s : Text) → any_of unsafe s ≡ false → any_of unsafe (squeeze last s) ≡ false
unfolding any_of squeeze is_word
any_of-squeeze last [] h = refl
any_of-squeeze last (c ∷ s) h = ground (arith, any_of-squeeze true s, any_of-squeeze false s)

any_of-trim_underscore :
    (s : Text) → any_of unsafe s ≡ false → any_of unsafe (trim_underscore s) ≡ false
unfolding any_of trim_underscore
any_of-trim_underscore [] h = refl
any_of-trim_underscore (c ∷ []) h = ground arith
any_of-trim_underscore (c ∷ d ∷ s) h = ground (arith, any_of-trim_underscore (d ∷ s))

has_pair-trim_underscore : (s : Text) → has_pair s ≡ false → has_pair (trim_underscore s) ≡ false
unfolding has_pair trim_underscore
has_pair-trim_underscore [] h = refl
has_pair-trim_underscore (c ∷ []) h = ground arith
has_pair-trim_underscore (c ∷ d ∷ []) h = ground arith
has_pair-trim_underscore (c ∷ d ∷ e ∷ s) h = ground (arith, has_pair-trim_underscore (d ∷ e ∷ s))

-- Every name that is built holds only ASCII letters, digits and underscores, and no two underscores
-- side by side.
build_vm_name-safe :
    (provider_id request_id : Text)
    → (any_of (λ c. not (is_word c)) (build_vm_name provider_id request_id) ≡ false)
      × (has_pair (build_vm_name provider_id request_id) ≡ false)
unfolding build_vm_name
build_vm_name-safe provider_id request_id =
    let name = joined provider_id request_id in
    let (ends, same) = collapse-ends (length name) name (omega arith) in
    (
      any_of-trim_underscore (collapse (length name) name) (
          ap (any_of unsafe) same
          ∙ any_of-squeeze false name (any_of-joined provider_id request_id)),
      has_pair-trim_underscore (collapse (length name) name) ends,
    )
