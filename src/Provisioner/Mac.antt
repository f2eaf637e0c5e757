-- ===== src/Provisioner/Mac.antt =====
-- internal/provisioner/mac.go: the MAC address of a NIC. SHA-256 is a parameter, by the bytes of the
-- digest of a text.
mod Tests
use omni_infra_provider_true.Base.{
  ℕ, zero, suc, ◌+◌, ◌-◌, ◌/◌, ◌%◌, ◌<◌, ◌≤◌, ◌==◌, ==_iff, ◌≡◌, ◌⊎◌, inl, inr, refl, sym, subst,
  Bool, true, false, [], ◌∷◌, ◌++◌, arith, ltb, if◌then◌else◌, Bool-cases,
}
use omni_infra_provider_true.Text.{Text, codes}
use omni_infra_provider_true.Text.Decimal.{format_uint}

hex_digit : ℕ → ℕ
hex_digit n = if ltb n 10 then b'0' + n else b'a' + (n - 10)

-- `%02x` of a byte.
unfoldable pub hex_byte : ℕ → Text
unfolding hex_digit
hex_byte n = hex_digit (n / 16) ∷ hex_digit (n % 16) ∷ []

-- The address with the first octet 02 and five bytes of a digest.
unfoldable pub mac_of : (ℕ → ℕ) → Text
unfolding hex_byte
mac_of h =
    codes "02:"
    ++ hex_byte (h 1)
    ++ b':' ∷ hex_byte (h 2)
    ++ b':' ∷ hex_byte (h 3)
    ++ b':' ∷ hex_byte (h 4)
    ++ b':' ∷ hex_byte (h 5)

abbrev pub max_collision_retries : ℕ
max_collision_retries = 5

module _ (sha256 : Text → ℕ → ℕ) (request_id : Text) (nic_index : ℕ) where
  -- `DeterministicMAC`.
  unfoldable pub deterministic_mac : Text
  unfolding mac_of
  deterministic_mac = mac_of (sha256 (request_id ++ b':' ∷ format_uint nic_index))

  -- The address that an attempt tries.
  unfoldable pub candidate_mac : ℕ → Text
  unfolding deterministic_mac
  candidate_mac zero = deterministic_mac
  candidate_mac (suc attempt) = mac_of (
      sha256 (
        request_id
        ++ b':' ∷ format_uint nic_index
        ++ codes ":collision:"
        ++ format_uint (suc attempt)))

  try_macs : ℕ → ℕ → (Text → Bool) → Text × Bool
  unfolding candidate_mac
  try_macs zero attempt is_taken = (deterministic_mac, true)
  try_macs (suc left) attempt is_taken =
      let rest = try_macs left (suc attempt) is_taken in
      if is_taken (candidate_mac attempt) then rest else (candidate_mac attempt, ltb 0 attempt)

  -- `ResolveDeterministicMAC`, on whether an address is taken.
  unfoldable pub resolve_deterministic_mac : (Text → Bool) → Text × Bool
  unfolding try_macs
  resolve_deterministic_mac is_taken = try_macs max_collision_retries 0 is_taken

  -- The first candidate that is free, of those from an attempt on and below a bound, with the flag
  -- for a collision; or the base address, flagged, where all of them are taken.
  abbrev pub IsResolved : (Text → Bool) → ℕ → ℕ → Text × Bool → Type 0
  IsResolved is_taken from bound (mac, collided) =
      ((k : ℕ) × (from ≤ k)
        × (k < bound)
        × (mac ≡ candidate_mac k)
        × (is_taken mac ≡ false)
        × (collided ≡ ltb 0 k)
        × ((j : ℕ) → from ≤ j → j < k → is_taken (candidate_mac j) ≡ true))
      ⊎ ((mac ≡ deterministic_mac)
          × (collided ≡ true)
          × ((j : ℕ) → from ≤ j → j < bound → is_taken (candidate_mac j) ≡ true))

  taken_below :
      (is_taken : Text → Bool) (from k : ℕ)
      → is_taken (candidate_mac from) ≡ true
      → ((j : ℕ) → suc from ≤ j → j < k → is_taken (candidate_mac j) ≡ true)
      → (j : ℕ) → from ≤ j
      → j < k
      → is_taken (candidate_mac j) ≡ true
  taken_below is_taken from k h rest j lo hi = elim (Bool-cases (j == from)) [
    | inl e ↦ rw ((==_iff j from).0 e) h
    | inr e ↦ rest j (ground arith) hi
  ]

  IsResolved-cons :
      (is_taken : Text → Bool) (from bound : ℕ) (r : Text × Bool)
      → is_taken (candidate_mac from) ≡ true
      → IsResolved is_taken (suc from) bound r
      → IsResolved is_taken from bound r
  IsResolved-cons is_taken from bound (mac, collided) h (inl (k, lo, hi, e, free, flag, all)) =
      inl (k, omega (arith, lo), hi, e, free, flag, taken_below is_taken from k h all)
  IsResolved-cons is_taken from bound (mac, collided) h (inr (e, flag, all)) =
      inr (e, flag, taken_below is_taken from bound h all)

  try_macs-taken :
      (left attempt : ℕ) (is_taken : Text → Bool)
      → is_taken (candidate_mac attempt) ≡ true
      → try_macs (suc left) attempt is_taken ≡ try_macs left (suc attempt) is_taken
  unfolding try_macs
  try_macs-taken left attempt is_taken h = simp (h)

  try_macs-free :
      (left attempt : ℕ) (is_taken : Text → Bool)
      → is_taken (candidate_mac attempt) ≡ false
      → try_macs (suc left) attempt is_taken ≡ (candidate_mac attempt, ltb 0 attempt)
  unfolding try_macs
  try_macs-free left attempt is_taken h = simp (h)

  try_macs-IsResolved :
      (left attempt bound : ℕ) (is_taken : Text → Bool)
      → attempt + left ≡ bound
      → IsResolved is_taken attempt bound (try_macs left attempt is_taken)
  unfolding try_macs
  try_macs-IsResolved zero attempt bound is_taken e =
      inr (refl, refl, λ j lo hi. absurd (omega (arith, e, lo, hi)))
  try_macs-IsResolved (suc left) attempt bound is_taken e =
      elim (Bool-cases (is_taken (candidate_mac attempt))) [
        | inl h ↦
            let rest = try_macs-IsResolved left (suc attempt) bound is_taken (omega (arith, e)) in
            subst (IsResolved is_taken attempt bound) (sym (try_macs-taken left attempt is_taken h))
              (IsResolved-cons is_taken attempt bound (try_macs left (suc attempt) is_taken) h rest)
        | inr h ↦
            subst (IsResolved is_taken attempt bound) (sym (try_macs-free left attempt is_taken h))
              (inl (
                attempt,
                omega arith,
                omega (arith, e),
                refl,
                h,
                refl,
                λ j lo hi. absurd (omega (arith, lo, hi)),
              ))
      ]

  -- The address is the first of the five candidates that is free, flagged if it is not the first one;
  -- only where all five are taken is it the base address, flagged, although that one is taken too.
  pub resolve_deterministic_mac-IsResolved :
      (is_taken : Text → Bool)
      → IsResolved is_taken 0 max_collision_retries (resolve_deterministic_mac is_taken)
  unfolding resolve_deterministic_mac
  resolve_deterministic_mac-IsResolved is_taken = try_macs-IsResolved 5 0 5 is_taken refl
