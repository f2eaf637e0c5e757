-- ===== src/Int64.antt =====
-- Go's `int64` where the code computes with it: sums and products wrap around, a division rounds
-- toward zero.
use omni_infra_provider_true.Base.{
  ℕ, zero, suc, ◌+◌, ◌-◌, ◌*◌, ◌/◌, ◌%◌, ◌<◌, ◌≤◌, ap, ◌∙◌, ◌≡◌, refl, arith, ltb, if◌then◌else◌,
}
use omni_infra_provider_true.Base.Int.{
  ℤ, pos, negsuc, pos_part, eq_of_parts, +ℤ_parts, -ℤ_parts, ◌+ℤ◌, ◌-ℤ◌, int64_bound, u64_mod,
}
use omni_infra_provider_true.Clock.{IsInt64}

unfoldable pub wrap : ℤ → ℤ
wrap (pos n) = let r = n % u64_mod in if ltb r int64_bound then pos r else negsuc (u64_mod - 1 - r)
wrap (negsuc n) =
    let r = n % u64_mod in if ltb r int64_bound then negsuc r else pos (u64_mod - 1 - r)

unfoldable pub scale : ℕ → ℤ → ℤ
unfolding wrap
scale k (pos n) = wrap (pos (n * k))
scale zero (negsuc n) = pos 0
scale (suc k) (negsuc n) = wrap (negsuc (suc n * suc k - 1))

-- The integer -n.
abbrev pub minus : ℕ → ℤ
minus zero = pos 0
minus (suc n) = negsuc n

-- Go's `z / k`.
unfoldable pub quotient : ℤ → ℕ → ℤ
quotient (pos n) k = pos (n / k)
quotient (negsuc n) k = minus (suc n / k)

minus_part : (n : ℕ) → pos_part (minus n) ≡ 0
minus_part zero = refl
minus_part (suc n) = refl

wrap-IsInt64 : (z : ℤ) → IsInt64 z → wrap z ≡ z
unfolding wrap
wrap-IsInt64 (pos n) h = ground arith
wrap-IsInt64 (negsuc n) h = ground arith

pub scale-pos : (k n : ℕ) → n * k < int64_bound → scale k (pos n) ≡ pos (n * k)
unfolding scale
scale-pos k n h = wrap-IsInt64 (pos (n * k)) h

pub wrap-sum : (a b : ℕ) → a + b < int64_bound → wrap (pos a +ℤ pos b) ≡ pos (a + b)
wrap-sum a b h =
    ap wrap (eq_of_parts (pos a +ℤ pos b) (pos (a + b)) (ground (arith, +ℤ_parts (pos a) (pos b))))
    ∙ wrap-IsInt64 (pos (a + b)) h

pub wrap-difference : (a b : ℕ) → b ≤ a → a < int64_bound → wrap (pos a -ℤ pos b) ≡ pos (a - b)
wrap-difference a b le h =
    ap wrap (eq_of_parts (pos a -ℤ pos b) (pos (a - b)) (ground (arith, -ℤ_parts (pos a) (pos b))))
    ∙ wrap-IsInt64 (pos (a - b)) (omega arith)

pub wrap-negative_difference :
    (a b : ℕ) → a < b → b < int64_bound → wrap (pos a -ℤ pos b) ≡ negsuc (b - a - 1)
wrap-negative_difference a b lt h =
    ap wrap
      (eq_of_parts (pos a -ℤ pos b) (negsuc (b - a - 1)) (ground (arith, -ℤ_parts (pos a) (pos b))))
    ∙ wrap-IsInt64 (negsuc (b - a - 1)) (omega arith)

pub scale-negsuc :
    (k n : ℕ) → suc n * suc k < int64_bound → scale (suc k) (negsuc n) ≡ negsuc (suc n * suc k - 1)
unfolding scale
scale-negsuc k n h = wrap-IsInt64 (negsuc (suc n * suc k - 1)) (omega (arith, h))

pub quotient-negsuc : (n k : ℕ) → pos_part (quotient (negsuc n) k) ≡ 0
unfolding quotient
quotient-negsuc n k = minus_part (suc n / k)
