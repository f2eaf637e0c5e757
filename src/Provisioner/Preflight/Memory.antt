-- ===== src/Provisioner/Preflight/Memory.antt =====
-- What an admitted machine leaves of the host's memory.
use omni_infra_provider_true.Base.{
  sym, ℕ, suc, leb, leb→le, ◌+◌, ◌-◌, ◌*◌, ◌/◌, ◌≤◌, ◌<◌, ◌≡◌, ◌↔◌, refl, Bool, true, false, List,
  [], ◌∷◌, some, All, str_eq, arith, if◌then◌else◌, Bool-cases, inl, inr, ap, ◌∙◌,
}
use omni_infra_provider_true.Base.Int.{ℤ, pos, pos_part, ◌+ℤ◌, ◌-ℤ◌, ltb_ℤ, int64_bound}
use omni_infra_provider_true.Base.Result.{ok, ◌>>◌, fail_if}
use omni_infra_provider_true.Int64.{
  wrap, scale, quotient, wrap-sum, wrap-difference, wrap-negative_difference, scale-pos,
  scale-negsuc, quotient-negsuc,
}
use omni_infra_provider_true.Provisioner.{Data}
use omni_infra_provider_true.Provisioner.Preflight.{
  Guest, sum_from, running_guests_memory_mib, reserved_mib, check_free, preflight_host_memory,
  exceeds_host, host_out_of_memory,
}

-- The memory of the running guests, as a sum without a bound.
unfoldable pub committed : List Guest → ℕ
committed [] = 0
committed (g ∷ gs) =
    if str_eq g.state "RUNNING" then pos_part g.memory + committed gs else committed gs

-- No guest's memory is negative.
abbrev pub IsGuest : Guest → Type 0
IsGuest g = g.memory ≡ pos (pos_part g.memory)

sum_from-committed :
    (t : ℕ) (gs : List Guest)
    → All IsGuest gs
    → t + committed gs < int64_bound
    → sum_from (pos t) gs ≡ pos (t + committed gs)
unfolding sum_from committed
sum_from-committed t [] h b = ap pos (omega arith)
sum_from-committed t (g ∷ gs) (h, hs) b = elim (Bool-cases (str_eq g.state "RUNNING")) [
  | inl e ↦
      let b' = simp (e) at b in
      ap (λ z. sum_from z gs)
        (simp (e)
          (ap (λ m. wrap (pos t +ℤ m)) h ∙ wrap-sum t (pos_part g.memory) (omega (arith, b'))))
      ∙ sum_from-committed (t + pos_part g.memory) gs hs (omega (arith, b'))
      ∙ simp (e) (ap pos (omega arith))
  | inr e ↦ simp (e) (sum_from-committed t gs hs (simp (e) at b))
]

free_enough :
    (h c r : ℕ)
    → h < 17592186044416
    → c < 72057594037927936
    → 0 < r
    → (ltb_ℤ (quotient (scale 90 (wrap (pos h -ℤ pos c))) 100) (pos r) ≡ false)
      ↔ (100 * r + 90 * c ≤ 90 * h)
unfolding quotient
free_enough h c r host small positive = elim (Bool-cases (leb c h)) [
  | inl e ↦
      simp (wrap-difference h c (leb→le c h e) (omega arith), scale-pos 90 (h - c) (omega arith))
        (ground arith)
  | inr e ↦
      let negative = wrap-negative_difference h c (ground arith) (omega arith) in
      let scaled = scale-negsuc 89 (c - h - 1) (ground arith) in
      simp (negative, scaled) (ground (arith, quotient-negsuc (suc (c - h - 1) * 90 - 1) 100))
]

memory_within :
    (h m : ℕ)
    → h < 17592186044416
    → (ltb_ℤ (quotient (scale 80 (pos h)) 100) (pos m) ≡ false) ↔ (100 * m ≤ 80 * h)
unfolding quotient
memory_within h m host = simp (scale-pos 80 h (omega arith)) (ground arith)

both_pass :
    {E : Type 0} (a b : Bool) (x y : E)
    → ((fail_if a x >> fail_if b y) ≡ ok tt) ↔ ((a ≡ false) × (b ≡ false))
both_pass true b x y = (λ h. absurd (cc h), λ p. absurd (cc p.0))
both_pass false true x y = (λ h. absurd (cc h), λ p. absurd (cc p.1))
both_pass false false x y = (λ h. (refl, refl), λ p. refl)

-- A machine is admitted, where the host's memory and its guests can be read, exactly if its memory is
-- within 80 percent of the host's and what it reserves is within 90 percent of what the running
-- guests leave of it, in MiB and rounded down; a guest's memory is never negative, and the sums fit
-- into an int64.
pub preflight_host_memory_iff :
    (d : Data) (bytes m r : ℕ) (guests : List Guest)
    → All IsGuest guests
    → d.memory ≡ pos m
    → reserved_mib d ≡ pos r
    → 0 < r
    → bytes < int64_bound
    → committed guests < 72057594037927936
    → (preflight_host_memory d (some (pos bytes)) (some guests) ≡ ok tt) ↔ (
        (100 * m ≤ 80 * (bytes / 1048576))
        × (100 * r + 90 * committed guests ≤ 90 * (bytes / 1048576)))
unfolding preflight_host_memory check_free running_guests_memory_mib quotient
preflight_host_memory_iff d bytes m r guests gs e f positive host small =
    let h = bytes / 1048576 in
    let first = memory_within h m (omega arith) in
    let second = free_enough h (committed guests) r (omega arith) small positive in
    let total = sum_from-committed 0 guests gs (omega arith) ∙ ap pos (omega arith) in
    let ceiling = quotient (scale 80 (pos h)) 100 in
    let free : ℤ → ℤ = λ running. quotient (scale 90 (wrap (pos h -ℤ running))) 100 in
    let running = running_guests_memory_mib guests in
    let same_ceiling = ap (ltb_ℤ ceiling) e in
    let same_free =
      ap (λ z. ltb_ℤ (free z) (reserved_mib d)) total
      ∙ ap (ltb_ℤ (free (pos (committed guests)))) f in
    let split =
      both_pass (ltb_ℤ ceiling d.memory) (ltb_ℤ (free running) (reserved_mib d)) exceeds_host
        host_out_of_memory in
    (
      λ k. (first.0 (sym same_ceiling ∙ (split.0 k).0), second.0 (sym same_free ∙ (split.0 k).1)),
      λ p. split.1 (same_ceiling ∙ first.1 p.0, same_free ∙ second.1 p.1),
    )
