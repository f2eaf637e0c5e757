-- ===== src/Monitor.antt =====
-- internal/monitor/monitor.go: SelectPool. The list of the pools is an input.
mod Tests
use omni_infra_provider_true.Base.{
  ◌≡◌, ◌≢◌, ◌↔◌, refl, sym, subst, inl, inr, ◌⊎◌, Bool, true, false, List, [], ◌∷◌, Option, none,
  some, All, arith, if◌then◌else◌, Bool-cases,
}
use mathlib.Core.List.{Memᴰ}
use omni_infra_provider_true.Base.Int.{ℤ, ltb_ℤ, ◌≤ℤ◌}
use omni_infra_provider_true.Base.Result.{Result, ok, err}
use omni_infra_provider_true.Text.{Text, text_eq}
use omni_infra_provider_true.Autoscaler.Server.{PoolInfo}

pub data PoolError : Type 0 where
  pools_unlisted no_healthy_pool : PoolError

-- Whether a healthy pool replaces the best one so far.
is_better : Option PoolInfo → PoolInfo → Bool
is_better none p = true
is_better (some best) p = ltb_ℤ best.free p.free

unfoldable pub best_pool : Option PoolInfo → List PoolInfo → Option PoolInfo
unfolding is_better
best_pool best [] = best
best_pool best (p ∷ ps) =
    best_pool (if p.healthy then (if is_better best p then some p else best) else best) ps

named : Option PoolInfo → Result PoolError Text
named none = err no_healthy_pool
named (some p) = ok p.name

listed : Option (List PoolInfo) → Result PoolError Text
unfolding named best_pool
listed none = err pools_unlisted
listed (some pools) = named (best_pool none pools)

-- `SelectPool`, on the explicit pool and what lists the pools, none where that fails.
unfoldable pub select_pool : Text → Option (List PoolInfo) → Result PoolError Text
unfolding listed
select_pool explicit_pool pools =
    if text_eq explicit_pool [] then listed pools else ok explicit_pool

-- A pool that is healthy and that no healthy pool of a list has more free space than.
abbrev IsBest : PoolInfo → List PoolInfo → Type 0
IsBest best pools =
    (best.healthy ≡ true) × All (λ p. (p.healthy ≡ false) ⊎ (p.free ≤ℤ best.free)) pools

-- What the loop returns from a healthy pool on.
IsChoice : PoolInfo → List PoolInfo → PoolInfo → Type 0
IsChoice start pools best =
    ((best ≡ start) ⊎ Memᴰ best pools) × (start.free ≤ℤ best.free) × IsBest best pools

better-IsChoice :
    (start p : PoolInfo) (ps : List PoolInfo) (best : PoolInfo)
    → start.free ≤ℤ p.free
    → IsChoice p ps best
    → IsChoice start (p ∷ ps) best
unfolding IsChoice
better-IsChoice start p ps best le (from, up, (healthy, all)) = (
  elim from [ inl e ↦ inr (Memᴰ.head e) | inr m ↦ inr (Memᴰ.tail m) ],
  omega (arith, le, up),
  (healthy, (inr up, all)),
)

worse-IsChoice :
    (start p : PoolInfo) (ps : List PoolInfo) (best : PoolInfo)
    → (p.healthy ≡ false) ⊎ (p.free ≤ℤ start.free)
    → IsChoice start ps best
    → IsChoice start (p ∷ ps) best
unfolding IsChoice
worse-IsChoice start p ps best le (from, up, (healthy, all)) = (
  elim from [ inl e ↦ inl e | inr m ↦ inr (Memᴰ.tail m) ],
  up,
  (healthy, (elim le [ inl sick ↦ inl sick | inr less ↦ inr (omega (arith, less, up)) ], all)),
)

best_pool-IsChoice :
    (start : PoolInfo) (pools : List PoolInfo)
    → start.healthy ≡ true
    → (best : PoolInfo) × (best_pool (some start) pools ≡ some best) × IsChoice start pools best
unfolding best_pool is_better IsChoice
best_pool-IsChoice start [] h = (start, refl, (inl refl, omega arith, (h, tt)))
best_pool-IsChoice start (p ∷ ps) h = elim (Bool-cases p.healthy) [
  | inl healthy ↦ elim (Bool-cases (ltb_ℤ start.free p.free)) [
    | inl more ↦
        let (best, e, c) = best_pool-IsChoice p ps healthy in
        (best, simp (healthy, more, e), better-IsChoice start p ps best (ground arith) c)
    | inr less ↦
        let (best, e, c) = best_pool-IsChoice start ps h in
        (best, simp (healthy, less, e), worse-IsChoice start p ps best (inr (ground arith)) c)
  ]
  | inr sick ↦
      let (best, e, c) = best_pool-IsChoice start ps h in
      (best, simp (sick, e), worse-IsChoice start p ps best (inl sick) c)
]

-- The verdict on the pools that are listed: none of them is healthy, or one of them is named that is
-- healthy and that no healthy one has more free space than.
abbrev IsSelected : List PoolInfo → Result PoolError Text → Type 0
IsSelected pools r =
    ((r ≡ err no_healthy_pool) × All (λ p. p.healthy ≡ false) pools)
    ⊎ ((best : PoolInfo) × (r ≡ ok best.name) × Memᴰ best pools × IsBest best pools)

best_pool-IsSelected : (pools : List PoolInfo) → IsSelected pools (named (best_pool none pools))
unfolding best_pool named is_better IsChoice
best_pool-IsSelected [] = inl (refl, tt)
best_pool-IsSelected (p ∷ ps) = elim (Bool-cases p.healthy) [
  | inl healthy ↦
      let (best, e, (from, up, (good, all))) = best_pool-IsChoice p ps healthy in
      inr (
        best,
        simp (healthy, e),
        elim from [ inl e ↦ Memᴰ.head e | inr m ↦ Memᴰ.tail m ],
        (good, (inr up, all)),
      )
  | inr sick ↦ elim (best_pool-IsSelected ps) [
    | inl (none_left, all) ↦ inl (simp (sick, none_left), (sick, all))
    | inr (best, e, m, (good, all)) ↦
        inr (best, simp (sick, e), Memᴰ.tail m, (good, (inl sick, all)))
  ]
]

-- Where no pool is given and the pools can be listed, the selection fails exactly if no pool is
-- healthy, and otherwise names a listed, healthy pool that no healthy one has more free space than.
pub select_pool-IsSelected :
    (pools : List PoolInfo) → IsSelected pools (select_pool [] (some pools))
unfolding select_pool listed text_eq
select_pool-IsSelected pools = best_pool-IsSelected pools
